-- ===== src/Subscription/Texts.antt =====
-- src/live_subscription.cpp: the texts of the endpoints and of the streams.
use ir_assignment.Prelude.{ℕ, List, [], ◌∷◌}

-- "stream.binance.com"
abbrev pub spot_host : List ℕ
spot_host =
    b's' ∷ b't' ∷ b'r' ∷ b'e' ∷ b'a' ∷ b'm' ∷ b'.' ∷ b'b' ∷ b'i' ∷ b'n' ∷ b'a' ∷ b'n' ∷ b'c' ∷ b'e'
    ∷ b'.' ∷ b'c' ∷ b'o' ∷ b'm' ∷ []

-- "9443"
abbrev pub spot_port : List ℕ
spot_port = b'9' ∷ b'4' ∷ b'4' ∷ b'3' ∷ []

-- "/stream?streams="
abbrev pub spot_target_prefix : List ℕ
spot_target_prefix =
    b'/' ∷ b's' ∷ b't' ∷ b'r' ∷ b'e' ∷ b'a' ∷ b'm' ∷ b'?' ∷ b's' ∷ b't' ∷ b'r' ∷ b'e' ∷ b'a' ∷ b'm'
    ∷ b's' ∷ b'=' ∷ []

-- "fstream.binance.com"
abbrev pub usdm_host : List ℕ
usdm_host =
    b'f' ∷ b's' ∷ b't' ∷ b'r' ∷ b'e' ∷ b'a' ∷ b'm' ∷ b'.' ∷ b'b' ∷ b'i' ∷ b'n' ∷ b'a' ∷ b'n' ∷ b'c'
    ∷ b'e' ∷ b'.' ∷ b'c' ∷ b'o' ∷ b'm' ∷ []

-- "443"
abbrev pub usdm_port : List ℕ
usdm_port = b'4' ∷ b'4' ∷ b'3' ∷ []

-- "/public/stream?streams="
abbrev pub usdm_target_prefix : List ℕ
usdm_target_prefix =
    b'/' ∷ b'p' ∷ b'u' ∷ b'b' ∷ b'l' ∷ b'i' ∷ b'c' ∷ b'/' ∷ b's' ∷ b't' ∷ b'r' ∷ b'e' ∷ b'a' ∷ b'm'
    ∷ b'?' ∷ b's' ∷ b't' ∷ b'r' ∷ b'e' ∷ b'a' ∷ b'm' ∷ b's' ∷ b'=' ∷ []

-- "@depth@100ms"
abbrev pub depth_suffix : List ℕ
depth_suffix =
    b'@' ∷ b'd' ∷ b'e' ∷ b'p' ∷ b't' ∷ b'h' ∷ b'@' ∷ b'1' ∷ b'0' ∷ b'0' ∷ b'm' ∷ b's' ∷ []

-- "@depth5@100ms"
abbrev pub depth5_suffix : List ℕ
depth5_suffix =
    b'@' ∷ b'd' ∷ b'e' ∷ b'p' ∷ b't' ∷ b'h' ∷ b'5' ∷ b'@' ∷ b'1' ∷ b'0' ∷ b'0' ∷ b'm' ∷ b's' ∷ []

-- "@trade"
abbrev pub trade_suffix : List ℕ
trade_suffix = b'@' ∷ b't' ∷ b'r' ∷ b'a' ∷ b'd' ∷ b'e' ∷ []
