-- ===== src/Csv/Headers.antt =====
-- include/hft/csv_formatter.h: the headers of the two files.
use ir_assignment.Prelude.{ℕ, List, [], ◌∷◌}

-- recv_tsec,recv_tnsec,venue,stream_kind,shard_id,conn_epoch,conn_seq,symbol,payload_json
abbrev pub market_data_csv_header : List ℕ
market_data_csv_header =
    b'r' ∷ b'e' ∷ b'c' ∷ b'v' ∷ b'_' ∷ b't' ∷ b's' ∷ b'e' ∷ b'c' ∷ b',' ∷ b'r' ∷ b'e' ∷ b'c' ∷ b'v'
    ∷ b'_' ∷ b't' ∷ b'n' ∷ b's' ∷ b'e' ∷ b'c' ∷ b',' ∷ b'v' ∷ b'e' ∷ b'n' ∷ b'u' ∷ b'e' ∷ b','
    ∷ b's' ∷ b't' ∷ b'r' ∷ b'e' ∷ b'a' ∷ b'm' ∷ b'_' ∷ b'k' ∷ b'i' ∷ b'n' ∷ b'd' ∷ b',' ∷ b's'
    ∷ b'h' ∷ b'a' ∷ b'r' ∷ b'd' ∷ b'_' ∷ b'i' ∷ b'd' ∷ b',' ∷ b'c' ∷ b'o' ∷ b'n' ∷ b'n' ∷ b'_'
    ∷ b'e' ∷ b'p' ∷ b'o' ∷ b'c' ∷ b'h' ∷ b',' ∷ b'c' ∷ b'o' ∷ b'n' ∷ b'n' ∷ b'_' ∷ b's' ∷ b'e'
    ∷ b'q' ∷ b',' ∷ b's' ∷ b'y' ∷ b'm' ∷ b'b' ∷ b'o' ∷ b'l' ∷ b',' ∷ b'p' ∷ b'a' ∷ b'y' ∷ b'l'
    ∷ b'o' ∷ b'a' ∷ b'd' ∷ b'_' ∷ b'j' ∷ b's' ∷ b'o' ∷ b'n' ∷ b'\n' ∷ []

-- tsec,tnsec,seqNo,id,type,side,bid0,bid1,bid2,bid3,bid4,bid_size0,bid_size1,bid_s
-- ize2,bid_size3,bid_size4,ask0,ask1,ask2,ask3,ask4,ask_size0,ask_size1,ask_size2,ask_size3,ask_size4
abbrev pub order_book_csv_header : List ℕ
order_book_csv_header =
    b't' ∷ b's' ∷ b'e' ∷ b'c' ∷ b',' ∷ b't' ∷ b'n' ∷ b's' ∷ b'e' ∷ b'c' ∷ b',' ∷ b's' ∷ b'e' ∷ b'q'
    ∷ b'N' ∷ b'o' ∷ b',' ∷ b'i' ∷ b'd' ∷ b',' ∷ b't' ∷ b'y' ∷ b'p' ∷ b'e' ∷ b',' ∷ b's' ∷ b'i'
    ∷ b'd' ∷ b'e' ∷ b',' ∷ b'b' ∷ b'i' ∷ b'd' ∷ b'0' ∷ b',' ∷ b'b' ∷ b'i' ∷ b'd' ∷ b'1' ∷ b','
    ∷ b'b' ∷ b'i' ∷ b'd' ∷ b'2' ∷ b',' ∷ b'b' ∷ b'i' ∷ b'd' ∷ b'3' ∷ b',' ∷ b'b' ∷ b'i' ∷ b'd'
    ∷ b'4' ∷ b',' ∷ b'b' ∷ b'i' ∷ b'd' ∷ b'_' ∷ b's' ∷ b'i' ∷ b'z' ∷ b'e' ∷ b'0' ∷ b',' ∷ b'b'
    ∷ b'i' ∷ b'd' ∷ b'_' ∷ b's' ∷ b'i' ∷ b'z' ∷ b'e' ∷ b'1' ∷ b',' ∷ b'b' ∷ b'i' ∷ b'd' ∷ b'_'
    ∷ b's' ∷ b'i' ∷ b'z' ∷ b'e' ∷ b'2' ∷ b',' ∷ b'b' ∷ b'i' ∷ b'd' ∷ b'_' ∷ b's' ∷ b'i' ∷ b'z'
    ∷ b'e' ∷ b'3' ∷ b',' ∷ b'b' ∷ b'i' ∷ b'd' ∷ b'_' ∷ b's' ∷ b'i' ∷ b'z' ∷ b'e' ∷ b'4' ∷ b','
    ∷ b'a' ∷ b's' ∷ b'k' ∷ b'0' ∷ b',' ∷ b'a' ∷ b's' ∷ b'k' ∷ b'1' ∷ b',' ∷ b'a' ∷ b's' ∷ b'k'
    ∷ b'2' ∷ b',' ∷ b'a' ∷ b's' ∷ b'k' ∷ b'3' ∷ b',' ∷ b'a' ∷ b's' ∷ b'k' ∷ b'4' ∷ b',' ∷ b'a'
    ∷ b's' ∷ b'k' ∷ b'_' ∷ b's' ∷ b'i' ∷ b'z' ∷ b'e' ∷ b'0' ∷ b',' ∷ b'a' ∷ b's' ∷ b'k' ∷ b'_'
    ∷ b's' ∷ b'i' ∷ b'z' ∷ b'e' ∷ b'1' ∷ b',' ∷ b'a' ∷ b's' ∷ b'k' ∷ b'_' ∷ b's' ∷ b'i' ∷ b'z'
    ∷ b'e' ∷ b'2' ∷ b',' ∷ b'a' ∷ b's' ∷ b'k' ∷ b'_' ∷ b's' ∷ b'i' ∷ b'z' ∷ b'e' ∷ b'3' ∷ b','
    ∷ b'a' ∷ b's' ∷ b'k' ∷ b'_' ∷ b's' ∷ b'i' ∷ b'z' ∷ b'e' ∷ b'4' ∷ b'\n' ∷ []
