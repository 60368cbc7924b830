-- ===== src/Subscription.antt =====
-- src/live_subscription.cpp: the streams of a run, the target of the connection that asks for them, and
-- the table that finds the route of a stream by its name. A slot of the table has the route itself in
-- place of its index, since a route does not change once it is stored; the mask is `%` the size, a
-- power of two. Whether memory can be had is an argument.
pub mod Texts
pub mod Lookup
pub mod Target
pub mod Routes
mod Tests
use Prim.Native.Nat.{bit_xor}
use mathlib.Core.Option.{Option, some}
use mathlib.Core.Option
use ir_assignment.Prelude.{
  ℕ, zero, suc, ◌+◌, ◌-◌, ◌*◌, ◌/◌, ◌%◌, ◌^◌, Bool, true, false, not, ◌&&◌, ◌||◌, List, [], ◌∷◌,
  ◌++◌, ltb, leb, ◌==◌, if◌then◌else◌, length,
}
use ir_assignment.Payload.{PayloadVenue, spot, usdm, SpotStreamKind, depth_diff, depth5, trade}
use ir_assignment.SymbolIdentity.{
  SymbolValidationError, bytes_equal, max_configured_symbols, no_symbol_index, passed,
  validate_symbol_set,
}
use ir_assignment.SymbolIdentity
use Texts.{
  spot_host, spot_port, spot_target_prefix, usdm_host, usdm_port, usdm_target_prefix, depth_suffix,
  depth5_suffix, trade_suffix,
}

abbrev pub streams_per_symbol : ℕ
streams_per_symbol = 3

abbrev pub max_derived_streams : ℕ
max_derived_streams = max_configured_symbols * streams_per_symbol

abbrev pub max_combined_target_bytes : ℕ
max_combined_target_bytes = 8192

abbrev pub max_envelope_stream_name_bytes : ℕ
max_envelope_stream_name_bytes = 128

abbrev pub lookup_slot_count : ℕ
lookup_slot_count = 256

abbrev pub max_size : ℕ
max_size = 2 ^ 64 - 1

pub record VenueEndpoint : Type 0 where
  pub host : List ℕ
  pub port : List ℕ
  pub combined_target_prefix : List ℕ

pub data SubscriptionErrorCode : Type 0 where
  none invalid_venue invalid_symbols stream_count_exceeded : SubscriptionErrorCode
  target_size_overflow target_too_large allocation_failure : SubscriptionErrorCode
  route_table_failure : SubscriptionErrorCode

pub record SubscriptionError : Type 0 where
  pub code : SubscriptionErrorCode
  pub symbol_error : SymbolValidationError
  pub first_index : ℕ
  pub second_index : ℕ

pub record CombinedTargetSizeResult : Type 0 where
  pub bytes : ℕ
  pub error : SubscriptionErrorCode

pub record LiveRoute : Type 0 where
  pub stream_name : List ℕ
  pub normalized_symbol : List ℕ
  pub symbol_index : ℕ
  pub stream_kind : SpotStreamKind

pub data RouteLookupError : Type 0 where
  none unknown_stream stream_name_too_long : RouteLookupError

pub record RouteLookupResult : Type 0 where
  pub route : Option LiveRoute
  pub error : RouteLookupError

abbrev pub production_endpoint : PayloadVenue → VenueEndpoint
production_endpoint spot = record {
  host = spot_host;
  port = spot_port;
  combined_target_prefix = spot_target_prefix;
}
production_endpoint usdm = record {
  host = usdm_host;
  port = usdm_port;
  combined_target_prefix = usdm_target_prefix;
}

-- The suffixes, with their kinds.
abbrev pub suffixes : List (List ℕ × SpotStreamKind)
suffixes = (depth_suffix, depth_diff) ∷ (depth5_suffix, depth5) ∷ (trade_suffix, trade) ∷ []

abbrev pub lower : ℕ → ℕ
lower c = if leb b'A' c && leb c b'Z' then c - b'A' + b'a' else c

unfoldable pub lowercase_symbol : List ℕ → List ℕ
lowercase_symbol [] = []
lowercase_symbol (c ∷ symbol) = lower c ∷ lowercase_symbol symbol

unfoldable pub hash_from : ℕ → List ℕ → ℕ
hash_from hash [] = hash
hash_from hash (c ∷ stream) = hash_from (bit_xor hash c * 1_099_511_628_211 % 2 ^ 64) stream

unfoldable pub hash_stream : List ℕ → ℕ
unfolding hash_from
hash_stream stream = hash_from 14_695_981_039_346_656_037 stream

abbrev pub checked_add : ℕ → ℕ → Option ℕ
checked_add total increment =
    if ltb (max_size - total) increment then Option.none else some (total + increment)

abbrev pub option_then {ℓ κ} : {A : Type ℓ} {B : Type κ} → Option A → (A → Option B) → Option B
option_then Option.none f = Option.none
option_then (some x) f = f x

-- The inner and the outer loop of `checked_combined_target_size`.
unfoldable pub add_streams : List ℕ → List (List ℕ × SpotStreamKind) → ℕ → Option ℕ
add_streams symbol [] total = some total
add_streams symbol ((suffix, kind) ∷ more) total =
    option_then (checked_add total (length symbol)) (λ with_symbol.
      option_then (checked_add with_symbol (length suffix)) (add_streams symbol more))

unfoldable pub add_symbols : List (List ℕ) → ℕ → Option ℕ
unfolding add_streams
add_symbols [] total = some total
add_symbols (symbol ∷ symbols) total =
    option_then (add_streams symbol suffixes total) (add_symbols symbols)

abbrev pub refused_size : SubscriptionErrorCode → CombinedTargetSizeResult
refused_size error = record { bytes = 0; error = error }

abbrev pub size_of : Option ℕ → CombinedTargetSizeResult
size_of Option.none = refused_size SubscriptionErrorCode.target_size_overflow
size_of (some total) = record { bytes = total; error = SubscriptionErrorCode.none }

unfoldable pub checked_combined_target_size : ℕ → List (List ℕ) → CombinedTargetSizeResult
unfolding add_symbols
checked_combined_target_size target_prefix_bytes symbols =
    let symbol_count = length symbols in
    if symbol_count == 0 || ltb max_configured_symbols symbol_count
    then refused_size SubscriptionErrorCode.invalid_symbols
    else if ltb (max_size / streams_per_symbol) symbol_count
    then refused_size SubscriptionErrorCode.stream_count_exceeded
    else if ltb max_derived_streams (symbol_count * streams_per_symbol)
    then refused_size SubscriptionErrorCode.stream_count_exceeded
    else size_of (
        option_then (add_symbols symbols target_prefix_bytes)
          (λ total. checked_add total (symbol_count * streams_per_symbol - 1)))

abbrev pub Lookup : Type 0
Lookup = ℕ → Option LiveRoute

pub record LiveSubscription : Type 0 where
  pub venue : PayloadVenue
  pub endpoint : VenueEndpoint
  pub target : List ℕ
  pub symbols : List (List ℕ)
  pub routes : List LiveRoute
  pub lookup : Lookup

abbrev pub fill : Lookup → ℕ → LiveRoute → Lookup
fill lookup i route j = if i == j then some route else lookup j

abbrev pub home : List ℕ → ℕ
home stream_name = hash_stream stream_name % lookup_slot_count

-- The loop of `insert_route`, with `rounds` probes to go.
unfoldable pub insert_from : ℕ → Lookup → LiveRoute → ℕ → Option Lookup
insert_from zero lookup route slot = Option.none
insert_from (suc rounds) lookup route slot =
    let rest = insert_from rounds lookup route ((slot + 1) % lookup_slot_count) in
    elim (lookup slot) [
      | Option.none ↦ some (fill lookup slot route)
      | some other ↦ if bytes_equal other.stream_name route.stream_name then Option.none else rest
    ]

unfoldable pub insert_route : Lookup → LiveRoute → Option Lookup
unfolding insert_from
insert_route lookup route = insert_from lookup_slot_count lookup route (home route.stream_name)

-- The loop of `find_route`.
unfoldable pub find_from : ℕ → Lookup → List ℕ → ℕ → Option LiveRoute
find_from zero lookup stream_name slot = Option.none
find_from (suc rounds) lookup stream_name slot =
    let rest = find_from rounds lookup stream_name ((slot + 1) % lookup_slot_count) in
    elim (lookup slot) [
      | Option.none ↦ Option.none
      | some other ↦ if bytes_equal other.stream_name stream_name then some other else rest
    ]

abbrev pub found : Option LiveRoute → RouteLookupResult
found Option.none = record { route = Option.none; error = RouteLookupError.unknown_stream }
found (some route) = record { route = some route; error = RouteLookupError.none }

unfoldable pub find_route : LiveSubscription → List ℕ → RouteLookupResult
unfolding find_from
find_route subscription stream_name =
    if ltb max_envelope_stream_name_bytes (length stream_name)
    then record { route = Option.none; error = RouteLookupError.stream_name_too_long }
    else found (find_from lookup_slot_count subscription.lookup stream_name (home stream_name))

abbrev pub is_first : List LiveRoute → Bool
is_first [] = true
is_first (route ∷ routes) = false

-- One stream: its name goes to the target and its route into the table.
abbrev pub with_lookup : LiveSubscription → LiveRoute → Option Lookup → Option LiveSubscription
with_lookup s route Option.none = Option.none
with_lookup s route (some lookup) = some (record s {
  target = (if is_first s.routes then s.target else s.target ++ (b'/' ∷ [])) ++ route.stream_name;
  routes = s.routes ++ (route ∷ []);
  lookup = lookup;
})

abbrev pub add_route : LiveSubscription → LiveRoute → Option LiveSubscription
add_route s route = with_lookup s route (insert_route s.lookup route)

abbrev pub route_of : List ℕ → ℕ → List ℕ × SpotStreamKind → LiveRoute
route_of symbol symbol_index (suffix, kind) = record {
  stream_name = lowercase_symbol symbol ++ suffix;
  normalized_symbol = symbol;
  symbol_index = symbol_index;
  stream_kind = kind;
}

-- The inner and the outer loop of `create`.
unfoldable pub add_kinds :
    List ℕ → ℕ → List (List ℕ × SpotStreamKind) → LiveSubscription → Option LiveSubscription
add_kinds symbol symbol_index [] s = some s
add_kinds symbol symbol_index (kind ∷ kinds) s =
    option_then (add_route s (route_of symbol symbol_index kind))
      (add_kinds symbol symbol_index kinds)

unfoldable pub add_all : List (List ℕ) → ℕ → LiveSubscription → Option LiveSubscription
unfolding add_kinds
add_all [] symbol_index s = some s
add_all (symbol ∷ symbols) symbol_index s =
    option_then (add_kinds symbol symbol_index suffixes s) (add_all symbols (suc symbol_index))

abbrev pub new_subscription : PayloadVenue → List (List ℕ) → LiveSubscription
new_subscription venue symbols = record {
  venue = venue;
  endpoint = production_endpoint venue;
  target = (production_endpoint venue).combined_target_prefix;
  symbols = symbols;
  routes = [];
  lookup = λ i. Option.none;
}

abbrev pub error_with : SubscriptionErrorCode → SubscriptionError
error_with code = record {
  code = code;
  symbol_error = SymbolIdentity.none;
  first_index = no_symbol_index;
  second_index = no_symbol_index;
}

abbrev pub no_error : SubscriptionError
no_error = error_with SubscriptionErrorCode.none

abbrev pub refused : SubscriptionErrorCode → Option LiveSubscription × SubscriptionError
refused code = (Option.none, error_with code)

abbrev pub is_success : CombinedTargetSizeResult → Bool
is_success r = elim r.error [ SubscriptionErrorCode.none ↦ true | _ ↦ false ]

-- The last test of `create`.
abbrev pub with_size : ℕ → Option LiveSubscription → Option LiveSubscription × SubscriptionError
with_size bytes Option.none = refused SubscriptionErrorCode.route_table_failure
with_size bytes (some s) =
    if length s.target == bytes
    then (some s, no_error)
    else refused SubscriptionErrorCode.route_table_failure

unfoldable pub create :
    Bool → PayloadVenue → List (List ℕ) → Option LiveSubscription × SubscriptionError
unfolding add_all
create has_memory venue symbols =
    let checked = validate_symbol_set (some symbols) (length symbols) in
    let size =
      checked_combined_target_size (length (production_endpoint venue).combined_target_prefix)
        symbols in
    if not (passed checked)
    then (
      Option.none,
      record {
        code = SubscriptionErrorCode.invalid_symbols;
        symbol_error = checked.error;
        first_index = checked.first_index;
        second_index = checked.second_index;
      },
    )
    else if not (is_success size)
    then refused size.error
    else if ltb max_combined_target_bytes size.bytes
    then refused SubscriptionErrorCode.target_too_large
    else if not has_memory
    then refused SubscriptionErrorCode.allocation_failure
    else with_size size.bytes (add_all symbols 0 (new_subscription venue symbols))
