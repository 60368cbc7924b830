-- ===== src/Subscription/Target.antt =====
-- src/live_subscription.cpp: the length of the target that is built is the one that was computed
-- before.
use mathlib.Core.Path.{subst}
use mathlib.Core.Option.{Option, some, none-ne-some, some-injective}
use ir_assignment.Prelude.{
  ℕ, suc, ◌+◌, ◌-◌, ◌*◌, ◌/◌, ◌||◌, ◌==◌, ltb, true_ne_false, ◌≡◌, refl, sym, ap, true, arith,
  if◌then◌else◌, if_cases, List, [], ◌∷◌, ◌++◌, length, length-append,
}
use ir_assignment.SymbolIdentity.{max_configured_symbols}
use ir_assignment.Payload.{PayloadVenue, SpotStreamKind}
use ir_assignment.Subscription.{
  LiveRoute, LiveSubscription, Lookup, lowercase_symbol, add_streams, add_symbols, checked_add,
  option_then, insert_route, with_lookup, add_route, route_of, add_kinds, add_all, suffixes,
  new_subscription, CombinedTargetSizeResult, size_of, max_size, max_derived_streams,
  streams_per_symbol, checked_combined_target_size, production_endpoint, is_success, is_first,
}

length-lowercase_symbol : (symbol : List ℕ) → length (lowercase_symbol symbol) ≡ length symbol
unfolding lowercase_symbol
length-lowercase_symbol [] = refl
length-lowercase_symbol (c ∷ symbol) = ap suc (length-lowercase_symbol symbol)

-- The bytes of the names of some streams.
abbrev names_length : List ℕ → List (List ℕ × SpotStreamKind) → ℕ
names_length symbol [] = 0
names_length symbol ((suffix, kind) ∷ kinds) =
    length symbol + length suffix + names_length symbol kinds

checked_add_lem : (a b c : ℕ) → checked_add a b ≡ some c → c ≡ a + b
checked_add_lem a b c h = ground (arith, h)

pub then_lem {ℓ κ} :
    {A : Type ℓ} {B : Type κ} (o : Option A) (f : A → Option B) (b : B)
    → option_then o f ≡ some b
    → (a : A) × (o ≡ some a) × (f a ≡ some b)
then_lem Option.none f b h = absurd (none-ne-some b h)
then_lem (some a) f b h = (a, refl, h)

add_streams_lem :
    (symbol : List ℕ) (kinds : List (List ℕ × SpotStreamKind)) (total t : ℕ)
    → add_streams symbol kinds total ≡ some t
    → t ≡ total + names_length symbol kinds
unfolding add_streams
add_streams_lem symbol [] total t h = omega (arith, some-injective total t h)
add_streams_lem symbol ((suffix, kind) ∷ kinds) total t h =
    let (a, first, rest) = then_lem (checked_add total (length symbol)) _ t h in
    let (b, second, last) =
      then_lem (checked_add a (length suffix)) (add_streams symbol kinds) t rest in
    omega (
      arith,
      checked_add_lem total (length symbol) a first,
      checked_add_lem a (length suffix) b second,
      add_streams_lem symbol kinds b t last,
    )

-- The target grows by the names and the separators between them.
abbrev Grown : LiveSubscription → LiveSubscription → ℕ → ℕ → Type 0
Grown s after names count =
    (length after.target + (length s.routes - 1)
      ≡ length s.target + (length after.routes - 1) + names)
    × (length after.routes ≡ length s.routes + count)

target_lem :
    (routes : List LiveRoute) (target name : List ℕ)
    → length ((if is_first routes then target else target ++ (b'/' ∷ [])) ++ name)
        + (length routes - 1)
      ≡ length target + length routes + length name
target_lem [] target name = omega (arith, length-append target name)
target_lem (r ∷ routes) target name =
    omega (arith, length-append (target ++ (b'/' ∷ [])) name, length-append target (b'/' ∷ []))

with_lookup-Grown :
    (s after : LiveSubscription) (route : LiveRoute) (lookup : Option Lookup)
    → with_lookup s route lookup ≡ some after
    → Grown s after (length route.stream_name) 1
with_lookup-Grown s after route Option.none h = absurd (none-ne-some after h)
with_lookup-Grown s after route (some lookup) h =
    subst (λ a. Grown s a (length route.stream_name) 1) (some-injective _ after h)
      (
        omega (
          arith,
          target_lem s.routes s.target route.stream_name,
          length-append s.routes (route ∷ []),
        ),
        length-append s.routes (route ∷ []),
      )

add_kinds-Grown :
    (symbol : List ℕ) (i : ℕ) (kinds : List (List ℕ × SpotStreamKind)) (s after : LiveSubscription)
    → add_kinds symbol i kinds s ≡ some after
    → Grown s after (names_length symbol kinds) (length kinds)
unfolding add_kinds
add_kinds-Grown symbol i [] s after h =
    subst (λ a. Grown s a 0 0) (some-injective s after h) (omega arith, omega arith)
add_kinds-Grown symbol i ((suffix, kind) ∷ kinds) s after h =
    let route = route_of symbol i (suffix, kind) in
    let (next, first, rest) = then_lem (add_route s route) (add_kinds symbol i kinds) after h in
    let (a, n) = with_lookup-Grown s next route (insert_route s.lookup route) first in
    let (b, k) = add_kinds-Grown symbol i kinds next after rest in
    let l = length-append (lowercase_symbol symbol) suffix in
    (omega (arith, a, b, n, k, l, length-lowercase_symbol symbol), omega (arith, n, k))

-- The bytes of the names of all streams.
abbrev all_names_length : List (List ℕ) → ℕ
all_names_length [] = 0
all_names_length (symbol ∷ symbols) = names_length symbol suffixes + all_names_length symbols

add_symbols_lem :
    (symbols : List (List ℕ)) (total t : ℕ)
    → add_symbols symbols total ≡ some t
    → t ≡ total + all_names_length symbols
unfolding add_symbols
add_symbols_lem [] total t h = omega (arith, some-injective total t h)
add_symbols_lem (symbol ∷ symbols) total t h =
    let (a, first, rest) = then_lem (add_streams symbol suffixes total) (add_symbols symbols) t h in
    let one = add_streams_lem symbol suffixes total a first in
    omega (arith, one, add_symbols_lem symbols a t rest)

add_all-Grown :
    (symbols : List (List ℕ)) (i : ℕ) (s after : LiveSubscription)
    → add_all symbols i s ≡ some after
    → Grown s after (all_names_length symbols) (length symbols * 3)
unfolding add_all
add_all-Grown [] i s after h =
    subst (λ a. Grown s a 0 0) (some-injective s after h) (omega arith, omega arith)
add_all-Grown (symbol ∷ symbols) i s after h =
    let (next, first, rest) =
      then_lem (add_kinds symbol i suffixes s) (add_all symbols (suc i)) after h in
    let (a, n) = add_kinds-Grown symbol i suffixes s next first in
    let (b, k) = add_all-Grown symbols (suc i) next after rest in
    (omega (arith, a, b, n, k), omega (arith, n, k))

-- A result that gives the length of the target.
abbrev IsSize : ℕ → List (List ℕ) → CombinedTargetSizeResult → Type 0
IsSize prefix symbols r =
    is_success r ≡ true → r.bytes ≡ prefix + all_names_length symbols + (length symbols * 3 - 1)

size_of_lem : (o : Option ℕ) → is_success (size_of o) ≡ true → o ≡ some (size_of o).bytes
size_of_lem Option.none h = absurd (true_ne_false (sym h))
size_of_lem (some n) h = refl

summed-IsSize :
    (prefix : ℕ) (symbols : List (List ℕ))
    → IsSize prefix symbols (
        size_of (
          option_then
            (add_symbols symbols prefix)
            (λ total. checked_add total (length symbols * streams_per_symbol - 1))))
summed-IsSize prefix symbols h =
    let add : ℕ → Option ℕ = λ total. checked_add total (length symbols * streams_per_symbol - 1) in
    let o = option_then (add_symbols symbols prefix) add in
    let (total, first, rest) =
      then_lem (add_symbols symbols prefix) add (size_of o).bytes (size_of_lem o h) in
    omega (
      arith,
      add_symbols_lem symbols prefix total first,
      checked_add_lem total (length symbols * streams_per_symbol - 1) (size_of o).bytes rest,
    )

checked-IsSize :
    (prefix : ℕ) (symbols : List (List ℕ))
    → IsSize prefix symbols (checked_combined_target_size prefix symbols)
unfolding checked_combined_target_size
checked-IsSize prefix symbols =
    if_cases (IsSize prefix symbols)
      (length symbols == 0 || ltb max_configured_symbols (length symbols))
      (λ _ h. absurd (true_ne_false (sym h)))
      (λ _.
        if_cases (IsSize prefix symbols) (ltb (max_size / streams_per_symbol) (length symbols))
          (λ _ h. absurd (true_ne_false (sym h)))
          (λ _.
            if_cases (IsSize prefix symbols)
              (ltb max_derived_streams (length symbols * streams_per_symbol))
              (λ _ h. absurd (true_ne_false (sym h))) (λ _. summed-IsSize prefix symbols)))

-- The length that is computed before the target is built is the length of the target that is built,
-- with the names of three streams for each symbol and the separators between them, if both succeed.
pub length-target :
    (venue : PayloadVenue) (symbols : List (List ℕ)) (s : LiveSubscription)
    → is_success (
        checked_combined_target_size
          (length (production_endpoint venue).combined_target_prefix)
          symbols)
      ≡ true
    → add_all symbols 0 (new_subscription venue symbols) ≡ some s
    → length s.target
      ≡ (checked_combined_target_size
          (length (production_endpoint venue).combined_target_prefix)
          symbols).bytes
length-target venue symbols s h e =
    let prefix = length (production_endpoint venue).combined_target_prefix in
    let size = checked-IsSize prefix symbols h in
    let (grown, count) = add_all-Grown symbols 0 (new_subscription venue symbols) s e in
    omega (arith, size, grown, count)
