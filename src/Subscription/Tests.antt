-- ===== src/Subscription/Tests.antt =====
-- Runs of `LiveSubscription::create`, as in tests/unit_tests.cpp, and the theorems at an input.
use mathlib.Core.Option.{Option, some}
use ir_assignment.Prelude.{ℕ, ◌≡◌, refl, true, List, [], ◌∷◌, length}
use ir_assignment.Payload.{spot, depth5}
use ir_assignment.SymbolIdentity.{validate_symbol_set, derive_instrument_id, bytes_equal}
use ir_assignment.Subscription.{
  LiveSubscription, LiveRoute, RouteLookupError, create, add_all, new_subscription, insert_route,
  find_route, hash_stream, lowercase_symbol, checked_combined_target_size, production_endpoint,
  is_success, route_of,
}
use ir_assignment.Subscription.Texts.{depth5_suffix}
use ir_assignment.Subscription.Target.{length-target}
use ir_assignment.Subscription.Routes.{IsRouted, create-IsRouted, find_route_name}

abbrev two_symbols : List (List ℕ)
two_symbols = (b'B' ∷ b'T' ∷ b'C' ∷ []) ∷ (b'E' ∷ b'T' ∷ b'H' ∷ []) ∷ []

abbrev or_new : Option LiveSubscription → LiveSubscription
or_new Option.none = new_subscription spot two_symbols
or_new (some s) = s

abbrev built : LiveSubscription
built = or_new (add_all two_symbols 0 (new_subscription spot two_symbols))

abbrev depth5_route : LiveRoute
depth5_route = route_of (b'B' ∷ b'T' ∷ b'C' ∷ []) 0 (depth5_suffix, depth5)

created_run : (create true spot two_symbols).0 ≡ some built
unfolding create add_all validate_symbol_set derive_instrument_id bytes_equal
    checked_combined_target_size insert_route hash_stream lowercase_symbol
created_run = refl

built_run : add_all two_symbols 0 (new_subscription spot two_symbols) ≡ some built
unfolding add_all insert_route hash_stream lowercase_symbol
built_run = refl

size_run :
    is_success (
      checked_combined_target_size
        (length (production_endpoint spot).combined_target_prefix)
        two_symbols)
    ≡ true
unfolding checked_combined_target_size
size_run = refl

found_run : (find_route built depth5_route.stream_name).route ≡ some depth5_route
unfolding find_route lowercase_symbol add_all insert_route hash_stream bytes_equal
found_run = refl

unknown_run : (find_route built (b'x' ∷ [])).error ≡ RouteLookupError.unknown_stream
unfolding find_route add_all insert_route hash_stream lowercase_symbol
unknown_run = refl

length-target_example :
    length built.target
    ≡ (checked_combined_target_size
        (length (production_endpoint spot).combined_target_prefix)
        two_symbols).bytes
length-target_example = length-target spot two_symbols built size_run built_run

create-IsRouted_example : IsRouted two_symbols built
create-IsRouted_example = create-IsRouted true spot two_symbols built created_run

find_route_name_example :
    depth5_route.stream_name
    ≡ (route_of (b'B' ∷ b'T' ∷ b'C' ∷ []) 0 (depth5_suffix, depth5)).stream_name
find_route_name_example = find_route_name built depth5_route.stream_name depth5_route found_run
