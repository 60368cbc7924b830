-- ===== src/Subscription/Routes.antt =====
-- src/live_subscription.cpp: a subscription finds each of its routes by the name of the stream, and no
-- other.
use mathlib.Core.Path.{subst}
use mathlib.Core.Option.{Option, some, none-ne-some, some-injective}
use ir_assignment.Prelude.{
  ℕ, suc, ◌≤◌, ◌==◌, Bool-cases, inl, inr, not, ◌≡◌, refl, sym, ap, ◌∙◌, Bool, arith, if◌then◌else◌,
  if_cases, ltb, List, [], ◌∷◌, ◌++◌, All, length, map,
}
use ir_assignment.Payload.{PayloadVenue, SpotStreamKind}
use ir_assignment.SymbolIdentity.{passed, validate_symbol_set}
use ir_assignment.SymbolIdentity.Ids.{bytes_equal_iff}
use ir_assignment.Subscription.{
  LiveRoute, LiveSubscription, Lookup, insert_route, with_lookup, add_route, route_of, add_kinds,
  add_all, suffixes, new_subscription, find_route, found, home, create, with_size,
  lookup_slot_count, max_combined_target_bytes, production_endpoint, checked_combined_target_size,
  RouteLookupResult, is_success, SubscriptionError, max_envelope_stream_name_bytes,
  RouteLookupError,
}
use ir_assignment.Subscription.Lookup.{
  IsFound, insert_route-IsFound, insert_route_keeps-IsFound, find_from_name,
}
use ir_assignment.Subscription.Target.{then_lem}

abbrev Finds : Lookup → List LiveRoute → Type 0
Finds lookup = All (IsFound lookup)

kept-Finds :
    (lookup after : Lookup) (route : LiveRoute) (routes : List LiveRoute)
    → insert_route lookup route ≡ some after
    → Finds lookup routes
    → Finds after (routes ++ (route ∷ []))
kept-Finds lookup after route [] h k = (insert_route-IsFound lookup after route h, tt)
kept-Finds lookup after route (r ∷ routes) h (k, ks) =
    (insert_route_keeps-IsFound lookup after route r h k, kept-Finds lookup after route routes h ks)

add_route-Finds :
    (s after : LiveSubscription) (route : LiveRoute) (o : Option Lookup)
    → insert_route s.lookup route ≡ o
    → with_lookup s route o ≡ some after
    → Finds s.lookup s.routes
    → Finds after.lookup after.routes
add_route-Finds s after route Option.none e h k = absurd (none-ne-some after h)
add_route-Finds s after route (some lookup) e h k =
    subst (λ (a : LiveSubscription). Finds a.lookup a.routes) (some-injective _ after h)
      (kept-Finds s.lookup lookup route s.routes e k)

add_kinds-Finds :
    (symbol : List ℕ) (i : ℕ) (kinds : List (List ℕ × SpotStreamKind)) (s after : LiveSubscription)
    → add_kinds symbol i kinds s ≡ some after
    → Finds s.lookup s.routes
    → Finds after.lookup after.routes
unfolding add_kinds
add_kinds-Finds symbol i [] s after h k =
    subst (λ (a : LiveSubscription). Finds a.lookup a.routes) (some-injective s after h) k
add_kinds-Finds symbol i (kind ∷ kinds) s after h k =
    let route = route_of symbol i kind in
    let (next, first, rest) = then_lem (add_route s route) (add_kinds symbol i kinds) after h in
    add_kinds-Finds symbol i kinds next after rest
      (add_route-Finds s next route (insert_route s.lookup route) refl first k)

add_all-Finds :
    (symbols : List (List ℕ)) (i : ℕ) (s after : LiveSubscription)
    → add_all symbols i s ≡ some after
    → Finds s.lookup s.routes
    → Finds after.lookup after.routes
unfolding add_all
add_all-Finds [] i s after h k =
    subst (λ (a : LiveSubscription). Finds a.lookup a.routes) (some-injective s after h) k
add_all-Finds (symbol ∷ symbols) i s after h k =
    let (next, first, rest) =
      then_lem (add_kinds symbol i suffixes s) (add_all symbols (suc i)) after h in
    add_all-Finds symbols (suc i) next after rest (add_kinds-Finds symbol i suffixes s next first k)

-- The routes of a list of symbols: three for each, in order.
abbrev pub routes_from : List (List ℕ) → ℕ → List LiveRoute
routes_from [] i = []
routes_from (symbol ∷ symbols) i = map (route_of symbol i) suffixes ++ routes_from symbols (suc i)

append_routes_lem : (xs ys zs : List LiveRoute) → (xs ++ ys) ++ zs ≡ xs ++ (ys ++ zs)
append_routes_lem [] ys zs = refl
append_routes_lem (x ∷ xs) ys zs = ap (λ t. x ∷ t) (append_routes_lem xs ys zs)

no_more_routes_lem : (xs : List LiveRoute) → xs ++ [] ≡ xs
no_more_routes_lem [] = refl
no_more_routes_lem (x ∷ xs) = ap (λ t. x ∷ t) (no_more_routes_lem xs)

with_lookup_routes :
    (s after : LiveSubscription) (route : LiveRoute) (o : Option Lookup)
    → with_lookup s route o ≡ some after
    → after.routes ≡ s.routes ++ (route ∷ [])
with_lookup_routes s after route Option.none h = absurd (none-ne-some after h)
with_lookup_routes s after route (some lookup) h =
    ap (λ (a : LiveSubscription). a.routes) (sym (some-injective _ after h))

add_kinds_routes :
    (symbol : List ℕ) (i : ℕ) (kinds : List (List ℕ × SpotStreamKind)) (s after : LiveSubscription)
    → add_kinds symbol i kinds s ≡ some after
    → after.routes ≡ s.routes ++ map (route_of symbol i) kinds
unfolding add_kinds
add_kinds_routes symbol i [] s after h =
    ap (λ (a : LiveSubscription). a.routes) (sym (some-injective s after h))
    ∙ sym (no_more_routes_lem s.routes)
add_kinds_routes symbol i (kind ∷ kinds) s after h =
    let route = route_of symbol i kind in
    let (next, first, rest) = then_lem (add_route s route) (add_kinds symbol i kinds) after h in
    add_kinds_routes symbol i kinds next after rest
    ∙ ap (λ t. t ++ map (route_of symbol i) kinds)
        (with_lookup_routes s next route (insert_route s.lookup route) first)
    ∙ append_routes_lem s.routes (route ∷ []) (map (route_of symbol i) kinds)

add_all_routes :
    (symbols : List (List ℕ)) (i : ℕ) (s after : LiveSubscription)
    → add_all symbols i s ≡ some after
    → after.routes ≡ s.routes ++ routes_from symbols i
unfolding add_all
add_all_routes [] i s after h =
    ap (λ (a : LiveSubscription). a.routes) (sym (some-injective s after h))
    ∙ sym (no_more_routes_lem s.routes)
add_all_routes (symbol ∷ symbols) i s after h =
    let (next, first, rest) =
      then_lem (add_kinds symbol i suffixes s) (add_all symbols (suc i)) after h in
    add_all_routes symbols (suc i) next after rest
    ∙ ap (λ t. t ++ routes_from symbols (suc i)) (add_kinds_routes symbol i suffixes s next first)
    ∙ append_routes_lem s.routes (map (route_of symbol i) suffixes) (routes_from symbols (suc i))

-- What looking up the name of a route answers.
abbrev IsReached : LiveSubscription → LiveRoute → Type 0
IsReached s r = find_route s r.stream_name ≡ (
    if ltb max_envelope_stream_name_bytes (length r.stream_name)
    then record { route = Option.none; error = RouteLookupError.stream_name_too_long }
    else found (some r))

found-IsReached :
    (s : LiveSubscription) (routes : List LiveRoute)
    → Finds s.lookup routes
    → All (IsReached s) routes
unfolding find_route
found-IsReached s [] k = tt
found-IsReached s (r ∷ routes) (k, ks) = (rw k refl, found-IsReached s routes ks)

-- A subscription has the routes of its symbols, finds each of them, and its target is not too long.
pub record IsRouted (symbols : List (List ℕ)) (s : LiveSubscription) : Type 0 where
  pub routed : s.routes ≡ routes_from symbols 0
  pub reached : All (IsReached s) s.routes
  pub short : length s.target ≤ max_combined_target_bytes

-- What it is built from.
abbrev IsBuilt : ℕ → Option LiveSubscription → LiveSubscription → Type 0
IsBuilt bytes o s = (o ≡ some s) × (length s.target ≡ bytes)

with_size-IsBuilt :
    (bytes : ℕ) (o : Option LiveSubscription) (s : LiveSubscription)
    → (with_size bytes o).0 ≡ some s
    → IsBuilt bytes o s
with_size-IsBuilt bytes Option.none s h = absurd (none-ne-some s h)
with_size-IsBuilt bytes (some t) s h = elim (Bool-cases (length t.target == bytes)) [
  | inl same ↦
      let e : some t ≡ some s = rw same at h in
      (
        e,
        subst (λ (a : LiveSubscription). length a.target ≡ bytes) (some-injective t s e)
            (ground (arith, same)),
      )
  | inr differs ↦ absurd (none-ne-some s (rw differs at h))
]

abbrev size_for : PayloadVenue → List (List ℕ) → ℕ
size_for venue symbols =
    (checked_combined_target_size (length (production_endpoint venue).combined_target_prefix)
      symbols).bytes

create_lem :
    (has_memory : Bool) (venue : PayloadVenue) (symbols : List (List ℕ)) (s : LiveSubscription)
    → (create has_memory venue symbols).0 ≡ some s
    → (size_for venue symbols ≤ max_combined_target_bytes)
      × IsBuilt (size_for venue symbols) (add_all symbols 0 (new_subscription venue symbols)) s
unfolding create
create_lem has_memory venue symbols s =
    let Built : Option LiveSubscription × SubscriptionError → Type 0 = λ out.
      out.0 ≡ some s
      → (size_for venue symbols ≤ max_combined_target_bytes)
        × IsBuilt (size_for venue symbols) (add_all symbols 0 (new_subscription venue symbols)) s in
    if_cases Built (not (passed (validate_symbol_set (some symbols) (length symbols))))
      (λ _ h. absurd (none-ne-some s h))
      (λ _.
        if_cases Built
          (not (
            is_success (
              checked_combined_target_size
                (length (production_endpoint venue).combined_target_prefix) symbols)))
          (λ _ h. absurd (none-ne-some s h))
          (λ _.
            if_cases Built (ltb max_combined_target_bytes (size_for venue symbols))
              (λ _ h. absurd (none-ne-some s h))
              (λ fits.
                if_cases Built (not has_memory) (λ _ h. absurd (none-ne-some s h))
                  (λ _ h. (
                    ground (arith, fits),
                    with_size-IsBuilt (size_for venue symbols)
                        (add_all symbols 0 (new_subscription venue symbols)) s h,
                  )))))

-- A subscription that `create` returns has three routes for each symbol, in order, with the name of
-- the stream, the kind and the index of the symbol. It finds each of its routes by its name, unless
-- the name is longer than 128 bytes, which is refused as too long. Its target is at most 8192 bytes
-- long.
pub create-IsRouted :
    (has_memory : Bool) (venue : PayloadVenue) (symbols : List (List ℕ)) (s : LiveSubscription)
    → (create has_memory venue symbols).0 ≡ some s
    → IsRouted symbols s
create-IsRouted has_memory venue symbols s h =
    let (fits, (built, same)) = create_lem has_memory venue symbols s h in
    record {
      routed = add_all_routes symbols 0 (new_subscription venue symbols) s built;
      reached =
          found-IsReached s s.routes
            (add_all-Finds symbols 0 (new_subscription venue symbols) s built tt);
      short = omega (arith, fits, same);
    }

found_lem : (o : Option LiveRoute) (r : LiveRoute) → (found o).route ≡ some r → o ≡ some r
found_lem Option.none r h = h
found_lem (some x) r h = h

-- The route that is found for a name has that name.
pub find_route_name :
    (s : LiveSubscription) (name : List ℕ) (r : LiveRoute)
    → (find_route s name).route ≡ some r
    → r.stream_name ≡ name
unfolding find_route
find_route_name s name r =
    let Names : RouteLookupResult → Type 0 = λ out. out.route ≡ some r → r.stream_name ≡ name in
    if_cases Names (ltb max_envelope_stream_name_bytes (length name))
      (λ _ h. absurd (none-ne-some r h))
      (λ _ h.
        (bytes_equal_iff r.stream_name name).0
          (find_from_name lookup_slot_count s.lookup name (home name) r (found_lem _ r h)))
