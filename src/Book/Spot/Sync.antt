-- ===== src/Book/Spot/Sync.antt =====
-- src/spot_book.cpp: `SpotBookState` over a run of events keeps its book and misses no update.
use native.Mathlib.Decide.{dec_le}
use ir_assignment.Prelude.{
  ℕ, ◌+◌, ◌≤◌, ◌<◌, ◌≡◌, ◌≢◌, ◌⊎◌, refl, true, false, inl, inr, List, [], ◌∷◌, arith, All, if_cases,
  leb, not,
}
use ir_assignment.Payload.{SpotDepthEvent}
use ir_assignment.Book.Core.{
  Core, BookApplyStatus, BookApplyResult, applied_refresh, applied_diff, stale_refresh, stale_diff,
  ignored_while_invalid, sequence_gap, crossed_book,
}
use ir_assignment.Book.Core
use ir_assignment.Book.Core.Events.{IsRefresh, IsDiff}
use ir_assignment.Book.Core.Keeps
use ir_assignment.Book.Core.Keeps.{IsBook, initial-IsBook, invalidate-IsBook}
use ir_assignment.Book.Spot.{SpotBookState, initial, invalidate, apply_refresh, apply_diff}

-- What a session hands the book, in order.
pub data SpotStep : Type 0 where
  refresh diff : SpotDepthEvent → SpotStep
  teardown : SpotStep

-- What the parser checks of an event.
abbrev pub IsParsed : SpotStep → Type 0
IsParsed (refresh e) = IsRefresh e
IsParsed (diff e) = IsDiff e
IsParsed teardown = Unit

pub apply_refresh-IsBook :
    (s : SpotBookState) (e : SpotDepthEvent)
    → IsBook s.book
    → IsRefresh e
    → IsBook (apply_refresh s e).0.book
unfolding apply_refresh
apply_refresh-IsBook s e b r = Keeps.apply_refresh-IsBook s.book e b r

pub apply_diff-IsBook :
    (s : SpotBookState) (e : SpotDepthEvent)
    → IsBook s.book
    → IsDiff e
    → IsBook (apply_diff s e).0.book
unfolding apply_diff
apply_diff-IsBook s e b d =
    let Kept = λ (x : SpotBookState × BookApplyResult). IsBook x.0.book in
    if_cases Kept (not s.book.valid) (λ _. b)
      λ _.
        if_cases Kept (leb e.final_update_id s.book.last_update_id) (λ _. b)
          λ _.
            if_cases Kept _ (λ _. invalidate-IsBook b)
              λ _. Keeps.apply_accepted_diff-IsBook s.book e b d

-- A diff is applied, or changes nothing, or leaves the book invalid.
abbrev DiffCases : SpotBookState → SpotDepthEvent → SpotBookState × BookApplyResult → Type 0
DiffCases s e (s', r) =
    ((r.status ≡ applied_diff)
      × (s.book.valid ≡ true)
      × (s'.book.valid ≡ true)
      × (s.book.last_update_id < e.final_update_id)
      × (e.first_update_id ≤ s.book.last_update_id + 1)
      × (s'.book.last_update_id ≡ e.final_update_id))
    ⊎ ((r.status ≢ applied_diff) × ((s' ≡ s) ⊎ (s'.book.valid ≡ false)))

apply_diff-DiffCases : (s : SpotBookState) (e : SpotDepthEvent) → DiffCases s e (apply_diff s e)
unfolding apply_diff Core.apply_accepted_diff
apply_diff-DiffCases s e = ground arith

-- A refresh is applied, or changes nothing.
apply_refresh-cases :
    (s : SpotBookState) (e : SpotDepthEvent)
    → (((apply_refresh s e).1.status ≡ applied_refresh)
        × ((apply_refresh s e).0.book.last_update_id ≡ e.final_update_id))
      ⊎ (((apply_refresh s e).1.status ≡ stale_refresh) × ((apply_refresh s e).0 ≡ s))
unfolding apply_refresh Core.apply_refresh
apply_refresh-cases s e = ground arith

-- The last refresh that was applied, and the diffs applied since, newest first.
pub record History : Type 0 where
  pub base : ℕ
  pub diffs : List SpotDepthEvent

abbrev refreshed : History → SpotDepthEvent → BookApplyStatus → History
refreshed h e applied_refresh = record { base = e.final_update_id; diffs = [] }
refreshed h e _ = h

abbrev extended : History → SpotDepthEvent → BookApplyStatus → History
extended h e applied_diff = record h { diffs = e ∷ h.diffs }
extended h e _ = h

extended-same :
    (h : History) (e : SpotDepthEvent) (status : BookApplyStatus)
    → status ≢ applied_diff
    → extended h e status ≡ h
extended-same h e applied_diff n = absurd (n refl)
extended-same h e _ n = refl

-- One event, with the history that its result makes.
abbrev pub step : SpotBookState × History → SpotStep → SpotBookState × History
step (s, h) (refresh e) = let (s', r) = apply_refresh s e in (s', refreshed h e r.status)
step (s, h) (diff e) = let (s', r) = apply_diff s e in (s', extended h e r.status)
step (s, h) teardown = (invalidate s, h)

abbrev pub run : SpotBookState × History → List SpotStep → SpotBookState × History
run sh [] = sh
run sh (x ∷ xs) = run (step sh x) xs

abbrev pub start : SpotBookState × History
start = (initial, record { base = 0; diffs = [] })

-- Some diff spans the update id.
abbrev pub Covers : List SpotDepthEvent → ℕ → Type 0
Covers [] u = ⊥
Covers (e ∷ es) u = ((e.first_update_id ≤ u) × (u ≤ e.final_update_id)) ⊎ Covers es u

-- While the book is valid, its diffs span every update id behind the refresh.
abbrev pub IsContinuous : SpotBookState × History → Type 0
IsContinuous (s, h) =
    s.book.valid ≡ true → (u : ℕ) → h.base < u → u ≤ s.book.last_update_id → Covers h.diffs u

step-IsContinuous :
    (sh : SpotBookState × History) (x : SpotStep) → IsContinuous sh → IsContinuous (step sh x)
step-IsContinuous (s, h) (refresh e) c = elim (apply_refresh-cases s e) [
  | inl (applied, last) ↦ rw applied (λ v u low high. absurd (omega (arith, last)))
  | inr (stale, same) ↦ rw (stale, same) c
]
step-IsContinuous (s, h) (diff e) c = elim (apply_diff-DiffCases s e) [
  | inl (applied, valid, _, newer, follows, last) ↦ rw applied (λ v u low high.
      elim (dec_le u s.book.last_update_id) [
        | yes old ↦ inr (c valid u low old)
        | no new ↦ inl (omega arith, omega (arith, last))
      ])
  | inr (refused, inl same) ↦ rw (extended-same h e _ refused, same) c
  | inr (refused, inr dead) ↦ λ v. cc
]
step-IsContinuous (s, h) teardown c = λ v. cc

run-IsContinuous :
    (sh : SpotBookState × History) (xs : List SpotStep) → IsContinuous sh → IsContinuous (run sh xs)
run-IsContinuous sh [] c = c
run-IsContinuous sh (x ∷ xs) c = run-IsContinuous (step sh x) xs (step-IsContinuous sh x c)

-- After any sequence of refreshes, diffs and teardowns on a fresh Spot book: if the book is valid,
-- each update id from the last applied refresh up to `last_update_id` lies in a diff applied since.
pub run_misses_nothing :
    (xs : List SpotStep) (u : ℕ)
    → (run start xs).0.book.valid ≡ true
    → (run start xs).1.base < u
    → u ≤ (run start xs).0.book.last_update_id
    → Covers (run start xs).1.diffs u
run_misses_nothing xs u v = run-IsContinuous start xs (λ e. cc) v u

step-IsBook :
    (sh : SpotBookState × History) (x : SpotStep)
    → IsBook sh.0.book
    → IsParsed x
    → IsBook (step sh x).0.book
step-IsBook (s, h) (refresh e) b p = apply_refresh-IsBook s e b p
step-IsBook (s, h) (diff e) b p = apply_diff-IsBook s e b p
step-IsBook (s, h) teardown b p = invalidate-IsBook b

run-IsBook-from :
    (sh : SpotBookState × History) (xs : List SpotStep)
    → IsBook sh.0.book
    → All IsParsed xs
    → IsBook (run sh xs).0.book
run-IsBook-from sh [] b p = b
run-IsBook-from sh (x ∷ xs) b (p, ps) = run-IsBook-from (step sh x) xs (step-IsBook sh x b p) ps

-- After any sequence of parsed events both sides of a Spot book hold at most five levels, positive
-- and best first, and a valid book is not crossed.
pub spot_run-IsBook : (xs : List SpotStep) → All IsParsed xs → IsBook (run start xs).0.book
spot_run-IsBook xs p = run-IsBook-from start xs initial-IsBook p
