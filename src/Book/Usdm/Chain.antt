-- ===== src/Book/Usdm/Chain.antt =====
-- src/spot_book.cpp: `UsdMBookState` over a run of events keeps its book, and its applied diffs follow
-- one another.
use mathlib.Core.Bool.{false≢true}
use ir_assignment.Prelude.{
  ℕ, ◌+◌, ◌≤◌, ◌<◌, ◌≡◌, ◌≢◌, ◌⊎◌, refl, sym, ◌∙◌, true, false, inl, inr, List, [], ◌∷◌, arith, All,
}
use ir_assignment.Payload.{SpotDepthEvent}
use ir_assignment.Book.Core.{
  Core, BookApplyStatus, BookApplyResult, applied_refresh, applied_diff, stale_refresh, stale_diff,
  ignored_while_invalid, sequence_gap, crossed_book,
}
use ir_assignment.Book.Core
use ir_assignment.Book.Core.Events.{IsRefresh, IsDiff}
use ir_assignment.Book.Core.Keeps
use ir_assignment.Book.Core.Keeps.{IsBook, initial-IsBook, invalidate-IsBook}
use ir_assignment.Book.Usdm.{
  UsdmBookState, initial, invalidate, apply_refresh, apply_diff, accept_diff, after_refresh,
  after_diff,
}

pub data UsdmStep : Type 0 where
  refresh diff : SpotDepthEvent → UsdmStep
  teardown : UsdmStep

abbrev pub IsParsed : UsdmStep → Type 0
IsParsed (refresh e) = IsRefresh e
IsParsed (diff e) = IsDiff e
IsParsed teardown = Unit

-- A diff is applied behind the one that it names, or as the first behind a refresh; or it changes
-- nothing; or the book is left invalid and the chain is dropped.
abbrev DiffCases : UsdmBookState → SpotDepthEvent → UsdmBookState × BookApplyResult → Type 0
DiffCases s e (s', r) =
    ((r.status ≡ applied_diff)
      × (s.book.valid ≡ true)
      × (s'.book.valid ≡ true)
      × (s.book.last_update_id < e.final_update_id)
      × (((s.diff_chain_established ≡ true) × (e.previous_update_id ≡ s.previous_diff_update_id))
          ⊎ ((s.diff_chain_established ≡ false) × (e.first_update_id ≤ s.book.last_update_id + 1)))
      × (s'.diff_chain_established ≡ true)
      × (s'.previous_diff_update_id ≡ e.final_update_id)
      × (s'.book.last_update_id ≡ e.final_update_id))
    ⊎ ((r.status ≢ applied_diff)
        × ((s' ≡ s) ⊎ ((s'.book.valid ≡ false) × (s'.diff_chain_established ≡ false))))

apply_diff-DiffCases : (s : UsdmBookState) (e : SpotDepthEvent) → DiffCases s e (apply_diff s e)
unfolding apply_diff Core.apply_accepted_diff
apply_diff-DiffCases s e = ground arith

apply_refresh-cases :
    (s : UsdmBookState) (e : SpotDepthEvent)
    → (((apply_refresh s e).1.status ≡ applied_refresh)
        × ((apply_refresh s e).0.book.last_update_id ≡ e.final_update_id)
        × ((apply_refresh s e).0.diff_chain_established ≡ false))
      ⊎ (((apply_refresh s e).1.status ≡ stale_refresh) × ((apply_refresh s e).0 ≡ s))
unfolding apply_refresh Core.apply_refresh
apply_refresh-cases s e = ground arith

-- The last refresh that was applied, and the diffs applied since, newest first.
pub record History : Type 0 where
  pub base : ℕ
  pub diffs : List SpotDepthEvent

abbrev refreshed : History → SpotDepthEvent → BookApplyStatus → History
refreshed h e applied_refresh = record { base = e.final_update_id; diffs = [] }
refreshed h e _ = h

abbrev extended : History → SpotDepthEvent → BookApplyStatus → History
extended h e applied_diff = record h { diffs = e ∷ h.diffs }
extended h e _ = h

extended-same :
    (h : History) (e : SpotDepthEvent) (status : BookApplyStatus)
    → status ≢ applied_diff
    → extended h e status ≡ h
extended-same h e applied_diff n = absurd (n refl)
extended-same h e _ n = refl

-- One event, with the history that its result makes.
abbrev pub step : UsdmBookState × History → UsdmStep → UsdmBookState × History
step (s, h) (refresh e) = let (s', r) = apply_refresh s e in (s', refreshed h e r.status)
step (s, h) (diff e) = let (s', r) = apply_diff s e in (s', extended h e r.status)
step (s, h) teardown = (invalidate s, h)

abbrev pub run : UsdmBookState × History → List UsdmStep → UsdmBookState × History
run sh [] = sh
run sh (x ∷ xs) = run (step sh x) xs

abbrev pub start : UsdmBookState × History
start = (initial, record { base = 0; diffs = [] })

-- The update id that a refresh and the diffs behind it reach.
abbrev pub newest : ℕ → List SpotDepthEvent → ℕ
newest base [] = base
newest base (e ∷ es) = e.final_update_id

-- The first diff continues the refresh, and each later one names the final id of the one before it.
abbrev pub IsLinked : ℕ → List SpotDepthEvent → Type 0
IsLinked base [] = Unit
IsLinked base (e ∷ []) = (e.first_update_id ≤ base + 1) × (base < e.final_update_id)
IsLinked base (e ∷ f ∷ es) =
    (e.previous_update_id ≡ f.final_update_id)
    × (f.final_update_id < e.final_update_id)
    × IsLinked base (f ∷ es)

-- The chain's fields belong to the newest diff.
abbrev IsChained : UsdmBookState → List SpotDepthEvent → Type 0
IsChained s [] = s.diff_chain_established ≡ false
IsChained s (e ∷ es) =
    (s.diff_chain_established ≡ true) × (s.previous_diff_update_id ≡ e.final_update_id)

abbrev IsTracked : UsdmBookState × History → Type 0
IsTracked (s, h) =
    s.book.valid ≡ true
    → IsLinked h.base h.diffs
      × (s.book.last_update_id ≡ newest h.base h.diffs)
      × IsChained s h.diffs

link :
    (s : UsdmBookState) (base : ℕ) (diffs : List SpotDepthEvent) (e : SpotDepthEvent)
    → IsLinked base diffs
    → s.book.last_update_id ≡ newest base diffs
    → IsChained s diffs
    → s.book.last_update_id < e.final_update_id
    → ((s.diff_chain_established ≡ true) × (e.previous_update_id ≡ s.previous_diff_update_id))
      ⊎ ((s.diff_chain_established ≡ false) × (e.first_update_id ≤ s.book.last_update_id + 1))
    → IsLinked base (e ∷ diffs)
link s base [] e l n c newer follows = ground arith
link s base (f ∷ es) e l n c newer (inl (_, named)) = (named ∙ c.1, omega arith, l)
link s base (f ∷ es) e l n c newer (inr (unchained, _)) = absurd (false≢true (sym unchained ∙ c.0))

step-IsTracked :
    (sh : UsdmBookState × History) (x : UsdmStep) → IsTracked sh → IsTracked (step sh x)
step-IsTracked (s, h) (refresh e) t = elim (apply_refresh-cases s e) [
  | inl (applied, last, dropped) ↦ rw applied (λ v. (tt, last, dropped))
  | inr (stale, same) ↦ rw (stale, same) t
]
step-IsTracked (s, h) (diff e) t = elim (apply_diff-DiffCases s e) [
  | inl (applied, valid, _, newer, follows, chained, prev, last) ↦
      let (l, n, c) = t valid in
      rw applied (λ v. (link s h.base h.diffs e l n c newer follows, last, (chained, prev)))
  | inr (refused, inl same) ↦ rw (extended-same h e _ refused, same) t
  | inr (refused, inr (dead, _)) ↦ λ v. absurd (false≢true (sym dead ∙ v))
]
step-IsTracked (s, h) teardown t = λ v. cc

run-IsTracked :
    (sh : UsdmBookState × History) (xs : List UsdmStep) → IsTracked sh → IsTracked (run sh xs)
run-IsTracked sh [] t = t
run-IsTracked sh (x ∷ xs) t = run-IsTracked (step sh x) xs (step-IsTracked sh x t)

-- After any sequence of refreshes, diffs and teardowns on a fresh USD-M book: if the book is valid,
-- the diffs applied since the last applied refresh are linked to it and to one another, and
-- `last_update_id` is the final id of the newest of them, or of the refresh.
pub run-IsLinked :
    (xs : List UsdmStep)
    → (run start xs).0.book.valid ≡ true
    → IsLinked (run start xs).1.base (run start xs).1.diffs
      × ((run start xs).0.book.last_update_id ≡ newest (run start xs).1.base (run start xs).1.diffs)
run-IsLinked xs v = let (l, n, _) = run-IsTracked start xs (λ e. cc) v in (l, n)

after_refresh-book :
    (s : UsdmBookState) (book : Core) (status : BookApplyStatus)
    → (after_refresh s book status).book ≡ book
after_refresh-book s book applied_refresh = refl
after_refresh-book s book _ = refl

after_diff-book :
    (s : UsdmBookState) (final : ℕ) (book : Core) (status : BookApplyStatus)
    → (after_diff s final book status).book ≡ book
after_diff-book s final book applied_diff = refl
after_diff-book s final book crossed_book = refl
after_diff-book s final book _ = refl

pub apply_refresh-IsBook :
    (s : UsdmBookState) (e : SpotDepthEvent)
    → IsBook s.book
    → IsRefresh e
    → IsBook (apply_refresh s e).0.book
unfolding apply_refresh
apply_refresh-IsBook s e b r =
    rw (after_refresh-book s _ _) (Keeps.apply_refresh-IsBook s.book e b r)

accept_diff-IsBook :
    (s : UsdmBookState) (e : SpotDepthEvent)
    → IsBook s.book
    → IsDiff e
    → IsBook (accept_diff s e).0.book
accept_diff-IsBook s e b d =
    rw (after_diff-book s e.final_update_id _ _) (Keeps.apply_accepted_diff-IsBook s.book e b d)

-- Where the book comes from that a diff leaves.
apply_diff-sources :
    (s : UsdmBookState) (e : SpotDepthEvent)
    → ((apply_diff s e).0 ≡ s)
      ⊎ ((apply_diff s e).0.book ≡ Core.invalidate s.book)
      ⊎ (apply_diff s e ≡ accept_diff s e)
unfolding apply_diff
apply_diff-sources s e = ground arith

pub apply_diff-IsBook :
    (s : UsdmBookState) (e : SpotDepthEvent)
    → IsBook s.book
    → IsDiff e
    → IsBook (apply_diff s e).0.book
apply_diff-IsBook s e b d = elim (apply_diff-sources s e) [
  | inl same ↦ rw same b
  | inr (inl dead) ↦ rw dead (invalidate-IsBook b)
  | inr (inr accepted) ↦ rw accepted (accept_diff-IsBook s e b d)
]

step-IsBook :
    (sh : UsdmBookState × History) (x : UsdmStep)
    → IsBook sh.0.book
    → IsParsed x
    → IsBook (step sh x).0.book
step-IsBook (s, h) (refresh e) b p = apply_refresh-IsBook s e b p
step-IsBook (s, h) (diff e) b p = apply_diff-IsBook s e b p
step-IsBook (s, h) teardown b p = invalidate-IsBook b

run-IsBook-from :
    (sh : UsdmBookState × History) (xs : List UsdmStep)
    → IsBook sh.0.book
    → All IsParsed xs
    → IsBook (run sh xs).0.book
run-IsBook-from sh [] b p = b
run-IsBook-from sh (x ∷ xs) b (p, ps) = run-IsBook-from (step sh x) xs (step-IsBook sh x b p) ps

-- After any sequence of parsed events both sides of a USD-M book hold at most five levels, positive
-- and best first, and a valid book is not crossed.
pub usdm_run-IsBook : (xs : List UsdmStep) → All IsParsed xs → IsBook (run start xs).0.book
usdm_run-IsBook xs p = run-IsBook-from start xs initial-IsBook p
