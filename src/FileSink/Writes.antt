-- ===== src/FileSink/Writes.antt =====
-- src/buffered_file_sink.cpp: what `write_all` does to a file, whatever the kernel answers.
use ir_assignment.Prelude.{
  ℕ, zero, suc, ◌+◌, ◌-◌, ◌≤◌, ◌<◌, ◌≡◌, refl, sym, ap, ◌∙◌, Bool, true, false, ◌||◌, arith, ltb,
  ◌==◌, if_cases, true_ne_false, List, [], ◌∷◌, ◌++◌, length, take, drop,
}
use ir_assignment.FileSink.{
  FileSinkErrorCode, NativeError, eio, FileSinkError, is_error, WriteAnswer, interrupted, accepts,
  refuses, BufferedCsvFileSink, has_failed, latch_error, Written, goes_on, stops, write_some,
  called,
}
use ir_assignment.FileSink.Operations.{write_from, write_all}

abbrev pub IsPrefix : List ℕ → List ℕ → Type 0
IsPrefix xs ys = (rest : List ℕ) × (xs ++ rest ≡ ys)

pub append_assoc_lem : (xs ys zs : List ℕ) → (xs ++ ys) ++ zs ≡ xs ++ (ys ++ zs)
append_assoc_lem [] ys zs = refl
append_assoc_lem (x ∷ xs) ys zs = ap (λ t. x ∷ t) (append_assoc_lem xs ys zs)

pub append_nil_lem : (xs : List ℕ) → xs ++ [] ≡ xs
append_nil_lem [] = refl
append_nil_lem (x ∷ xs) = ap (λ t. x ∷ t) (append_nil_lem xs)

take-drop_lem : (n : ℕ) (xs : List ℕ) → take n xs ++ drop n xs ≡ xs
take-drop_lem zero xs = refl
take-drop_lem (suc n) [] = refl
take-drop_lem (suc n) (x ∷ xs) = ap (λ t. x ∷ t) (take-drop_lem n xs)

length-drop_lem : (n : ℕ) (xs : List ℕ) → length (drop n xs) ≡ length xs - n
length-drop_lem zero xs = omega arith
length-drop_lem (suc n) [] = omega arith
length-drop_lem (suc n) (x ∷ xs) = omega (arith, length-drop_lem n xs)

pub longer-IsPrefix : (xs ys more : List ℕ) → IsPrefix xs ys → IsPrefix xs (ys ++ more)
longer-IsPrefix xs ys more (rest, e) =
    (rest ++ more, sym (append_assoc_lem xs rest more) ∙ ap (λ t. t ++ more) e)

-- What writing does to a sink with this buffer, if `target` is the file behind it: it is that, or some
-- of it and the sink has failed.
pub record IsWrite (buffer : List ℕ) (is_open : Bool) (target : List ℕ)
    (out : BufferedCsvFileSink × FileSinkError) : Type 0 where
  pub buffer_kept : out.0.buffer ≡ buffer
  pub open_kept : out.0.is_open ≡ is_open
  pub failure : has_failed out.0 ≡ is_error out.1
  pub grown : IsPrefix out.0.contents target
  pub whole : is_error out.1 ≡ false → out.0.contents ≡ target

-- A part of it, with the bytes that are left.
abbrev StepOf : List ℕ → Bool → List ℕ → ℕ → Written → Type 0
StepOf buffer is_open target size (goes_on after left) =
    (after.buffer ≡ buffer)
    × (after.is_open ≡ is_open)
    × (has_failed after ≡ false)
    × (after.contents ++ left ≡ target)
    × (length left < size)
StepOf buffer is_open target size (stops out) =
    IsWrite buffer is_open target out × (is_error out.1 ≡ true)

latched-IsWrite :
    (s : BufferedCsvFileSink) (bytes : List ℕ) (native : NativeError)
    → has_failed s ≡ false
    → StepOf s.buffer s.is_open
        (s.contents ++ bytes)
        (length bytes)
        (stops (latch_error (called s) FileSinkErrorCode.write_failed native))
latched-IsWrite s bytes native h = rw h (
  record {
    buffer_kept = refl;
    open_kept = refl;
    failure = refl;
    grown = (bytes, refl);
    whole = λ e. absurd (true_ne_false e);
  },
  refl,
)

write_some-StepOf :
    (s : BufferedCsvFileSink) (bytes : List ℕ) (answer : WriteAnswer)
    → has_failed s ≡ false
    → StepOf s.buffer s.is_open (s.contents ++ bytes) (length bytes) (write_some s bytes answer)
unfolding write_some
write_some-StepOf s bytes (interrupted answer) h = write_some-StepOf (called s) bytes answer h
write_some-StepOf s bytes (refuses native) h = latched-IsWrite s bytes native h
write_some-StepOf s bytes (accepts n) h =
    if_cases (StepOf s.buffer s.is_open (s.contents ++ bytes) (length bytes))
      (n == 0 || ltb (length bytes) n) (λ _. latched-IsWrite s bytes eio h)
      (λ fits. (
        refl,
        refl,
        h,
        append_assoc_lem s.contents (take n bytes) (drop n bytes)
            ∙ ap (λ t. s.contents ++ t) (take-drop_lem n bytes),
        ground (arith, fits, length-drop_lem n bytes),
      ))

module _ (kernel : ℕ → List ℕ → WriteAnswer) where
  going_on_lem :
      (rounds size : ℕ) (buffer : List ℕ) (is_open : Bool) (target : List ℕ) (w : Written)
      → size ≤ suc rounds
      → StepOf buffer is_open target size w
      → ((after : BufferedCsvFileSink) (left : List ℕ)
          → has_failed after ≡ false
          → length left ≤ rounds
          → IsWrite after.buffer after.is_open
              (after.contents ++ left)
              (write_from kernel rounds after left))
      → IsWrite buffer is_open target
          (elim w [ goes_on after left ↦ write_from kernel rounds after left | stops out ↦ out ])
  going_on_lem rounds size buffer is_open target (stops out) fuel (k, _) f = k
  going_on_lem rounds size buffer is_open target (goes_on after left) fuel (b, o, h, t, less) f =
      let k = f after left h (omega (arith, less, fuel)) in rw (sym b, sym o, sym t) k

  write_from-IsWrite :
      (rounds : ℕ) (s : BufferedCsvFileSink) (bytes : List ℕ)
      → has_failed s ≡ false
      → length bytes ≤ rounds
      → IsWrite s.buffer s.is_open (s.contents ++ bytes) (write_from kernel rounds s bytes)
  unfolding write_from
  write_from-IsWrite rounds s [] h fuel = record {
    buffer_kept = refl;
    open_kept = refl;
    failure = h;
    grown = ([], refl);
    whole = λ _. sym (append_nil_lem s.contents);
  }
  write_from-IsWrite zero s (c ∷ bytes) h fuel = absurd (omega (arith, fuel))
  write_from-IsWrite (suc rounds) s (c ∷ bytes) h fuel =
      let called_once : BufferedCsvFileSink = record s { writes = s.writes + 1 } in
      going_on_lem rounds (length (c ∷ bytes)) s.buffer s.is_open (s.contents ++ (c ∷ bytes)) _ fuel
        (write_some-StepOf called_once (c ∷ bytes) (kernel s.writes (c ∷ bytes)) h)
        (λ after left k less. write_from-IsWrite rounds after left k less)

  pub write_all-IsWrite :
      (s : BufferedCsvFileSink) (bytes : List ℕ)
      → has_failed s ≡ false
      → IsWrite s.buffer s.is_open (s.contents ++ bytes) (write_all kernel s bytes)
  unfolding write_all
  write_all-IsWrite s bytes h = write_from-IsWrite (length bytes) s bytes h (omega arith)
