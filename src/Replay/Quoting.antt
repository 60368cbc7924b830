-- ===== src/Replay/Quoting.antt =====
-- The loop of `append_quoted_field` in src/csv_formatter.cpp against the payload loop of `decode_record`
-- in src/market_data_replay.cpp.
use ir_assignment.Prelude.{
  ℕ, suc, ◌+◌, ◌≤◌, ◌≡◌, refl, sym, ap, ◌∙◌, Bool, true, false, arith, ◌==◌, List, [], ◌∷◌, ◌++◌,
  length, Bool-cases, inl, inr, if◌then◌else◌,
}
use ir_assignment.Csv.Format.{
  Append, written, refused, no_memory, ◌>>=◌, append_bytes, append_byte, append_escaped,
}
use ir_assignment.Payload.{max_payload_bytes}
use ir_assignment.Replay.{good, decode_payload, escaped}

-- Every quote twice.
abbrev pub escape : List ℕ → List ℕ
escape [] = []
escape (c ∷ s) = if c == b'"' then b'"' ∷ b'"' ∷ escape s else c ∷ escape s

decode_payload_plain :
    (n c : ℕ) (t : List ℕ)
    → (c == b'"') ≡ false
    → (n == max_payload_bytes) ≡ false
    → decode_payload n (c ∷ t) ≡ escaped c (decode_payload (suc n) t)
unfolding decode_payload
decode_payload_plain n c [] p q = ground (arith, p, q)
decode_payload_plain n c (d ∷ e) p q = rw (p, q) refl

decode_payload_pair :
    (n : ℕ) (t : List ℕ)
    → (n == max_payload_bytes) ≡ false
    → decode_payload n (b'"' ∷ b'"' ∷ t) ≡ escaped b'"' (decode_payload (suc n) t)
unfolding decode_payload
decode_payload_pair n t q = rw q refl

has_room : (n k : ℕ) → n + suc k ≤ max_payload_bytes → (n == max_payload_bytes) ≡ false
has_room n k h = ground arith

is_quote : (c : ℕ) → (c == b'"') ≡ true → b'"' ≡ c
is_quote c q = ground arith

pub decode_payload-escape :
    (n : ℕ) (s : List ℕ) → n + length s ≤ max_payload_bytes → decode_payload n (escape s) ≡ good s
unfolding decode_payload
decode_payload-escape n [] h = refl
decode_payload-escape n (c ∷ s) h =
    let rest = decode_payload-escape (suc n) s (omega arith) in
    let room = has_room n (length s) h in
    elim (Bool-cases (c == b'"')) [
      | inl q ↦ rw q (
          decode_payload_pair n (escape s) room
          ∙ ap (escaped b'"') rest
          ∙ ap (λ (d : ℕ). good (d ∷ s)) (is_quote c q))
      | inr p ↦ rw p (decode_payload_plain n c (escape s) p room ∙ ap (escaped c) rest)
    ]

pub append-nil : (s : List ℕ) → s ++ [] ≡ s
append-nil [] = refl
append-nil (c ∷ s) = ap (λ t. c ∷ t) (append-nil s)

pub append_assoc : (s t u : List ℕ) → (s ++ t) ++ u ≡ s ++ (t ++ u)
append_assoc [] t u = refl
append_assoc (c ∷ s) t u = ap (λ v. c ∷ v) (append_assoc s t u)

-- What comes out of two appends comes out of the second one.
pub bind_written :
    (a : Append) (f : List ℕ → Append) (r : List ℕ)
    → a >>= f ≡ written r
    → (next : List ℕ) × (a ≡ written next) × (f next ≡ written r)
bind_written (written s) f r e = (s, refl, e)
bind_written refused f r e = cc
bind_written no_memory f r e = cc

-- The bytes for one byte of a field.
abbrev unit_of : ℕ → List ℕ
unit_of c = if c == b'"' then b'"' ∷ b'"' ∷ [] else c ∷ []

escape-cons : (c : ℕ) (s : List ℕ) → escape (c ∷ s) ≡ unit_of c ++ escape s
escape-cons c s = ground arith

module _ (memory : ℕ → Bool) where
  pub append_bytes_written :
      (out : List ℕ) (c : ℕ) (s r : List ℕ)
      → append_bytes memory out (c ∷ s) ≡ written r
      → r ≡ out ++ (c ∷ s)
  unfolding append_bytes
  append_bytes_written out c s r e = ground (arith, e)

  pub append_byte_written :
      (out : List ℕ) (c : ℕ) (r : List ℕ)
      → append_byte memory out c ≡ written r
      → r ≡ out ++ (c ∷ [])
  unfolding append_byte
  append_byte_written out c r e = ground (arith, e)

  unit_written :
      (out : List ℕ) (c : ℕ) (r : List ℕ)
      → (if c == b'"' then append_bytes memory out (b'"' ∷ b'"' ∷ []) else append_byte memory out c)
        ≡ written r
      → r ≡ out ++ unit_of c
  unit_written out c r e =
      ground (arith, e, append_bytes_written out b'"' (b'"' ∷ []) r, append_byte_written out c r)

  pub append_escaped_written :
      (out s r : List ℕ) → append_escaped memory out s ≡ written r → r ≡ out ++ escape s
  unfolding append_escaped
  append_escaped_written out [] r e = ground (arith, e, append-nil out)
  append_escaped_written out (c ∷ s) r e =
      let (next, first, rest) = bind_written _ (λ t. append_escaped memory t s) r e in
      append_escaped_written next s r rest
      ∙ ap (λ (t : List ℕ). t ++ escape s) (unit_written out c next first)
      ∙ append_assoc out (unit_of c) (escape s)
      ∙ ap (λ (t : List ℕ). out ++ t) (sym (escape-cons c s))

  -- What the loop of `append_quoted_field` writes for a payload of at most 1 MiB, the payload loop of
  -- `decode_record` reads back as the payload.
  pub decode_payload-append_escaped :
      (payload r : List ℕ)
      → length payload ≤ max_payload_bytes
      → append_escaped memory [] payload ≡ written r
      → decode_payload 0 r ≡ good payload
  decode_payload-append_escaped payload r h e =
      rw (append_escaped_written [] payload r e)
        (decode_payload-escape 0 payload (omega (arith, h)))
