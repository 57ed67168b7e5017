-- ===== src/Codec/Lines.antt =====
-- The lines of a byte stream, as the reference for the decoder.
use tmcp.Base.{
  ℕ, suc, ◌≡◌, refl, sym, ap, inl, inr, false, Option, none, some, List, [], ◌∷◌, ◌++◌, arith,
  nat_beq, if◌then◌else◌, nat_beq_iff, Bool-cases, length, is_empty, nat_eq, Text, text_eq,
}
use mathlib.Core.List.{append-nil, append_assoc}
use tmcp.Codec.{newline, newline_position, one_later}

abbrev pub finish_line : Text → List Text × Text → List Text × Text
finish_line line (lines, rest) = if is_empty line then (lines, rest) else (line ∷ lines, rest)

-- The non-empty lines that the bytes complete, and the line that is unfinished; `line` is what of
-- it came before.
unfoldable pub scan_lines : Text → Text → List Text × Text
scan_lines line [] = ([], line)
scan_lines line (c ∷ s) =
    let done = finish_line line (scan_lines [] s) in
    let more = scan_lines (line ++ c ∷ []) s in if nat_beq c newline then done else more

earlier : (o : Option ℕ) → one_later o ≡ none → o ≡ none
earlier none h = refl
earlier (some k) h = absurd (cc)

earlier_some : (o : Option ℕ) (k : ℕ) → one_later o ≡ some k → (j : ℕ) × (o ≡ some j) × (k ≡ suc j)
earlier_some none k h = absurd (cc)
earlier_some (some j) k h = (j, refl, ground arith)

-- A text without a newline starts with another byte, and goes on without one.
pub plain_cons :
    (c : ℕ) (s : Text)
    → newline_position (c ∷ s) ≡ none
    → (nat_beq c newline ≡ false) × (newline_position s ≡ none)
unfolding newline_position
plain_cons c s h = elim (Bool-cases (nat_beq c newline)) [
  | inl end ↦ absurd (let h' = rw end at h in cc)
  | inr other ↦ (other, earlier (newline_position s) (rw other at h))
]

pub newline_position-append :
    (s t : Text)
    → newline_position s ≡ none
    → newline_position t ≡ none
    → newline_position (s ++ t) ≡ none
unfolding newline_position
newline_position-append [] t h k = k
newline_position-append (c ∷ s) t h k = elim (Bool-cases (nat_beq c newline)) [
  | inl end ↦ absurd (let h' = rw end at h in cc)
  | inr other ↦
      let rest : newline_position s ≡ none = earlier (newline_position s) (rw other at h) in
      rw other (rw (newline_position-append s t rest k) refl)
]

pub newline_position-some :
    (s : Text) (k : ℕ)
    → newline_position s ≡ some k
    → (line : Text) × (rest : Text) × (s ≡ line ++ newline ∷ rest)
      × (length line ≡ k)
      × (newline_position line ≡ none)
unfolding newline_position
newline_position-some [] k h = absurd (cc)
newline_position-some (c ∷ s) k h = elim (Bool-cases (nat_beq c newline)) [
  | inl end ↦
      let none_before = rw end at h in
      ([], s, ap (λ x. x ∷ s) ((nat_beq_iff c newline).0 end), ground arith, refl)
  | inr other ↦
      let (j, found, e) = earlier_some (newline_position s) k (rw other at h) in
      let (line, rest, split, size, plain) = newline_position-some s j found in
      (c ∷ line, rest, ap (◌∷◌ c) split, ground arith, rw (other, plain) refl)
]

pub scan_lines_plain :
    (line s : Text) → newline_position s ≡ none → scan_lines line s ≡ ([], line ++ s)
unfolding newline_position scan_lines
scan_lines_plain line [] h = ap (λ x. ([], x)) (sym (append-nil line))
scan_lines_plain line (c ∷ s) h =
    let (other, plain) = plain_cons c s h in
    rw (other, scan_lines_plain (line ++ c ∷ []) s plain)
      (ap (λ x. ([], x)) (append_assoc line (c ∷ []) s))

pub scan_lines_line :
    (line s rest : Text)
    → newline_position s ≡ none
    → scan_lines line (s ++ newline ∷ rest) ≡ finish_line (line ++ s) (scan_lines [] rest)
unfolding newline_position scan_lines
scan_lines_line line [] rest h = rw (append-nil line) refl
scan_lines_line line (c ∷ s) rest h =
    let (other, plain) = plain_cons c s h in
    rw (other, scan_lines_line (line ++ c ∷ []) s rest plain)
      (ap (λ x. finish_line x (scan_lines [] rest)) (append_assoc line (c ∷ []) s))

abbrev pub add_lines : List Text × Text → List Text × Text → List Text × Text
add_lines first later = (first.0 ++ later.0, later.1)

pub scan_lines-append :
    (line s t : Text)
    → scan_lines line (s ++ t) ≡ add_lines (scan_lines line s) (scan_lines (scan_lines line s).1 t)
unfolding scan_lines
scan_lines-append line [] t = refl
scan_lines-append line (c ∷ s) t = elim (Bool-cases (nat_beq c newline)) [
  | inr other ↦ rw other (scan_lines-append (line ++ c ∷ []) s t)
  | inl end ↦ rw (end, scan_lines-append [] s t) (ground arith)
]
