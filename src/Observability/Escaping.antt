-- ===== src/Observability/Escaping.antt =====
-- vecscaledb/observability.py: `_esc`, and that a label value is written on one line and can be read
-- back. Characters are named by their code points.
use Prim.Native.Nat.{ℕ}
use Prim.Native.Char.{Char, char, code}
use Prim.Native.String.{String, [], ◌∷◌}
use mathlib.Core.Path.{◌≡◌, refl, ap, ◌∙◌}
use mathlib.Core.Logic.{inl, inr}
use mathlib.Core.Bool.{Bool, true, false}
use text.Mathlib.TextEquality.{Char-path}
use native.Mathlib.Omega.{arith}
use distributed_vector_db.Prelude.{◌==◌, if◌then◌else◌, Bool-cases, ◌||◌}

-- `s + t`
abbrev pub joined : String → String → String
joined [] t = t
joined (c ∷ s) t = c ∷ joined s t

-- `value.replace(c, text)`, of the character with this code point.
unfoldable pub replace : ℕ → String → String → String
replace c text [] = []
replace c text (d ∷ s) =
    if code d == c then joined text (replace c text s) else d ∷ replace c text s

abbrev pub backslash : ℕ
backslash = 92

abbrev pub quote : ℕ
quote = 34

abbrev pub newline : ℕ
newline = 10

-- `_esc`
unfoldable pub esc : String → String
unfolding replace
esc value = replace newline "\\n" (replace quote "\\\"" (replace backslash "\\\\" value))

-- What one character becomes.
abbrev pub esc_char : Char → String
esc_char c =
    if code c == backslash
    then "\\\\"
    else if code c == quote
    then "\\\""
    else if code c == newline
    then "\\n"
    else c ∷ []

esc_cons : (c : Char) (s : String) → esc (c ∷ s) ≡ joined (esc_char c) (esc s)
unfolding esc replace
esc_cons c s = elim (Bool-cases (code c == backslash)) [
  | inl h ↦ rw h refl
  | inr h ↦ rw h (elim (Bool-cases (code c == quote)) [
    | inl k ↦ rw k refl
    | inr k ↦ rw k (elim (Bool-cases (code c == newline)) [ inl l ↦ rw l refl | inr l ↦ rw l refl ])
  ])
]

-- Whether a character stands in a text.
abbrev pub occurs : ℕ → String → Bool
occurs n [] = false
occurs n (c ∷ s) = if code c == n then true else occurs n s

-- What a reader of the format makes of a label value.
abbrev pub unescaped : Char → Char
unescaped c = if code c == 110 then char 10 tt else c

abbrev pub unesc_from : Bool → String → String
unesc_from escaped [] = []
unesc_from true (c ∷ s) = unescaped c ∷ unesc_from false s
unesc_from false (c ∷ s) =
    let plain = c ∷ unesc_from false s in
    let next = unesc_from true s in (if code c == backslash then next else plain)

-- The character itself is read back behind its escape.
unesc_char :
    (c : Char) (s : String) → unesc_from false (joined (esc_char c) s) ≡ c ∷ unesc_from false s
unesc_char c s = elim (Bool-cases (code c == backslash)) [
  | inl h ↦ rw h (ap (λ d. d ∷ unesc_from false s) (Char-path (char 92 tt) c (ground (arith, h))))
  | inr h ↦ rw h (elim (Bool-cases (code c == quote)) [
    | inl k ↦ rw k (ap (λ d. d ∷ unesc_from false s) (Char-path (char 34 tt) c (ground (arith, k))))
    | inr k ↦ rw k (elim (Bool-cases (code c == newline)) [
      | inl l ↦
          rw l (ap (λ d. d ∷ unesc_from false s) (Char-path (char 10 tt) c (ground (arith, l))))
      | inr l ↦ rw (l, h) refl
    ])
  ])
]

-- A label value is read back from what `_esc` writes.
pub unesc-esc : (s : String) → unesc_from false (esc s) ≡ s
unesc-esc [] = unfold esc in unfold replace in refl
unesc-esc (c ∷ s) =
    ap (unesc_from false) (esc_cons c s) ∙ unesc_char c (esc s) ∙ ap (λ t. c ∷ t) (unesc-esc s)

occurs-joined : (n : ℕ) (s t : String) → occurs n (joined s t) ≡ (occurs n s || occurs n t)
occurs-joined n [] t = refl
occurs-joined n (c ∷ s) t = ground (arith, occurs-joined n s t)

occurs-esc_char : (c : Char) → occurs newline (esc_char c) ≡ false
occurs-esc_char c = elim (Bool-cases (code c == backslash)) [
  | inl h ↦ rw h refl
  | inr h ↦ rw h (elim (Bool-cases (code c == quote)) [
    | inl k ↦ rw k refl
    | inr k ↦
        rw k
          (elim (Bool-cases (code c == newline)) [ inl l ↦ rw l refl | inr l ↦ rw l (rw l refl) ])
  ])
]

-- What `_esc` writes has no line break.
pub occurs-esc : (s : String) → occurs newline (esc s) ≡ false
occurs-esc [] = unfold esc in unfold replace in refl
occurs-esc (c ∷ s) =
    ap (occurs newline) (esc_cons c s)
    ∙ occurs-joined newline (esc_char c) (esc s)
    ∙ ground (arith, occurs-esc s, occurs-esc_char c)
