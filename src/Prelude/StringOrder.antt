-- ===== src/Prelude/StringOrder.antt =====
-- Python's order of strings is a strict order.
use Prim.Native.Nat.{Ordering, compare as compare_ℕ}
use Prim.Native.Char.{Char, code}
use Prim.Native.String.compare
use Prim.Native.String.{String, [], ◌∷◌, then, compare}
use text.Mathlib.Text.{is_lt}
use mathlib.Core.Path.{◌≡◌, refl, ap, ◌∙◌}
use mathlib.Core.Bool.{true, false, ◌&&◌, ◌||◌}
use native.Mathlib.Omega.{arith}
use distributed_vector_db.Prelude.Tests.{ltb, ◌==◌}
use distributed_vector_db.Prelude.Strings.{string_ltb}

is_lt-then :
    (o x : Ordering)
    → is_lt (then o x) ≡ (
        (elim o [ Ordering.lt ↦ true | _ ↦ false ])
        || ((elim o [ Ordering.eq ↦ true | _ ↦ false ]) && is_lt x))
is_lt-then Ordering.lt x = refl
is_lt-then Ordering.eq x = refl
is_lt-then Ordering.gt x = refl

string_ltb-cons :
    (c d : Char) (s t : String)
    → string_ltb (c ∷ s) (d ∷ t) ≡ (ltb (code c) (code d) || (code c == code d && string_ltb s t))
string_ltb-cons c d s t =
    ap is_lt (compare.cons-cons c d s t) ∙ is_lt-then (compare_ℕ (code c) (code d)) (compare s t)

string_ltb-nil : (s : String) → string_ltb s [] ≡ false
string_ltb-nil [] = refl
string_ltb-nil (c ∷ s) = ap is_lt (compare.cons-nil c s)

pub string_ltb_irrefl : (s : String) → string_ltb s s ≡ false
string_ltb_irrefl [] = refl
string_ltb_irrefl (c ∷ s) = ground (arith, string_ltb-cons c c s s, string_ltb_irrefl s)

pub string_ltb_trans :
    (s t u : String) → string_ltb s t ≡ true → string_ltb t u ≡ true → string_ltb s u ≡ true
string_ltb_trans s [] u h k = ground (arith, string_ltb-nil s)
string_ltb_trans s (d ∷ t) [] h k = ground (arith, string_ltb-nil (d ∷ t))
string_ltb_trans [] (d ∷ t) (e ∷ u) h k = ap is_lt (compare.nil-cons e u)
string_ltb_trans (c ∷ s) (d ∷ t) (e ∷ u) h k = ground (
  arith,
  string_ltb_trans s t u,
  string_ltb-cons c d s t,
  string_ltb-cons d e t u,
  string_ltb-cons c e s u,
)

pub string_ltb_not_trans :
    (s t u : String) → string_ltb s t ≡ false → string_ltb t u ≡ false → string_ltb s u ≡ false
string_ltb_not_trans s t [] h k = string_ltb-nil s
string_ltb_not_trans [] [] (e ∷ u) h k = k
string_ltb_not_trans [] (d ∷ t) (e ∷ u) h k = ground (arith, ap is_lt (compare.nil-cons d t))
string_ltb_not_trans (c ∷ s) [] (e ∷ u) h k = ground (arith, ap is_lt (compare.nil-cons e u))
string_ltb_not_trans (c ∷ s) (d ∷ t) (e ∷ u) h k = ground (
  arith,
  string_ltb_not_trans s t u,
  string_ltb-cons c d s t,
  string_ltb-cons d e t u,
  string_ltb-cons c e s u,
)
