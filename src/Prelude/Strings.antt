-- ===== src/Prelude/Strings.antt =====
-- Python's order of strings, and numbers written in decimal.
use Prim.Native.Nat.{ℕ, zero, suc, ◌/◌, ◌%◌}
use Prim.Native.Char.{code}
use Prim.Native.String.{String, [], ◌∷◌, ◌++◌, compare}
use text.Mathlib.Text.{is_lt}
use mathlib.Core.Path.{◌≡◌, refl}
use mathlib.Core.Bool.{Bool, true, false, ◌&&◌}
use native.Mathlib.Omega.{arith}
use distributed_vector_db.Prelude.Tests.{ltb, ◌==◌, if◌then◌else◌}

abbrev pub string_ltb : String → String → Bool
string_ltb s t = is_lt (compare s t)

abbrev digit : ℕ → String
digit d =
    if d == 0
    then "0"
    else if d == 1
    then "1"
    else if d == 2
    then "2"
    else if d == 3
    then "3"
    else if d == 4
    then "4"
    else if d == 5
    then "5"
    else if d == 6
    then "6"
    else if d == 7
    then "7"
    else if d == 8
    then "8"
    else "9"

-- The decimal digits of a number that has `width` of them at most, with leading zeros.
unfoldable pub padded : ℕ → ℕ → String
padded zero n = ""
padded (suc width) n = padded width (n / 10) ++ digit (n % 10)

-- The decimal digits of a number; its value is fuel enough.
unfoldable pub digits : ℕ → ℕ → String
digits zero n = ""
digits (suc fuel) n =
    let front = digits fuel (n / 10) in (if ltb n 10 then digit n else front ++ digit (n % 10))

-- `str(n)`
unfoldable pub decimal : ℕ → String
unfolding digits
decimal n = digits (suc n) n

abbrev pub is_blank : String → Bool
is_blank [] = true
is_blank (c ∷ s) = false

-- `s.rstrip("/")`
unfoldable pub rstrip_slash : String → String
rstrip_slash [] = []
rstrip_slash (c ∷ s) =
    let rest = rstrip_slash s in (if is_blank rest && code c == 47 then [] else c ∷ rest)

-- Whether a text ends in a slash.
abbrev pub ends_in_slash : String → Bool
ends_in_slash [] = false
ends_in_slash (c ∷ s) = let rest = ends_in_slash s in (if is_blank s then code c == 47 else rest)

is_blank-eq : (s : String) → is_blank s ≡ true → s ≡ []
is_blank-eq [] h = refl
is_blank-eq (c ∷ s) h = cc

pub ends_in_slash-rstrip_slash : (s : String) → ends_in_slash (rstrip_slash s) ≡ false
unfolding rstrip_slash
ends_in_slash-rstrip_slash [] = refl
ends_in_slash-rstrip_slash (c ∷ s) = ground (arith, ends_in_slash-rstrip_slash s)
