-- ===== src/Prelude/ParseNumber.antt =====
-- `int(s)`, of a text of decimal digits as `str` writes it.
use Prim.Native.Nat.{ℕ, ◌+◌, ◌-◌, ◌*◌}
use Prim.Native.String.{String, [], ◌∷◌}
use Prim.Native.Char.{code}
use mathlib.Core.Bool.{◌&&◌}
use distributed_vector_db.Prelude.Tests.{leb, if◌then◌else◌}
use distributed_vector_db.Prelude.Outcome.{Outcome, ok, raise, value_error}

-- The digits 0 to 9 have the codes 48 to 57.
unfoldable pub parse_digits : String → ℕ → Outcome ℕ
parse_digits [] n = ok n
parse_digits (c ∷ s) n =
    let rest = parse_digits s (n * 10 + (code c - 48)) in
    if leb 48 (code c) && leb (code c) 57 then rest else raise value_error

unfoldable pub parse_int : String → Outcome ℕ
unfolding parse_digits
parse_int [] = raise value_error
parse_int (c ∷ s) = parse_digits (c ∷ s) 0
