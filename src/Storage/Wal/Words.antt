-- ===== src/Storage/Wal/Words.antt =====
-- Little-endian words of a file: `struct.pack("<...")`, `ndarray.tobytes` and `np.frombuffer`.
use distributed_vector_db.Prelude.{
  ℕ, zero, suc, ◌+◌, ◌*◌, ◌/◌, ◌%◌, ◌^◌, ◌<◌, ◌≡◌, refl, ap, ◌∙◌, List, [], ◌∷◌, ◌++◌, take, drop,
  length, length-append, take-append, drop-append, All, arith,
}
use mathlib.Core.List.{append_assoc}
use native.Mathlib.Nat.{pow-suc}

abbrev pub Bytes : Type 0
Bytes = List ℕ

-- The lowest `w` bytes of a number, lowest first.
unfoldable pub to_le : ℕ → ℕ → Bytes
to_le zero v = []
to_le (suc w) v = (v % 256) ∷ to_le w (v / 256)

unfoldable pub from_le : Bytes → ℕ
from_le [] = 0
from_le (b ∷ bs) = b + 256 * from_le bs

unfoldable pub encode_words : ℕ → List ℕ → Bytes
unfolding to_le
encode_words w [] = []
encode_words w (x ∷ xs) = to_le w x ++ encode_words w xs

unfoldable pub decode_words : ℕ → ℕ → Bytes → List ℕ
unfolding from_le
decode_words w zero bs = []
decode_words w (suc n) bs = from_le (take w bs) ∷ decode_words w n (drop w bs)

-- `a.reshape(rows, cols)` of a flat array
unfoldable pub reshape : ℕ → ℕ → List ℕ → List (List ℕ)
reshape zero cols xs = []
reshape (suc rows) cols xs = take cols xs ∷ reshape rows cols (drop cols xs)

unfoldable pub flatten_rows : List (List ℕ) → List ℕ
flatten_rows [] = []
flatten_rows (r ∷ rs) = r ++ flatten_rows rs

pub length-to_le : (w v : ℕ) → length (to_le w v) ≡ w
unfolding to_le
length-to_le zero v = refl
length-to_le (suc w) v = ap suc (length-to_le w (v / 256))

div_lt_pow : (w v : ℕ) → v < 256 ^ suc w → v / 256 < 256 ^ w
div_lt_pow w v h = let e = pow-suc 256 w in omega arith

pub from_le-to_le : (w v : ℕ) → v < 256 ^ w → from_le (to_le w v) ≡ v
unfolding to_le from_le
from_le-to_le zero v h = omega arith
from_le-to_le (suc w) v h = omega (arith, from_le-to_le w (v / 256) (div_lt_pow w v h))

pub length-encode_words : (w : ℕ) (xs : List ℕ) → length (encode_words w xs) ≡ length xs * w
unfolding encode_words
length-encode_words w [] = omega arith
length-encode_words w (x ∷ xs) = omega (
  arith,
  length-append (to_le w x) (encode_words w xs),
  length-to_le w x,
  length-encode_words w xs,
)

pub take_of_length : (n : ℕ) (xs ys : List ℕ) → length xs ≡ n → take n (xs ++ ys) ≡ xs
take_of_length n xs ys h = ap (λ k. take k (xs ++ ys)) (omega arith) ∙ take-append xs ys

pub drop_of_length : (n : ℕ) (xs ys : List ℕ) → length xs ≡ n → drop n (xs ++ ys) ≡ ys
drop_of_length n xs ys h = ap (λ k. drop k (xs ++ ys)) (omega arith) ∙ drop-append xs ys

pub decode-encode_words :
    (w : ℕ) (xs : List ℕ) (rest : Bytes)
    → All (λ x. x < 256 ^ w) xs
    → decode_words w (length xs) (encode_words w xs ++ rest) ≡ xs
unfolding encode_words decode_words
decode-encode_words w [] rest h = refl
decode-encode_words w (x ∷ xs) rest h = rw append_assoc (
    rw (take_of_length w (to_le w x) (encode_words w xs ++ rest) (length-to_le w x)) (
      rw (drop_of_length w (to_le w x) (encode_words w xs ++ rest) (length-to_le w x))
        (cc (from_le-to_le w x h.0, decode-encode_words w xs rest h.1))))

pub length-flatten_rows :
    (cols : ℕ) (rows : List (List ℕ))
    → All (λ r. length r ≡ cols) rows
    → length (flatten_rows rows) ≡ length rows * cols
unfolding flatten_rows
length-flatten_rows cols [] h = omega arith
length-flatten_rows cols (r ∷ rs) h =
    omega (arith, length-append r (flatten_rows rs), length-flatten_rows cols rs h.1)

pub reshape-flatten_rows :
    (cols : ℕ) (rows : List (List ℕ))
    → All (λ r. length r ≡ cols) rows
    → reshape (length rows) cols (flatten_rows rows) ≡ rows
unfolding reshape flatten_rows
reshape-flatten_rows cols [] h = refl
reshape-flatten_rows cols (r ∷ rs) h = rw (take_of_length cols r (flatten_rows rs) h.0) (
    rw (drop_of_length cols r (flatten_rows rs) h.0)
      (ap (◌∷◌ r) (reshape-flatten_rows cols rs h.1)))

pub All-flatten_rows :
    (b : ℕ) (rows : List (List ℕ))
    → All (λ r. All (λ x. x < b) r) rows
    → All (λ x. x < b) (flatten_rows rows)
unfolding flatten_rows
All-flatten_rows b [] h = tt
All-flatten_rows b (r ∷ rs) h = both b r (flatten_rows rs) h.0 (All-flatten_rows b rs h.1)
  where
    both :
        (b : ℕ) (xs ys : List ℕ)
        → All (λ x. x < b) xs
        → All (λ x. x < b) ys
        → All (λ x. x < b) (xs ++ ys)
    both b [] ys h k = k
    both b (x ∷ xs) ys h k = (h.0, both b xs ys h.1 k)
