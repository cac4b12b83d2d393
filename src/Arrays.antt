-- ===== src/Arrays.antt =====
-- The numpy arrays that the storage engine passes around.
--
-- An id (np.int64) is its 64-bit two's complement pattern, a number below 2 ^ 64: equality of ids
-- is equality of patterns, and `astype(np.uint64)` and back changes nothing. A float32 is its
-- 32-bit pattern. A distance is a squared L2 distance, which is not negative; the patterns of such
-- floats are ordered like the numbers, so that distances are compared as numbers (no NaN).
mod Shape
pub use Shape.{
  IdPattern, Vector, Distance, Hit, NdArray, IsMatrix, is_negative, signed_key, check_shape,
  shape_ok,
}
