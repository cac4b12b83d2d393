-- ===== src/Storage/Lsm/Invariant.antt =====
-- The invariant of a running engine: the log holds exactly the records `rs`, the widths agree, and
-- the MemTable is as its methods build it.
use distributed_vector_db.Prelude.{
  ℕ, zero, suc, ◌^◌, ◌<◌, ◌≡◌, refl, true, List, [], ◌∷◌, All, length, replicate, arith,
}
use distributed_vector_db.Arrays.{IdPattern, Vector}
use distributed_vector_db.Storage.Wal.Words.{Bytes}
use distributed_vector_db.Storage.Wal.Frame.{WalRecord, op_delete}
use distributed_vector_db.Storage.Wal.FrameLaws.{IsWritable}
use distributed_vector_db.Storage.Wal.Invariant.{Holds, entry}
use distributed_vector_db.Storage.MemTable.Laws.{IsValid}
use distributed_vector_db.Storage.Lsm.State.{Engine}
use distributed_vector_db.Storage.Lsm.Writes.{zeros}

pub record Runs {Index : Type 0} (crc32 : Bytes → ℕ) (e : Engine Index) (rs : List WalRecord)
    : Type 0 where
  pub started : e.started ≡ true
  pub log : Holds crc32 e.wal rs
  pub log_open : e.wal.is_open ≡ true
  pub log_dim : e.wal.dim ≡ e.config.dim
  pub table_dim : e.memtable.dim ≡ e.config.dim
  pub table : IsValid e.memtable

length-replicate : (n : ℕ) → length {A = ℕ} (replicate n 0) ≡ n
length-replicate zero = refl
length-replicate (suc n) = omega (arith, length-replicate n)

All-replicate : (n : ℕ) → All (λ x. x < 256 ^ 4) (replicate n 0)
All-replicate zero = tt
All-replicate (suc n) = (omega arith, All-replicate n)

module _ (dim : ℕ) where
  abbrev zero_rows : List IdPattern → List Vector
  zero_rows ids = (zeros ids dim).rows

  length-zeros : (ids : List IdPattern) → length ids ≡ length (zero_rows ids)
  length-zeros [] = refl
  length-zeros (i ∷ ids) = omega (arith, length-zeros ids)

  even-zeros : (ids : List IdPattern) → All (λ v. length v ≡ dim) (zero_rows ids)
  even-zeros [] = tt
  even-zeros (i ∷ ids) = (length-replicate dim, even-zeros ids)

  fit-zeros : (ids : List IdPattern) → All (λ v. All (λ x. x < 256 ^ 4) v) (zero_rows ids)
  fit-zeros [] = tt
  fit-zeros (i ∷ ids) = (All-replicate dim, fit-zeros ids)

  -- The record of a deletion fits if its LSN, its ids and their number do.
  pub deletion-IsWritable :
      (lsn : ℕ) (ids : List IdPattern)
      → lsn < 256 ^ 8
      → length ids < 256 ^ 4
      → All (λ i. i < 256 ^ 8) ids
      → IsWritable dim (entry lsn op_delete ids (zeros ids dim))
  deletion-IsWritable lsn ids hl hn hi = record {
    lsn_fits = hl;
    op_fits = omega arith;
    count_fits = hn;
    ids_fit = hi;
    matrix = refl;
    width = refl;
    paired = length-zeros ids;
    even = even-zeros ids;
    floats_fit = fit-zeros ids;
  }
