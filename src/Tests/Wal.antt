-- ===== src/Tests/Wal.antt =====
-- A log of two records of width 1, with the sum of the bytes for `zlib.crc32`.
use distributed_vector_db.Prelude.{
  ℕ, ◌+◌, ◌^◌, ◌<◌, ◌≡◌, refl, none, some, [], ◌∷◌, ◌++◌, take, drop, true, arith,
}
use distributed_vector_db.Prelude.Outcome.{ok}
use distributed_vector_db.Arrays.{NdArray}
use distributed_vector_db.Storage.Wal.{Wal, init, open_log, append, truncate_before, crash, recover}
use distributed_vector_db.Storage.Wal.Words.{Bytes, from_le}
use distributed_vector_db.Storage.Wal.Frame.{
  WalRecord, op_insert, op_delete, serialize_record, serialize_all, recover_bytes, recover_from,
}
use distributed_vector_db.Storage.Wal.FrameLaws.{IsWritable}
use distributed_vector_db.Storage.Wal.Recovery.{recover-torn, recover-damaged}
use distributed_vector_db.Storage.Wal.Invariant.{
  Holds, entry, append-Holds, truncate_before-Holds, reopen-Holds,
}

abbrev pub sum_bytes : Bytes → ℕ
sum_bytes [] = 0
sum_bytes (b ∷ bs) = b + sum_bytes bs

abbrev pub one_row : NdArray
one_row = record { ndim = 2; width = 1; rows = (1065353216 ∷ []) ∷ [] }

abbrev first : WalRecord
first = entry 1 op_insert (7 ∷ []) one_row

abbrev second : WalRecord
second = entry 2 op_delete (7 ∷ []) one_row

pub first-IsWritable :
    (lsn op : ℕ) → lsn < 256 ^ 8 → op < 256 → IsWritable 1 (entry lsn op (7 ∷ []) one_row)
first-IsWritable lsn op h k = record {
  lsn_fits = h;
  op_fits = k;
  count_fits = omega arith;
  ids_fit = omega arith;
  matrix = refl;
  width = refl;
  paired = refl;
  even = (refl, tt);
  floats_fit = ((omega arith, tt), tt);
}

abbrev pub fresh : Wal
fresh = record { dim = 1; file = some []; meta = some 0; is_open = true; last_lsn = 0 }

fresh_opens : open_log sum_bytes (init 1 none none) ≡ fresh
unfolding open_log recover recover_bytes recover_from
fresh_opens = refl

pub fresh-Holds : Holds sum_bytes fresh []
fresh-Holds = record { bytes = refl; writable = tt; ascending = tt; bounded = tt; meta = refl }

append-Holds_example :
    ((append sum_bytes op_insert (7 ∷ []) one_row fresh).0 ≡ ok 1)
    × Holds sum_bytes (append sum_bytes op_insert (7 ∷ []) one_row fresh).1 (first ∷ [])
    × ((append sum_bytes op_insert (7 ∷ []) one_row fresh).1.last_lsn ≡ 1)
    × ((append sum_bytes op_insert (7 ∷ []) one_row fresh).1.is_open ≡ true)
append-Holds_example =
    append-Holds sum_bytes op_insert (7 ∷ []) one_row fresh-Holds refl
      (first-IsWritable 1 op_insert (omega arith) (omega arith))

abbrev logged : Wal
logged = (append sum_bytes op_insert (7 ∷ []) one_row fresh).1

truncate_before-Holds_example :
    ((truncate_before sum_bytes 2 logged).0 ≡ ok tt)
    × Holds sum_bytes (truncate_before sum_bytes 2 logged).1 []
    × ((truncate_before sum_bytes 2 logged).1.last_lsn ≡ logged.last_lsn)
    × ((truncate_before sum_bytes 2 logged).1.is_open ≡ true)
truncate_before-Holds_example =
    truncate_before-Holds sum_bytes 2 {w = logged} {rs = first ∷ []} append-Holds_example.1

reopen-Holds_example :
    Holds sum_bytes (open_log sum_bytes (crash logged)) (first ∷ [])
    × ((open_log sum_bytes (crash logged)).last_lsn ≡ logged.last_lsn)
    × ((open_log sum_bytes (crash logged)).is_open ≡ true)
reopen-Holds_example = reopen-Holds sum_bytes {w = logged} append-Holds_example.1

abbrev first_bytes : Bytes
first_bytes =
    1 ∷ 0 ∷ 0 ∷ 0 ∷ 0 ∷ 0 ∷ 0 ∷ 0 ∷ 0 ∷ 1 ∷ 0 ∷ 0 ∷ 0 ∷ 7 ∷ 0 ∷ 0 ∷ 0 ∷ 0 ∷ 0 ∷ 0 ∷ 0 ∷ 0 ∷ 0 ∷ 128
    ∷ 63 ∷ 200 ∷ 0 ∷ 0 ∷ 0 ∷ []

abbrev second_bytes : Bytes
second_bytes =
    2 ∷ 0 ∷ 0 ∷ 0 ∷ 0 ∷ 0 ∷ 0 ∷ 0 ∷ 1 ∷ 1 ∷ 0 ∷ 0 ∷ 0 ∷ 7 ∷ 0 ∷ 0 ∷ 0 ∷ 0 ∷ 0 ∷ 0 ∷ 0 ∷ 0 ∷ 0 ∷ 128
    ∷ 63 ∷ 202 ∷ 0 ∷ 0 ∷ 0 ∷ []

-- The first 20 of the 29 bytes of the second record.
recover-torn_example : recover_bytes sum_bytes 1 (first_bytes ++ take 20 second_bytes) ≡ first ∷ []
unfolding serialize_all serialize_record
recover-torn_example =
    recover-torn sum_bytes 1 (first ∷ []) second 20
      (first-IsWritable 1 op_insert (omega arith) (omega arith), tt)
      (first-IsWritable 2 op_delete (omega arith) (omega arith)) refl refl (omega arith)

-- The second record with the checksum 0, and a whole record behind it.
recover-damaged_example :
    recover_bytes sum_bytes 1 (
      first_bytes
      ++ (take 13 second_bytes
          ++ (take 12 (drop 13 second_bytes) ++ ((0 ∷ 0 ∷ 0 ∷ 0 ∷ []) ++ first_bytes))))
    ≡ first ∷ []
unfolding serialize_all serialize_record from_le
recover-damaged_example =
    recover-damaged sum_bytes 1 (first ∷ []) (first ∷ []) (take 13 second_bytes)
      (take 12 (drop 13 second_bytes)) (0 ∷ 0 ∷ 0 ∷ 0 ∷ [])
      (first-IsWritable 1 op_insert (omega arith) (omega arith), tt) refl refl refl refl refl
      (omega arith)
