-- ===== src/Storage/Wal.antt =====
-- vecscaledb/storage/wal.py: `class WAL`. The log file is a list of bytes, and the meta file holds
-- the last LSN. `zlib.crc32` is a parameter.
--
-- Files are written at once: a crash in the middle of a write is a torn end of the log file, which
-- the theorems of Storage/Wal/Recovery range over.
pub mod Words
pub mod Frame
pub mod FrameLaws
pub mod Recovery
pub mod Invariant
use distributed_vector_db.Prelude.{
  ℕ, ◌+◌, max, Option, none, some, List, [], ◌∷◌, ◌++◌, Bool, true, false, not, keep, leb,
  if◌then◌else◌,
}
use distributed_vector_db.Prelude.Outcome.{
  Outcome, ok, raise, runtime_error, file_not_found, ◌>>=◌, ◌>>◌, raise_if,
}
use distributed_vector_db.Arrays.{IdPattern, NdArray, check_shape}
use Words.{Bytes}
use Frame.{WalRecord, serialize_record, serialize_all, recover_bytes}

-- `file` and `meta` are on disk, `none` for a missing file; the rest is in memory.
pub record Wal : Type 0 where
  pub dim : ℕ
  pub file : Option Bytes
  pub meta : Option ℕ
  pub is_open : Bool
  pub last_lsn : ℕ

-- `WAL.__init__`, over what is on disk.
abbrev pub init : ℕ → Option Bytes → Option ℕ → Wal
init dim file meta = record { dim = dim; file = file; meta = meta; is_open = false; last_lsn = 0 }

-- `recovered[-1].lsn if recovered else 0`
abbrev pub last_record_lsn : List WalRecord → ℕ
last_record_lsn [] = 0
last_record_lsn (r ∷ []) = r.lsn
last_record_lsn (r ∷ r' ∷ rs) = last_record_lsn (r' ∷ rs)

abbrev pub read_meta_lsn : Wal → ℕ
read_meta_lsn w = elim w.meta [ none ↦ 0 | some n ↦ n ]

abbrev pub write_meta_lsn : Wal → Wal
write_meta_lsn w = record w { meta = some w.last_lsn }

-- `open(path, "ab")`: a missing file is created.
abbrev pub open_append : Wal → Wal
open_append w = record w { file = elim w.file [ none ↦ some [] | some b ↦ some b ]; is_open = true }

pub close : Wal → Wal
close w = record w { is_open = false }

-- A process that stops keeps what is on disk.
abbrev pub crash : Wal → Wal
crash w = init w.dim w.file w.meta

module _ (crc32 : Bytes → ℕ) where
  unfoldable pub recover : Wal → List WalRecord
  recover w = elim w.file [ none ↦ [] | some b ↦ recover_bytes crc32 w.dim b ]

  -- `WAL.open`
  unfoldable pub open_log : Wal → Wal
  open_log w =
      write_meta_lsn
        (open_append (record w { last_lsn = max (read_meta_lsn w) (last_record_lsn (recover w)) }))

  -- `self._file.write(payload)`
  abbrev pub write_payload : Bytes → Wal → Wal
  write_payload payload w = record w {
    file = elim w.file [ none ↦ some payload | some b ↦ some (b ++ payload) ];
  }

  abbrev pub written : Outcome Bytes → Wal → Outcome ℕ × Wal
  written (raise e) w = (raise e, w)
  written (ok payload) w = (ok w.last_lsn, write_meta_lsn (write_payload payload w))

  unfoldable pub append : ℕ → List IdPattern → NdArray → Wal → Outcome ℕ × Wal
  append op_type ids vectors w =
      elim (do raise_if (not w.is_open) runtime_error; check_shape w.dim ids vectors) [
        | raise e ↦ (raise e, w)
        | ok _ ↦
            let w' : Wal = record w { last_lsn = w.last_lsn + 1 } in
            written
              (serialize_record crc32 w.dim
                (record { lsn = w'.last_lsn; op_type = op_type; ids = ids; vectors = vectors }))
              w'
      ]

  unfoldable pub read_from : ℕ → Wal → List WalRecord
  unfolding recover
  read_from lsn w = keep (λ r. leb lsn r.lsn) (recover w)

  abbrev pub replaced : Outcome Bytes → Wal → Outcome (Unit {0}) × Wal
  replaced (raise e) w = (raise e, record w { is_open = false })
  replaced (ok payload) w = (ok tt, open_append (write_meta_lsn (record w { file = some payload })))

  unfoldable pub truncate_before : ℕ → Wal → Outcome (Unit {0}) × Wal
  truncate_before lsn w =
      replaced (serialize_all crc32 w.dim (keep (λ r. leb lsn r.lsn) (recover w))) w
