-- ===== src/Storage/Wal/Invariant.antt =====
-- An open log against the list of records that were appended and not truncated: every operation of
-- `class WAL` is one on the list, and a restart changes nothing.
use distributed_vector_db.Prelude.{
  ℕ, ◌+◌, ◌≤◌, ◌<◌, ◌≡◌, refl, ap, ◌∙◌, sym, none, some, List, [], ◌∷◌, ◌++◌, All, All-append, Bool,
  true, keep, leb, arith, Option-cases, inl, inr,
}
use mathlib.Core.List.{append-nil}
use distributed_vector_db.Prelude.Outcome.{ok}
use distributed_vector_db.Arrays.{IdPattern, NdArray}
use distributed_vector_db.Storage.Wal.{
  Wal, last_record_lsn, crash, recover, open_log, append, truncate_before,
}
use distributed_vector_db.Storage.Wal.Words.{Bytes}
use distributed_vector_db.Storage.Wal.Frame.{WalRecord, recover_bytes}
use distributed_vector_db.Storage.Wal.FrameLaws.{IsWritable, serialize_record_lem}
use distributed_vector_db.Storage.Wal.Recovery.{
  frame, log_bytes, log_bytes-append, serialize_all_lem, recover-log, read-nothing,
}

abbrev pub file_bytes : Wal → Bytes
file_bytes w = elim w.file [ none ↦ [] | some b ↦ b ]

-- LSNs strictly ascend along the log.
abbrev pub IsAscending : List WalRecord → Type 0
IsAscending [] = Unit
IsAscending (r ∷ rs) = All (λ s. r.lsn < s.lsn) rs × IsAscending rs

-- What is on disk holds exactly the records `rs`.
pub record Holds (crc32 : Bytes → ℕ) (w : Wal) (rs : List WalRecord) : Type 0 where
  pub bytes : file_bytes w ≡ log_bytes crc32 rs
  pub writable : All (IsWritable w.dim) rs
  pub ascending : IsAscending rs
  pub bounded : All (λ r. r.lsn ≤ w.last_lsn) rs
  pub meta : w.meta ≡ some w.last_lsn

abbrev pub entry : ℕ → ℕ → List IdPattern → NdArray → WalRecord
entry lsn op_type ids vectors = record {
  lsn = lsn;
  op_type = op_type;
  ids = ids;
  vectors = vectors;
}

All-weaken :
    (m n : ℕ) (rs : List WalRecord) → m ≤ n → All (λ r. r.lsn ≤ m) rs → All (λ r. r.lsn ≤ n) rs
All-weaken m n [] h a = tt
All-weaken m n (r ∷ rs) h a = (omega arith, All-weaken m n rs h a.1)

All-below : (n : ℕ) (rs : List WalRecord) → All (λ r. r.lsn ≤ n) rs → All (λ r. r.lsn < n + 1) rs
All-below n [] a = tt
All-below n (r ∷ rs) a = (omega arith, All-below n rs a.1)

append-IsAscending :
    (rs : List WalRecord) (r : WalRecord)
    → IsAscending rs
    → All (λ s. s.lsn < r.lsn) rs
    → IsAscending (rs ++ r ∷ [])
append-IsAscending [] r a b = (tt, tt)
append-IsAscending (s ∷ rs) r a b =
    (All-append (λ t. s.lsn < t.lsn) rs (r ∷ []) a.0 (b.0, tt), append-IsAscending rs r a.1 b.1)

All-keep :
    (P : WalRecord → Type 0) (p : WalRecord → Bool) (rs : List WalRecord)
    → All P rs
    → All P (keep p rs)
All-keep P p [] a = tt
All-keep P p (r ∷ rs) a = ground (arith, All-keep P p rs a.1)

keep-IsAscending :
    (p : WalRecord → Bool) (rs : List WalRecord) → IsAscending rs → IsAscending (keep p rs)
keep-IsAscending p [] a = tt
keep-IsAscending p (r ∷ rs) a =
    ground (arith, keep-IsAscending p rs a.1, All-keep (λ s. r.lsn < s.lsn) p rs a.0)

last_record_lsn-le :
    (n : ℕ) (rs : List WalRecord) → All (λ r. r.lsn ≤ n) rs → last_record_lsn rs ≤ n
last_record_lsn-le n [] a = omega arith
last_record_lsn-le n (r ∷ []) a = a.0
last_record_lsn-le n (r ∷ r' ∷ rs) a = last_record_lsn-le n (r' ∷ rs) a.1

module _ (crc32 : Bytes → ℕ) where
  nothing : (dim : ℕ) → recover_bytes crc32 dim [] ≡ []
  nothing dim = recover-log crc32 dim [] [] tt (read-nothing crc32 dim)

  recover-bytes : (w : Wal) → recover crc32 w ≡ recover_bytes crc32 w.dim (file_bytes w)
  unfolding recover recover_bytes
  recover-bytes w = elim (Option-cases w.file) [
    | inl e ↦ rw (e, recover) (sym (nothing w.dim))
    | inr (b, e) ↦ rw (e, recover)
  ]

  -- `recover` returns exactly what the log holds.
  pub recover-Holds : {w : Wal} {rs : List WalRecord} → Holds crc32 w rs → recover crc32 w ≡ rs
  recover-Holds {w} {rs} h =
      recover-bytes w
      ∙ ap (recover_bytes crc32 w.dim) (h.bytes ∙ sym (append-nil (log_bytes crc32 rs)))
      ∙ recover-log crc32 w.dim rs [] h.writable (read-nothing crc32 w.dim)

  append_lem :
      (op_type : ℕ) (ids : List IdPattern) (vectors : NdArray) (w : Wal)
      → w.is_open ≡ true
      → IsWritable w.dim (entry (w.last_lsn + 1) op_type ids vectors)
      → append crc32 op_type ids vectors w ≡ (
        ok (w.last_lsn + 1),
        record w {
          file = some (file_bytes w ++ frame crc32 (entry (w.last_lsn + 1) op_type ids vectors));
          meta = some (w.last_lsn + 1);
          last_lsn = w.last_lsn + 1;
        },
      )
  unfolding append
  append_lem op_type ids vectors w up fits =
      ground
        (arith, serialize_record_lem crc32 w.dim (entry (w.last_lsn + 1) op_type ids vectors) fits)

  pub append-dim :
      (op_type : ℕ) (ids : List IdPattern) (vectors : NdArray) (w : Wal)
      → (append crc32 op_type ids vectors w).1.dim ≡ w.dim
  unfolding append
  append-dim op_type ids vectors w = ground arith

  truncate_before_lem :
      (lsn : ℕ) (w : Wal) (rs : List WalRecord)
      → recover crc32 w ≡ rs
      → All (IsWritable w.dim) rs
      → truncate_before crc32 lsn w ≡ (
        ok tt,
        record w {
          file = some (log_bytes crc32 (keep (λ r. leb lsn r.lsn) rs));
          meta = some w.last_lsn;
          is_open = true;
        },
      )
  unfolding truncate_before
  truncate_before_lem lsn w rs e a = rw e (
      rw
        (serialize_all_lem crc32 w.dim (keep (λ r. leb lsn r.lsn) rs)
          (All-keep (IsWritable w.dim) (λ r. leb lsn r.lsn) rs a))
        refl)

  pub truncate_before-dim : (lsn : ℕ) (w : Wal) → (truncate_before crc32 lsn w).1.dim ≡ w.dim
  unfolding truncate_before
  truncate_before-dim lsn w = ground arith

  recover-crash : (w : Wal) → recover crc32 (crash w) ≡ recover crc32 w
  unfolding recover
  recover-crash w = refl

  open_log_lem :
      (w : Wal) (rs : List WalRecord)
      → recover crc32 w ≡ rs
      → All (λ r. r.lsn ≤ w.last_lsn) rs
      → w.meta ≡ some w.last_lsn
      → open_log crc32 (crash w)
        ≡ record w { file = some (file_bytes w); meta = some w.last_lsn; is_open = true }
  unfolding open_log
  open_log_lem w rs e a m = ground (arith, recover-crash w, last_record_lsn-le w.last_lsn rs a)

  -- An append to an open log, of arrays of the right shape that fit, returns the next LSN and adds
  -- one record with it at the end.
  pub append-Holds :
      (op_type : ℕ) (ids : List IdPattern) (vectors : NdArray) {w : Wal} {rs : List WalRecord}
      → Holds crc32 w rs
      → w.is_open ≡ true
      → IsWritable w.dim (entry (w.last_lsn + 1) op_type ids vectors)
      → let (o, w') = append crc32 op_type ids vectors w in
        (o ≡ ok (w.last_lsn + 1))
        × Holds crc32 w' (rs ++ entry (w.last_lsn + 1) op_type ids vectors ∷ [])
        × (w'.last_lsn ≡ w.last_lsn + 1)
        × (w'.is_open ≡ true)
  append-Holds op_type ids vectors {w} {rs} h up fits =
      let e : WalRecord = entry (w.last_lsn + 1) op_type ids vectors in
      rw (append_lem op_type ids vectors w up fits) (
        refl,
        record {
          bytes =
              ap (λ b. b ++ frame crc32 e) h.bytes
              ∙ (simp append-nil)
              ∙ sym (log_bytes-append crc32 rs (e ∷ []));
          writable = All-append (IsWritable w.dim) rs (e ∷ []) h.writable (fits, tt);
          ascending = append-IsAscending rs e h.ascending (All-below w.last_lsn rs h.bounded);
          bounded =
              All-append (λ r. r.lsn ≤ w.last_lsn + 1) rs (e ∷ [])
                (All-weaken w.last_lsn (w.last_lsn + 1) rs (omega arith) h.bounded) (omega arith);
          meta = refl;
        },
        refl,
        up,
      )

  -- Truncation keeps exactly the records from the given LSN on, and the last LSN.
  pub truncate_before-Holds :
      (lsn : ℕ) {w : Wal} {rs : List WalRecord}
      → Holds crc32 w rs
      → let (o, w') = truncate_before crc32 lsn w in
        (o ≡ ok tt)
        × Holds crc32 w' (keep (λ r. leb lsn r.lsn) rs)
        × (w'.last_lsn ≡ w.last_lsn)
        × (w'.is_open ≡ true)
  truncate_before-Holds lsn {w} {rs} h =
      rw (truncate_before_lem lsn w rs (recover-Holds h) h.writable) (
        refl,
        record {
          bytes = refl;
          writable = All-keep (IsWritable w.dim) (λ r. leb lsn r.lsn) rs h.writable;
          ascending = keep-IsAscending (λ r. leb lsn r.lsn) rs h.ascending;
          bounded = All-keep (λ r. r.lsn ≤ w.last_lsn) (λ r. leb lsn r.lsn) rs h.bounded;
          meta = refl;
        },
        refl,
        refl,
      )

  -- After a crash the log opens with the same records and the same last LSN.
  pub reopen-Holds :
      {w : Wal} {rs : List WalRecord}
      → Holds crc32 w rs
      → let w' = open_log crc32 (crash w) in
        Holds crc32 w' rs × (w'.last_lsn ≡ w.last_lsn) × (w'.is_open ≡ true)
  reopen-Holds {w} {rs} h = rw (open_log_lem w rs (recover-Holds h) h.bounded h.meta) (
    record {
      bytes = h.bytes;
      writable = h.writable;
      ascending = h.ascending;
      bounded = h.bounded;
      meta = refl;
    },
    refl,
    refl,
  )
