-- ===== src/Storage/Wal/Recovery.antt =====
-- What `recover` returns from a log file: the whole records in front, up to the first bytes that
-- are no record.
use distributed_vector_db.Prelude.{
  ℕ, zero, suc, ◌≤◌, ◌<◌, ◌≡◌, ◌≢◌, refl, ap, ◌∙◌, sym, none, some, List, [], ◌∷◌, ◌++◌, take,
  length, length-append, All, arith,
}
use mathlib.Core.List.{append_assoc}
use distributed_vector_db.Prelude.Outcome.{ok}
use distributed_vector_db.Storage.Wal.Words.{Bytes, to_le, from_le}
use distributed_vector_db.Storage.Wal.Frame.{
  WalRecord, body_size, checksum, framed, serialize_record, serialize_all, read_record,
  recover_from, recover_bytes,
}
use distributed_vector_db.Storage.Wal.FrameLaws.{
  IsWritable, header_of, body_of, length-header, serialize_record_lem, read-serialize, read-torn,
  read-damaged,
}

ok-injective {ℓ} : {A : Type ℓ} {a b : A} → ok a ≡ ok b → a ≡ b
ok-injective e = cc

module _ (crc32 : Bytes → ℕ) where
  abbrev pub frame : WalRecord → Bytes
  frame r = framed crc32 (header_of r) (body_of r)

  abbrev pub log_bytes : List WalRecord → Bytes
  log_bytes [] = []
  log_bytes (r ∷ rs) = frame r ++ log_bytes rs

  pub log_bytes-append :
      (rs ss : List WalRecord) → log_bytes (rs ++ ss) ≡ log_bytes rs ++ log_bytes ss
  log_bytes-append [] ss = refl
  log_bytes-append (r ∷ rs) ss = rw (log_bytes-append rs ss) (simp append_assoc)

  module _ (dim : ℕ) where
    pub serialize_all_lem :
        (rs : List WalRecord)
        → All (IsWritable dim) rs
        → serialize_all crc32 dim rs ≡ ok (log_bytes rs)
    unfolding serialize_all
    serialize_all_lem [] w = refl
    serialize_all_lem (r ∷ rs) w =
        rw (serialize_record_lem crc32 dim r w.0) (rw (serialize_all_lem rs w.1))

    length-log_bytes : (rs : List WalRecord) → length rs ≤ length (log_bytes rs)
    length-log_bytes [] = omega arith
    length-log_bytes (r ∷ rs) = omega (
      arith,
      length-append (frame r) (log_bytes rs),
      length-append (header_of r)
          (body_of r ++ to_le 4 (checksum crc32 (header_of r ++ body_of r))),
      length-header r.lsn r.op_type (length r.ids),
      length-log_bytes rs,
    )

    recover_from-some :
        (fuel : ℕ) (r : WalRecord) (bytes rest : Bytes)
        → read_record crc32 dim bytes ≡ some (r, rest)
        → recover_from crc32 dim (suc fuel) bytes ≡ r ∷ recover_from crc32 dim fuel rest
    unfolding recover_from
    recover_from-some fuel r bytes rest e = rw (e, recover_from)

    recover_from-log :
        (fuel : ℕ) (rs : List WalRecord) (rest : Bytes)
        → All (IsWritable dim) rs
        → read_record crc32 dim rest ≡ none
        → length rs ≤ fuel
        → recover_from crc32 dim fuel (log_bytes rs ++ rest) ≡ rs
    unfolding recover_from
    recover_from-log zero [] rest w e h = refl
    recover_from-log (suc fuel) [] rest w e h = rw (e, recover_from)
    recover_from-log zero (r ∷ rs) rest w e h = absurd (omega arith)
    recover_from-log (suc fuel) (r ∷ rs) rest w e h =
        rw (append_assoc (frame r) (log_bytes rs) rest) (
          recover_from-some fuel r _ (log_bytes rs ++ rest)
            (read-serialize crc32 dim r (log_bytes rs ++ rest) w.0)
          ∙ ap (◌∷◌ r) (recover_from-log fuel rs rest w.1 e (omega arith)))

    -- Where nothing more can be read behind the records, they are what comes back.
    pub recover-log :
        (rs : List WalRecord) (rest : Bytes)
        → All (IsWritable dim) rs
        → read_record crc32 dim rest ≡ none
        → recover_bytes crc32 dim (log_bytes rs ++ rest) ≡ rs
    unfolding recover_bytes
    recover-log rs rest w e =
        recover_from-log _ rs rest w e
          (omega (arith, length-append (log_bytes rs) rest, length-log_bytes rs))

    pub read-nothing : read_record crc32 dim [] ≡ none
    unfolding read_record
    read-nothing = refl

    -- A log whose last write was torn: the records written before come back, in order, and nothing
    -- of the torn one, wherever the write stopped.
    pub recover-torn :
        (rs : List WalRecord) (r : WalRecord) (n : ℕ) {log last : Bytes}
        → All (IsWritable dim) rs
        → IsWritable dim r
        → serialize_all crc32 dim rs ≡ ok log
        → serialize_record crc32 dim r ≡ ok last
        → n < length last
        → recover_bytes crc32 dim (log ++ take n last) ≡ rs
    recover-torn rs r n w wr el er short = rw (← ok-injective (sym (serialize_all_lem rs w) ∙ el)) (
        rw (← ok-injective (sym (serialize_record_lem crc32 dim r wr) ∙ er)) (
          recover-log rs (take n (frame r)) w (
            read-torn crc32 dim r n wr
              (rw (ok-injective (sym (serialize_record_lem crc32 dim r wr) ∙ er)) short))))

    -- Behind a record whose checksum is wrong nothing is read, however well it was written.
    pub recover-damaged :
        (rs later : List WalRecord) (h b c : Bytes) {log tail : Bytes}
        → All (IsWritable dim) rs
        → serialize_all crc32 dim rs ≡ ok log
        → serialize_all crc32 dim later ≡ ok tail
        → length h ≡ 13
        → length b ≡ body_size dim h
        → length c ≡ 4
        → from_le c ≢ checksum crc32 (h ++ b)
        → recover_bytes crc32 dim (log ++ (h ++ (b ++ (c ++ tail)))) ≡ rs
    recover-damaged rs later h b c {tail = tail} w el et lh lb lc wrong =
        rw (← ok-injective (sym (serialize_all_lem rs w) ∙ el)) (
          recover-log rs (h ++ (b ++ (c ++ tail))) w
            (read-damaged crc32 dim h b c tail lh lb lc wrong))
