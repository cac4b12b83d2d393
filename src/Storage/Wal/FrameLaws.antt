-- ===== src/Storage/Wal/FrameLaws.antt =====
-- A record that was written whole is read back, and what is not a whole record ends the reading.
use distributed_vector_db.Prelude.{
  ℕ, zero, suc, ◌+◌, ◌*◌, ◌^◌, ◌≤◌, ◌<◌, ◌≡◌, ◌≢◌, refl, sym, ap, ◌∙◌, none, some, [], ◌∷◌, ◌++◌,
  take, drop, length, length-append, length-take, length-drop, All, not, ◌==◌, Bool-cases, inl, inr,
  leb, leb→le, arith, if◌then◌else◌, is_empty,
}
use mathlib.Core.List.{append_assoc, append-nil}
use distributed_vector_db.Prelude.Outcome.{ok}
use distributed_vector_db.Storage.Wal.Words.{
  Bytes, to_le, from_le, encode_words, decode_words, reshape, flatten_rows, length-to_le,
  from_le-to_le, length-encode_words, take_of_length, drop_of_length, decode-encode_words,
  length-flatten_rows, reshape-flatten_rows, All-flatten_rows,
}
use distributed_vector_db.Storage.Wal.Frame.{
  WalRecord, header_bytes, header_lsn, header_op, header_count, body_bytes, body_size, checksum,
  framed, decoded, checked, serialize_record, read_record,
}

-- A record of arrays of the right shape, whose numbers fit their fields.
pub record IsWritable (dim : ℕ) (r : WalRecord) : Type 0 where
  pub lsn_fits : r.lsn < 256 ^ 8
  pub op_fits : r.op_type < 256 ^ 1
  pub count_fits : length r.ids < 256 ^ 4
  pub ids_fit : All (λ i. i < 256 ^ 8) r.ids
  pub matrix : r.vectors.ndim ≡ 2
  pub width : r.vectors.width ≡ dim
  pub paired : length r.ids ≡ length r.vectors.rows
  pub even : All (λ v. length v ≡ dim) r.vectors.rows
  pub floats_fit : All (λ v. All (λ x. x < 256 ^ 4) v) r.vectors.rows

abbrev pub header_of : WalRecord → Bytes
header_of r = header_bytes r.lsn r.op_type (length r.ids)

abbrev pub body_of : WalRecord → Bytes
body_of r = body_bytes r.ids r.vectors

pub length-header : (a b c : ℕ) → length (header_bytes a b c) ≡ 13
length-header a b c = omega (
  arith,
  length-append (to_le 8 a) (to_le 1 b ++ to_le 4 c),
  length-append (to_le 1 b) (to_le 4 c),
  length-to_le 8 a,
  length-to_le 1 b,
  length-to_le 4 c,
)

header_lsn_lem : (a b c : ℕ) → a < 256 ^ 8 → header_lsn (header_bytes a b c) ≡ a
header_lsn_lem a b c h =
    rw (take_of_length 8 (to_le 8 a) (to_le 1 b ++ to_le 4 c) (length-to_le 8 a))
      (from_le-to_le 8 a h)

header_op_lem : (a b c : ℕ) → b < 256 ^ 1 → header_op (header_bytes a b c) ≡ b
header_op_lem a b c h =
    rw (drop_of_length 8 (to_le 8 a) (to_le 1 b ++ to_le 4 c) (length-to_le 8 a))
      (rw (take_of_length 1 (to_le 1 b) (to_le 4 c) (length-to_le 1 b)) (from_le-to_le 1 b h))

take-all : (n : ℕ) (xs : Bytes) → length xs ≡ n → take n xs ≡ xs
take-all n xs h = ap (take n) (rw append-nil) ∙ take_of_length n xs [] h

header_count_lem : (a b c : ℕ) → c < 256 ^ 4 → header_count (header_bytes a b c) ≡ c
header_count_lem a b c h = rw (← append_assoc) (
    rw
      (drop_of_length 9 (to_le 8 a ++ to_le 1 b) (to_le 4 c)
        (omega (arith, length-append (to_le 8 a) (to_le 1 b), length-to_le 8 a, length-to_le 1 b)))
      (rw (take-all 4 (to_le 4 c) (length-to_le 4 c)) (from_le-to_le 4 c h)))

regroup : (h b c rest : Bytes) → (h ++ (b ++ c)) ++ rest ≡ h ++ (b ++ (c ++ rest))
regroup h b c rest = simp append_assoc

take-take : (m n : ℕ) (xs : Bytes) → m ≤ n → take m (take n xs) ≡ take m xs
take-take zero n xs h = refl
take-take (suc m) zero xs h = absurd (omega arith)
take-take (suc m) (suc n) [] h = refl
take-take (suc m) (suc n) (x ∷ xs) h = ap (◌∷◌ x) (take-take m n xs (omega arith))

module _ (dim : ℕ) (r : WalRecord) (w : IsWritable dim r) where
  decode_ids : decode_words 8 (length r.ids) (take (length r.ids * 8) (body_of r)) ≡ r.ids
  decode_ids =
      rw
        (take_of_length (length r.ids * 8) (encode_words 8 r.ids)
          (encode_words 4 (flatten_rows r.vectors.rows)) (length-encode_words 8 r.ids))
        (ap (decode_words 8 (length r.ids)) (rw append-nil)
          ∙ decode-encode_words 8 r.ids [] w.ids_fit)

  length-floats : length (flatten_rows r.vectors.rows) ≡ length r.ids * dim
  length-floats =
      length-flatten_rows dim r.vectors.rows w.even ∙ ap (λ (n : ℕ). n * dim) (sym w.paired)

  decode_floats :
      decode_words 4 (length r.ids * dim) (encode_words 4 (flatten_rows r.vectors.rows))
      ≡ flatten_rows r.vectors.rows
  decode_floats = rw (← length-floats) (
      ap (decode_words 4 (length (flatten_rows r.vectors.rows))) (rw append-nil)
      ∙ decode-encode_words 4 (flatten_rows r.vectors.rows) []
          (All-flatten_rows (256 ^ 4) r.vectors.rows w.floats_fit))

  decode_rows :
      reshape
        (length r.ids)
        dim
        (decode_words 4 (length r.ids * dim) (drop (length r.ids * 8) (body_of r)))
      ≡ r.vectors.rows
  decode_rows =
      rw
        (drop_of_length (length r.ids * 8) (encode_words 8 r.ids)
          (encode_words 4 (flatten_rows r.vectors.rows)) (length-encode_words 8 r.ids))
        (rw decode_floats (rw w.paired (reshape-flatten_rows dim r.vectors.rows w.even)))

  decoded_lem : decoded dim (header_of r) (body_of r) ≡ r
  decoded_lem = rw (header_count_lem r.lsn r.op_type (length r.ids) w.count_fits) (
      ground (
        arith,
        header_lsn_lem r.lsn r.op_type (length r.ids) w.lsn_fits,
        header_op_lem r.lsn r.op_type (length r.ids) w.op_fits,
        decode_ids,
        decode_rows,
        w.matrix,
        w.width,
      ))

  length-body : length (body_of r) ≡ body_size dim (header_of r)
  length-body = rw (header_count_lem r.lsn r.op_type (length r.ids) w.count_fits) (
      omega (
        arith,
        length-append (encode_words 8 r.ids) (encode_words 4 (flatten_rows r.vectors.rows)),
        length-encode_words 8 r.ids,
        length-encode_words 4 (flatten_rows r.vectors.rows),
        length-floats,
      ))

module _ (crc32 : Bytes → ℕ) (dim : ℕ) where
  pub read-parts :
      (h b c rest : Bytes)
      → length h ≡ 13
      → length b ≡ body_size dim h
      → length c ≡ 4
      → read_record crc32 dim (h ++ (b ++ (c ++ rest))) ≡ checked crc32 dim h b c rest
  unfolding read_record
  read-parts h b c rest lh lb lc = rw (take_of_length 13 h (b ++ (c ++ rest)) lh) (
      rw (drop_of_length 13 h (b ++ (c ++ rest)) lh) (
        rw (take_of_length (body_size dim h) b (c ++ rest) lb) (
          rw (drop_of_length (body_size dim h) b (c ++ rest) lb)
            (rw (take_of_length 4 c rest lc) (rw (drop_of_length 4 c rest lc) (starts h lh))))))
    where
      starts :
          (h : Bytes)
          → length h ≡ 13
          → (if is_empty h
              then none
              else if not (length h == 13)
              then none
              else checked crc32 dim h b c rest)
            ≡ checked crc32 dim h b c rest
      starts [] lh = absurd (omega arith)
      starts (x ∷ h) lh = ground arith

  pub serialize_record_lem :
      (r : WalRecord)
      → IsWritable dim r
      → serialize_record crc32 dim r ≡ ok (framed crc32 (header_of r) (body_of r))
  unfolding serialize_record
  serialize_record_lem r w = ground (arith, w.lsn_fits, w.op_fits, w.count_fits)

  -- With fewer bytes than a body and a checksum need, one of the tests fails.
  short_checksum :
      (h after : Bytes)
      → length after < body_size dim h + 4
      → (if is_empty h
          then none
          else if not (length h == 13)
          then none
          else checked crc32 dim h
              (take (body_size dim h) after)
              (take 4 (drop (body_size dim h) after))
              (drop 4 (drop (body_size dim h) after)))
        ≡ none
  short_checksum h after few =
      ground
        (arith, length-take 4 (drop (body_size dim h) after), length-drop (body_size dim h) after)

  cut_header : (s : Bytes) (n : ℕ) → n < 13 → read_record crc32 dim (take n s) ≡ none
  unfolding read_record
  cut_header s n h = ground (arith, length-take 13 (take n s), length-take n s)

  cut_body :
      (h b c : Bytes) (n : ℕ)
      → length h ≡ 13
      → length b ≡ body_size dim h
      → length c ≡ 4
      → 13 ≤ n
      → n < 13 + length b + 4
      → read_record crc32 dim (take n (h ++ (b ++ c))) ≡ none
  unfolding read_record
  cut_body h b c n lh lb lc full short = rw (take-take 13 n (h ++ (b ++ c)) full) (
      rw (take_of_length 13 h (b ++ c) lh) (
        short_checksum h (drop 13 (take n (h ++ (b ++ c)))) (
          omega (
            arith,
            length-drop 13 (take n (h ++ (b ++ c))),
            length-take n (h ++ (b ++ c)),
            length-append h (b ++ c),
            length-append b c,
          ))))

  cut_parts :
      (h b c : Bytes) (n : ℕ)
      → length h ≡ 13
      → length b ≡ body_size dim h
      → length c ≡ 4
      → n < 13 + length b + 4
      → read_record crc32 dim (take n (h ++ (b ++ c))) ≡ none
  cut_parts h b c n lh lb lc short = elim (Bool-cases (leb 13 n)) [
    | inl full ↦ cut_body h b c n lh lb lc (leb→le 13 n full) short
    | inr part ↦ cut_header (h ++ (b ++ c)) n (ground arith)
  ]

  -- A record that was written whole is read back, whatever follows it.
  pub read-serialize :
      (r : WalRecord) (rest : Bytes)
      → IsWritable dim r
      → read_record crc32 dim (framed crc32 (header_of r) (body_of r) ++ rest) ≡ some (r, rest)
  read-serialize r rest w = rw (regroup (header_of r) (body_of r) (to_le 4 sum) rest) (
      read-parts (header_of r) (body_of r) (to_le 4 sum) rest
        (length-header r.lsn r.op_type (length r.ids)) (length-body dim r w) (length-to_le 4 sum)
      ∙ ground (
        arith,
        length-body dim r w,
        length-to_le 4 sum,
        from_le-to_le 4 sum (omega arith),
        decoded_lem dim r w,
      ))
    where
      sum : ℕ
      sum = checksum crc32 (header_of r ++ body_of r)

  -- The first bytes of a record, short of all, are no record.
  pub read-torn :
      (r : WalRecord) (n : ℕ)
      → IsWritable dim r
      → n < length (framed crc32 (header_of r) (body_of r))
      → read_record crc32 dim (take n (framed crc32 (header_of r) (body_of r))) ≡ none
  read-torn r n w h =
      let sum : Bytes = to_le 4 (checksum crc32 (header_of r ++ body_of r)) in
      cut_parts (header_of r) (body_of r) sum n (length-header r.lsn r.op_type (length r.ids))
        (length-body dim r w) (length-to_le 4 _)
        (omega (
          arith,
          length-append (header_of r) (body_of r ++ sum),
          length-append (body_of r) sum,
          length-to_le 4 (checksum crc32 (header_of r ++ body_of r)),
          length-header r.lsn r.op_type (length r.ids),
        ))

  -- A record with another checksum than its own is no record, whatever follows it.
  pub read-damaged :
      (h b c rest : Bytes)
      → length h ≡ 13
      → length b ≡ body_size dim h
      → length c ≡ 4
      → from_le c ≢ checksum crc32 (h ++ b)
      → read_record crc32 dim (h ++ (b ++ (c ++ rest))) ≡ none
  read-damaged h b c rest lh lb lc wrong = read-parts h b c rest lh lb lc ∙ ground (arith, wrong)
