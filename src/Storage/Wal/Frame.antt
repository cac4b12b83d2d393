-- ===== src/Storage/Wal/Frame.antt =====
-- One record of the log: `_serialize_record` of vecscaledb/storage/wal.py, and the body of the loop
-- of `recover`, where `none` is a `break`.
use distributed_vector_db.Prelude.{
  ℕ, zero, suc, ◌+◌, ◌*◌, ◌%◌, ◌^◌, Option, none, some, List, [], ◌∷◌, ◌++◌, take, drop, length,
  not, ◌&&◌, ◌==◌, ltb, is_empty, if◌then◌else◌,
}
use distributed_vector_db.Prelude.Outcome.{Outcome, ok, struct_error, raise_if, ◌>>=◌, ◌>>◌}
use distributed_vector_db.Arrays.{IdPattern, NdArray, check_shape}
use distributed_vector_db.Storage.Wal.Words.{
  Bytes, to_le, from_le, encode_words, decode_words, reshape, flatten_rows,
}

pub record WalRecord : Type 0 where
  pub lsn : ℕ
  pub op_type : ℕ
  pub ids : List IdPattern
  pub vectors : NdArray

abbrev pub op_insert : ℕ
op_insert = 0

abbrev pub op_delete : ℕ
op_delete = 1

-- `struct.Struct("<QB I")` and `struct.Struct("<I")`
abbrev pub header_size : ℕ
header_size = 13

abbrev pub checksum_size : ℕ
checksum_size = 4

abbrev pub header_bytes : ℕ → ℕ → ℕ → Bytes
header_bytes lsn op_type count = to_le 8 lsn ++ (to_le 1 op_type ++ to_le 4 count)

-- `_HEADER.pack` raises when a value does not fit.
abbrev pub pack_header : ℕ → ℕ → ℕ → Outcome Bytes
pack_header lsn op_type count = do
  raise_if (not (ltb lsn (256 ^ 8) && (ltb op_type (256 ^ 1) && ltb count (256 ^ 4)))) struct_error
  ok (header_bytes lsn op_type count)

abbrev pub body_bytes : List IdPattern → NdArray → Bytes
body_bytes ids vectors = encode_words 8 ids ++ encode_words 4 (flatten_rows vectors.rows)

-- The header of a record that has one, and how many bytes its body has.
abbrev pub header_lsn : Bytes → ℕ
header_lsn h = from_le (take 8 h)

abbrev pub header_op : Bytes → ℕ
header_op h = from_le (take 1 (drop 8 h))

abbrev pub header_count : Bytes → ℕ
header_count h = from_le (take 4 (drop 9 h))

-- What the body of a complete record says.
abbrev pub decoded : ℕ → Bytes → Bytes → WalRecord
decoded dim header body =
    let count = header_count header in
    record {
      lsn = header_lsn header;
      op_type = header_op header;
      ids = decode_words 8 count (take (count * 8) body);
      vectors = record {
        ndim = 2;
        width = dim;
        rows = reshape count dim (decode_words 4 (count * dim) (drop (count * 8) body));
      };
    }

abbrev pub body_size : ℕ → Bytes → ℕ
body_size dim header = header_count header * 8 + header_count header * dim * 4

module _ (crc32 : Bytes → ℕ) where
  -- `zlib.crc32(header + body) & 0xFFFFFFFF`
  abbrev pub checksum : Bytes → ℕ
  checksum bytes = crc32 bytes % 256 ^ 4

  abbrev pub framed : Bytes → Bytes → Bytes
  framed header body = header ++ (body ++ to_le 4 (checksum (header ++ body)))

  module _ (dim : ℕ) where
    unfoldable pub serialize_record : WalRecord → Outcome Bytes
    unfolding encode_words flatten_rows to_le
    serialize_record r = do
      check_shape dim r.ids r.vectors
      header ← pack_header r.lsn r.op_type (length r.ids)
      ok (framed header (body_bytes r.ids r.vectors))

    -- The loop of `truncate_before` that writes the records one after the other.
    unfoldable pub serialize_all : List WalRecord → Outcome Bytes
    serialize_all [] = ok []
    serialize_all (r ∷ rs) = do
      first ← serialize_record r
      others ← serialize_all rs
      ok (first ++ others)

    abbrev pub checked : Bytes → Bytes → Bytes → Bytes → Option (WalRecord × Bytes)
    checked header body stored rest =
        if not (length body == body_size dim header)
        then none
        else if not (length stored == checksum_size)
        then none
        else if not (from_le stored == checksum (header ++ body))
        then none
        else some (decoded dim header body, rest)

    -- One round of the loop: three reads and the tests.
    unfoldable pub read_record : Bytes → Option (WalRecord × Bytes)
    unfolding from_le decode_words reshape
    read_record bytes =
        let header = take header_size bytes in
        let after = drop header_size bytes in
        if is_empty header
        then none
        else if not (length header == header_size)
        then none
        else checked header (take (body_size dim header) after)
            (take checksum_size (drop (body_size dim header) after))
            (drop checksum_size (drop (body_size dim header) after))

    -- A round takes thirteen bytes at least, so the number of bytes is fuel enough.
    unfoldable pub recover_from : ℕ → Bytes → List WalRecord
    recover_from zero bytes = []
    recover_from (suc fuel) bytes = elim (read_record bytes) [
      | none ↦ []
      | some (r, rest) ↦ r ∷ recover_from fuel rest
    ]

    unfoldable pub recover_bytes : Bytes → List WalRecord
    recover_bytes bytes = recover_from (length bytes) bytes
