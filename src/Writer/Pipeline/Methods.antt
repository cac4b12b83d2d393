-- ===== src/Writer/Pipeline/Methods.antt =====
-- vecscaledb/writer/pipeline.py: the methods of `WriterPipeline`.
use distributed_vector_db.Prelude.{
  ℕ, max, List, [], ◌∷◌, Bool, true, false, not, ◌&&◌, ◌||◌, ◌==◌, length, map, if◌then◌else◌,
  String,
}
use distributed_vector_db.Prelude.Eq.{nat_eq, string_eq}
use distributed_vector_db.Prelude.Dict.{Dict}
use distributed_vector_db.Prelude.Set.{contains, add, difference}
use distributed_vector_db.Prelude.Outcome.{ok, raise}
use distributed_vector_db.Arrays.{IdPattern, NdArray, check_shape}
use distributed_vector_db.Index.Faiss.{Faiss}
use distributed_vector_db.Index.Segment.{Segment, SegmentMeta}
use distributed_vector_db.Storage.Wal.Words.{Bytes}
use distributed_vector_db.Storage.Lsm.Start
use distributed_vector_db.Storage.Lsm.Writes
use distributed_vector_db.Storage.Lsm.Compaction
use distributed_vector_db.Writer.Pipeline.{
  CoordinatorApi, Pipeline, InsertReply, DeleteReply, Group, group_rows, group_ids, Act, pure, gets,
  modify, ◌>>=◌, ◌>>◌, call, on_engine, shard_ids, each_engine, health, segments,
}

module _ {Index S : Type 0} (api : CoordinatorApi S) where
  -- The loop over the remote segments: a stale one is taken off.
  abbrev pub clean_remote :
      List ℕ → List String → List SegmentMeta → Act (Pipeline Index S) (Unit {0})
  clean_remote shards local_ids [] = pure tt
  clean_remote shards local_ids (m ∷ remote) =
      (if contains m.shard_id shards && not (contains m.segment_id local_ids)
        then call (api.delete_segment m.segment_id)
          >> modify (λ p. record p {
            registered_segments = difference p.registered_segments (m.segment_id ∷ []);
          })
        else pure tt)
      >> clean_remote shards local_ids remote

  -- The loop over the local segments: a new one is registered.
  abbrev pub register_local : List (Segment Index) → Act (Pipeline Index S) (Unit {0})
  register_local [] = pure tt
  register_local (s ∷ local) =
      (gets (λ p. contains s.segment_id p.registered_segments) >>= λ known.
      if known
      then pure tt
      else call (api.register_segment s.meta)
        >> modify (λ p. record p { registered_segments = add s.segment_id p.registered_segments }))
      >> register_local local

  unfoldable pub register_unregistered_segments : Act (Pipeline Index S) (Unit {0})
  register_unregistered_segments = do
    local ← gets segments
    remote ← call api.get_all_segments
    shards ← gets shard_ids
    clean_remote shards (map (λ s. s.segment_id) local) remote
    register_local local

  -- `_load_registered_segments`; an exception counts as no segments.
  unfoldable pub load_registered_segments : Act (Pipeline Index S) (Unit {0})
  load_registered_segments p =
      let (o, s) = api.get_all_segments p.coordinator in
      let registered : List SegmentMeta = elim o [ raise x ↦ [] | ok metas ↦ metas ] in
      (
        ok tt,
        record p { coordinator = s; registered_segments = map (λ m. m.segment_id) registered },
      )

  unfoldable pub register_self : Act (Pipeline Index S) (Unit {0})
  register_self = do
    info ← gets (λ p. record {
      node_id = p.node_id;
      role = "writer";
      address = p.writer_url;
      shard_ids = shard_ids p;
    })
    call (api.register_node info)

  module _ (faiss : Faiss Index) (uuid : ℕ → String) (crc32 : Bytes → ℕ) where
    unfoldable pub start : Act (Pipeline Index S) (Unit {0})
    unfolding register_unregistered_segments load_registered_segments register_self
    start = do
      register_self
      shards ← gets shard_ids
      each_engine (Start.start faiss crc32) shards
      load_registered_segments
      register_unregistered_segments
      modify (λ p. record p { started = true })

    abbrev pub stop_started : Act (Pipeline Index S) (Unit {0})
    stop_started = do
      shards ← gets shard_ids
      each_engine (Compaction.stop faiss uuid crc32) shards
      modify (λ p. record p { started = false })

    unfoldable pub stop : Act (Pipeline Index S) (Unit {0})
    stop = gets (λ p. p.started) >>= λ started. if started then stop_started else pure tt

    -- The loop over the groups, with the greatest LSN and whether a segment was flushed.
    abbrev pub insert_groups : Dict ℕ Group → ℕ × Bool → Act (Pipeline Index S) (ℕ × Bool)
    insert_groups [] result = pure result
    insert_groups ((shard, (ids, rows)) ∷ groups) (lsn, flushed) = gets (λ p. p.dim) >>= λ dim.
        on_engine shard
          (Writes.insert faiss uuid crc32 ids (record { ndim = 2; width = dim; rows = rows }))
        >>= λ r. insert_groups groups (max lsn r.0, flushed || r.1)

    unfoldable pub insert_vectors : List IdPattern → NdArray → Act (Pipeline Index S) InsertReply
    unfolding register_unregistered_segments health
    insert_vectors ids vectors = do
      λ p. (check_shape p.dim ids vectors, p)
      n ← gets (λ p. p.num_shards)
      r ←
          if n == 1
          then on_engine 0 (Writes.insert faiss uuid crc32 ids vectors)
          else insert_groups (group_rows n ids vectors.rows []) (0, false)
      register_unregistered_segments
      h ← health
      pure (record { lsn = r.0; inserted = length ids; segment_flushed = r.1; health = h })

    abbrev pub delete_groups : Dict ℕ (List IdPattern) → ℕ → Act (Pipeline Index S) ℕ
    delete_groups [] lsn = pure lsn
    delete_groups ((shard, ids) ∷ groups) lsn =
        on_engine shard (Writes.delete crc32 ids) >>= λ l. delete_groups groups (max lsn l)

    unfoldable pub delete_vectors : List IdPattern → Act (Pipeline Index S) DeleteReply
    unfolding health
    delete_vectors ids = do
      n ← gets (λ p. p.num_shards)
      lsn ←
          if n == 1
          then on_engine 0 (Writes.delete crc32 ids)
          else delete_groups (group_ids n ids []) 0
      h ← health
      pure (record { deleted = length ids; lsn = lsn; health = h })
