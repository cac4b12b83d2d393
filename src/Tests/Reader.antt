-- ===== src/Tests/Reader.antt =====
-- A reader with an empty cache, one search, one refresh and one failed refresh.
use distributed_vector_db.Prelude.{ℕ, some, List, false}
use distributed_vector_db.Prelude.Outcome.{ok}
use distributed_vector_db.Index.Segment
use distributed_vector_db.Reader.Cache
use distributed_vector_db.Reader.Service.{ReaderService, SegmentSource}
use distributed_vector_db.Tests.Cache.{cache, metas}

abbrev source : SegmentSource ℕ
source = record {
  register_node = λ info calls. (ok tt, calls);
  get_all_segments = λ calls. (ok metas, calls);
}

abbrev reader : ReaderService (List ℕ) ℕ
reader = record {
  node_id = "reader-0";
  dim = 1;
  shard_id = 0;
  load_all_shards = false;
  max_segments_in_memory = 1;
  coordinator_client = some 0;
  cache = some (cache 1);
  first_refresh_complete = false;
}
