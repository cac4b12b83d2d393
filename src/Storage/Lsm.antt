-- ===== src/Storage/Lsm.antt =====
-- vecscaledb/storage/lsm.py: `class LSMEngine`.
--
-- Nothing inside an `async with self._lock` block awaits, so that a method runs from one `await` of
-- its caller to the next without another one between, and is modelled as one step.
pub mod State
pub mod Files
pub mod Visibility
pub mod Merging
pub mod Start
pub mod Compaction
pub mod Writes
pub mod Reads
pub mod View
pub mod Invariant
pub mod History
