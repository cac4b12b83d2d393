-- ===== src/Index/IvfFlat/Lifecycle.antt =====
-- The order train, add, search of an index, and what a saved index answers after it is loaded.
use distributed_vector_db.Prelude.{
  ℕ, ◌≡◌, refl, some, List, [], ◌∷◌, false, not, keep, arith, All, Option-cases, inl, inr,
}
use distributed_vector_db.Prelude.Outcome.{Outcome, ok, raise, runtime_error}
use distributed_vector_db.Arrays.{IdPattern, Vector, Hit, is_negative}
use distributed_vector_db.Index.Faiss.{Faiss, KeepsFiles}
use distributed_vector_db.Index.IvfFlat.{
  IvfFlatIndex, init, add, search, save, load, ntotal, probed,
}

All-keep_places :
    (hits : List Hit) → All (λ h. is_negative h.1 ≡ false) (keep (λ h. not (is_negative h.1)) hits)
All-keep_places [] = tt
All-keep_places ((d, i) ∷ hits) = ground (arith, All-keep_places hits)

abbrev pub hits_of : {Index : Type 0} → Outcome (List Hit × IvfFlatIndex Index) → Outcome (List Hit)
hits_of (ok (hits, x)) = ok hits
hits_of (raise e) = raise e

module _ {Index : Type 0} (faiss : Faiss Index) where
  -- Before it is trained, an index takes no vectors and answers no search, and cannot be saved.
  pub untrained_raises :
      (dim nlist top_k nprobe : ℕ) (rows : List Vector) (ids : List IdPattern) (query : Vector)
      → (add faiss rows ids (init dim nlist) ≡ raise runtime_error)
        × (search faiss query top_k nprobe (init dim nlist) ≡ raise runtime_error)
        × (save faiss (init dim nlist) ≡ raise runtime_error)
        × (ntotal faiss (init dim nlist) ≡ 0)
  unfolding add search save ntotal
  untrained_raises dim nlist top_k nprobe rows ids query = (refl, refl, refl, refl)

  -- A search returns no id of a free place.
  pub search-places :
      (query : Vector) (top_k nprobe : ℕ) (x : IvfFlatIndex Index) {y : IvfFlatIndex Index}
      {hits : List Hit}
      → search faiss query top_k nprobe x ≡ ok (hits, y)
      → All (λ h. is_negative h.1 ≡ false) hits
  unfolding search
  search-places query top_k nprobe x {hits = hits} h = elim (Option-cases x.index) [
    | inl e ↦ absurd (ground arith)
    | inr (i, e) ↦
        let found = faiss.search query top_k (probed faiss nprobe x.ivf i) in
        let same : keep (λ h. not (is_negative h.1)) found ≡ hits = ground arith in
        rw (← same) (All-keep_places found)
  ]

  -- A saved index gives, once loaded, the hits that it gave before, if faiss reads back what it
  -- wrote and the index has an `nprobe` exactly when it is an IVF index.
  pub search-load-save :
      (query : Vector) (top_k nprobe : ℕ) (x : IvfFlatIndex Index) {i : Index} {bytes : List ℕ}
      → KeepsFiles faiss
      → x.index ≡ some i
      → x.ivf ≡ faiss.has_nprobe i
      → save faiss x ≡ ok bytes
      → hits_of (search faiss query top_k nprobe (load faiss bytes (init 0 0)))
        ≡ hits_of (search faiss query top_k nprobe x)
  unfolding search save load
  search-load-save query top_k nprobe x {i = i} keeps e agree saved =
      ground (arith, keeps.read_write i)
