-- ===== src/Ingest/Embedding.antt =====
-- The vectors of the chunks: `EmbeddingProvider.embed_batch` of shared/llm_provider.py, the cache of
-- shared/embedding_cache.py, and `get_embedding` and step 4b of ingestion/ingestion_api.py. The
-- server's answers and the hash are arguments. The cache's counters are left out.
pub mod Sorting
pub mod Refinement
mod Examples
use Prim.Native.String.{◌++◌}
use powerbrain.Base.{
  ℕ, String, Bool, true, false, Option, none, some, List, [], ◌∷◌, map, ltb, and_then,
  if◌then◌else◌,
}
use powerbrain.Opa.{Cache}

abbrev pub Vector : Type 0
Vector = List ℕ

-- What is asked for one text and for a batch: each vector with its `index`.
pub record Provider : Type 0 where
  pub single : String → Option Vector
  pub batch : List String → Option (List (ℕ × Vector))

pub record CacheSetup : Type 0 where
  pub enabled : Bool
  pub sha256 : String → String
  pub model : String

-- `data.sort(key=lambda x: x["index"])`
unfoldable pub insert_index {ℓ} : {A : Type ℓ} → ℕ × A → List (ℕ × A) → List (ℕ × A)
insert_index p [] = p ∷ []
insert_index p (q ∷ qs) = if ltb q.0 p.0 then q ∷ insert_index p qs else p ∷ q ∷ qs

unfoldable pub sort_index {ℓ} : {A : Type ℓ} → List (ℕ × A) → List (ℕ × A)
unfolding insert_index
sort_index [] = []
sort_index (p ∷ ps) = insert_index p (sort_index ps)

abbrev pub vectors {ℓ} : {A : Type ℓ} → List (ℕ × A) → List A
vectors [] = []
vectors ((_, v) ∷ ps) = v ∷ vectors ps

unfoldable pub embed_batch : Provider → List String → Option (List Vector)
unfolding sort_index
embed_batch provider [] = some []
embed_batch provider (t ∷ ts) =
    and_then (provider.batch (t ∷ ts)) (λ answer. some (vectors (sort_index answer)))

unfoldable pub embedding_key : CacheSetup → String → String
embedding_key setup text = setup.sha256 (setup.model ++ (":" ++ text))

unfoldable pub uncached_texts : List String → List (Option Vector) → List String
uncached_texts (t ∷ ts) (none ∷ os) = t ∷ uncached_texts ts os
uncached_texts (t ∷ ts) (some v ∷ os) = uncached_texts ts os
uncached_texts _ _ = []

module _ (cache : Cache Vector) where
  open cache use {Store, get, put}

  unfoldable pub cache_get : CacheSetup → ℕ → String → Store → Option Vector
  unfolding embedding_key
  cache_get setup now text c = if setup.enabled then get now (embedding_key setup text) c else none

  unfoldable pub cache_set : CacheSetup → ℕ → String → Vector → Store → Store
  unfolding embedding_key
  cache_set setup now text v c = if setup.enabled then put now (embedding_key setup text) v c else c

  unfoldable pub get_embedding : CacheSetup → Provider → ℕ → String → Store → Store × Option Vector
  unfolding cache_get cache_set
  get_embedding setup provider now text c = elim (cache_get setup now text c) [
    | some v ↦ (c, some v)
    | none ↦ elim (provider.single text) [
      | none ↦ (c, none)
      | some v ↦ (cache_set setup now text v c, some v)
    ]
  ]

  -- The loop that looks the texts up, a placeholder where the cache has none.
  unfoldable pub look_up : CacheSetup → ℕ → List String → Store → List (Option Vector)
  unfolding cache_get
  look_up setup now [] c = []
  look_up setup now (t ∷ ts) c = cache_get setup now t c ∷ look_up setup now ts c

  abbrev pub put_first : Vector → Store × Option (List Vector) → Store × Option (List Vector)
  put_first v (c, none) = (c, none)
  put_first v (c, some vs) = (c, some (v ∷ vs))

  -- The loop that puts the batch into the places and the cache; `none` is IndexError.
  unfoldable pub fill :
      CacheSetup
      → ℕ
      → List String
      → List (Option Vector)
      → List Vector
      → Store
      → Store × Option (List Vector)
  unfolding cache_set
  fill setup now (t ∷ ts) (some v ∷ os) bs c = put_first v (fill setup now ts os bs c)
  fill setup now (t ∷ ts) (none ∷ os) [] c = (c, none)
  fill setup now (t ∷ ts) (none ∷ os) (b ∷ bs) c =
      put_first b (fill setup now ts os bs (cache_set setup now t b c))
  fill setup now _ _ bs c = (c, some [])

  abbrev pub placed :
      CacheSetup
      → ℕ
      → List String
      → List (Option Vector)
      → Option (List Vector)
      → Store
      → Store × Option (List Vector)
  placed setup now ts found none c = (c, none)
  placed setup now ts found (some bs) c = fill setup now ts found bs c

  -- Step 4b; a batch of no texts asks nobody.
  unfoldable pub embed_texts :
      CacheSetup → Provider → ℕ → List String → Store → Store × Option (List Vector)
  unfolding look_up uncached_texts embed_batch fill
  embed_texts setup provider now ts c =
      let found = look_up setup now ts c in
      placed setup now ts found (embed_batch provider (uncached_texts ts found)) c
