-- ===== src/Ingest/Embedding/Refinement.antt =====
-- Step 4b of ingestion/ingestion_api.py with the cache of shared/embedding_cache.py does what asking
-- for each text's vector does.
use mathlib.Core.List.{Permᴰ}
use text.Mathlib.TextLemmas.{append_cancel_left}
use powerbrain.Base.{
  ℕ, ◌≡◌, refl, sym, ap, subst, ◌∙◌, ◌⊎◌, inl, inr, String, Option, none, some, List, [], ◌∷◌, map,
  if◌then◌else◌, Bool-cases, Option-cases, some_injective,
}
use powerbrain.Opa.{Cache}
use powerbrain.Ingest.Embedding.{
  Vector, Provider, CacheSetup, embed_batch, embedding_key, cache_get, cache_set, get_embedding,
  look_up, uncached_texts, put_first, fill, placed, embed_texts,
}
use powerbrain.Ingest.Embedding.Sorting.{enumerate, vectors-sort_index}

-- What the server answers: the vector of each text, under its index.
pub record Embeds (provider : Provider) (vector_of : String → Vector) : Type 0 where
  pub one : (t : String) (v : Vector) → provider.single t ≡ some v → v ≡ vector_of t
  pub many :
      (ts : List String) (answer : List (ℕ × Vector))
      → provider.batch ts ≡ some answer
      → Permᴰ (enumerate 0 (map vector_of ts)) answer

embed_batch-map :
    (provider : Provider) (vector_of : String → Vector)
    → Embeds provider vector_of
    → (ts : List String) (vs : List Vector) → embed_batch provider ts ≡ some vs
    → vs ≡ map vector_of ts
unfolding embed_batch
embed_batch-map provider vector_of embeds [] vs h = cc
embed_batch-map provider vector_of embeds (t ∷ ts) vs h =
    elim (Option-cases (provider.batch (t ∷ ts))) [
      | inl e ↦ absurd (let stuck = rw e at h in cc)
      | inr (answer, e) ↦
          sym (some_injective _ vs (rw e at h))
          ∙ vectors-sort_index (map vector_of (t ∷ ts)) answer (embeds.many (t ∷ ts) answer e)
    ]

module _ (cache : Cache Vector) (setup : CacheSetup) (provider : Provider)
    (vector_of : String → Vector)
    (collision_free : (s t : String) → setup.sha256 s ≡ setup.sha256 t → s ≡ t)
    (embeds : Embeds provider vector_of) where
  open cache use {Store, get, put, get-put}

  -- What the cache would answer is the text's vector.
  pub record Holds (c : Store) : Type 0 where
    pub at :
        (now : ℕ) (t : String) (v : Vector)
        → get now (embedding_key setup t) c ≡ some v
        → v ≡ vector_of t

  cache_get-vector :
      (now : ℕ) (t : String) (c : Store) (v : Vector)
      → Holds c
      → cache_get cache setup now t c ≡ some v
      → v ≡ vector_of t
  unfolding cache_get
  cache_get-vector now t c v holds h = elim (Bool-cases setup.enabled) [
    | inl e ↦ holds.at now t v (rw e at h)
    | inr e ↦ absurd (let stuck = rw e at h in cc)
  ]

  cache_set-Holds :
      (now : ℕ) (t : String) (c : Store)
      → Holds c
      → Holds (cache_set cache setup now t (vector_of t) c)
  unfolding cache_set
  cache_set-Holds now t c holds = elim (Bool-cases setup.enabled) [
    | inl e ↦
        subst Holds
          (ap (λ b. if b then put now (embedding_key setup t) (vector_of t) c else c) (sym e))
          (record {
            at = λ later u v h. new_or_old later u v (
                get-put later now (embedding_key setup u) (embedding_key setup t) (vector_of t) v c
                  h);
          })
    | inr e ↦
        subst Holds
          (ap (λ b. if b then put now (embedding_key setup t) (vector_of t) c else c) (sym e)) holds
  ]
    where
      same_text : (u : String) → embedding_key setup u ≡ embedding_key setup t → t ≡ u
      same_text u h =
          append_cancel_left ":" t u (
            append_cancel_left setup.model _ _ (collision_free _ _ (unfold embedding_key in sym h)))

      new_or_old :
          (later : ℕ) (u : String) (v : Vector)
          → ((embedding_key setup u ≡ embedding_key setup t) × (v ≡ vector_of t))
            ⊎ (get later (embedding_key setup u) c ≡ some v)
          → v ≡ vector_of u
      new_or_old later u v (inl (k, e)) = e ∙ ap vector_of (same_text u k)
      new_or_old later u v (inr e) = holds.at later u v e

  -- A cache that holds, and the vectors of the texts or an exception.
  abbrev Gives : List String → Store × Option (List Vector) → Type 0
  Gives ts (c, none) = ⊥
  Gives ts (c, some vs) = Holds c × (vs ≡ map vector_of ts)

  put_first-Gives :
      (t : String) (ts : List String) (r : Store × Option (List Vector))
      → Gives ts r
      → Gives (t ∷ ts) (put_first cache (vector_of t) r)
  put_first-Gives t ts (c, none) g = g
  put_first-Gives t ts (c, some vs) g = (g.0, ap (λ us. vector_of t ∷ us) g.1)

  fill-Gives :
      (now now' : ℕ) (ts : List String) (c c' : Store)
      → Holds c
      → Holds c'
      → Gives ts (
          fill cache setup now' ts
            (look_up cache setup now ts c)
            (map vector_of (uncached_texts ts (look_up cache setup now ts c)))
            c')
  unfolding fill look_up uncached_texts
  fill-Gives now now' [] c c' holds holds' = (holds', refl)
  fill-Gives now now' (t ∷ ts) c c' holds holds' =
      elim (Option-cases (cache_get cache setup now t c)) [
        | inl e ↦ rw e (
            put_first-Gives t ts _ (
              fill-Gives now now' ts c (cache_set cache setup now' t (vector_of t) c') holds
                (cache_set-Holds now' t c' holds')))
        | inr (v, e) ↦
            rw (e, cache_get-vector now t c v holds e)
              (put_first-Gives t ts _ (fill-Gives now now' ts c c' holds holds'))
      ]

  Gives-result :
      (ts : List String) (r : Store × Option (List Vector))
      → Gives ts r
      → Holds r.0 × (r.1 ≡ some (map vector_of ts))
  Gives-result ts (c, none) g = elim g [ ]
  Gives-result ts (c, some vs) g = (g.0, ap some g.1)

  -- If the server answers with the texts' vectors under their indices, in any order, the hash is free
  -- of collisions and the cache holds vectors of their texts only, step 4b returns the vector of each
  -- text, in the order of the texts, unless the server fails on the texts that are not in the cache;
  -- and the cache holds vectors of their texts only again.
  pub embed_texts-refines :
      (now : ℕ) (ts : List String) (c : Store)
      → Holds c
      → Holds (embed_texts cache setup provider now ts c).0
        × (((embed_texts cache setup provider now ts c).1 ≡ some (map vector_of ts))
            ⊎ (embed_batch provider (uncached_texts ts (look_up cache setup now ts c)) ≡ none))
  unfolding embed_texts
  embed_texts-refines now ts c holds = go (embed_batch provider asked) refl
    where
      found : List (Option Vector)
      found = look_up cache setup now ts c

      asked : List String
      asked = uncached_texts ts found

      go :
          (o : Option (List Vector))
          → embed_batch provider asked ≡ o
          → Holds (placed cache setup now ts found o c).0
            × (((placed cache setup now ts found o c).1 ≡ some (map vector_of ts))
                ⊎ (embed_batch provider asked ≡ none))
      go none e = (holds, inr e)
      go (some vs) e =
          let (holds', given) =
            Gives-result ts (fill cache setup now ts found (map vector_of asked) c)
              (fill-Gives now now ts c c holds holds) in
          rw (embed_batch-map provider vector_of embeds asked vs e) (holds', inl given)

  -- Under the same conditions `get_embedding` returns the text's vector or nothing, and the cache
  -- holds vectors of their texts only again.
  get_embedding-refines :
      (now : ℕ) (t : String) (c : Store)
      → Holds c
      → Holds (get_embedding cache setup provider now t c).0
        × (((get_embedding cache setup provider now t c).1 ≡ some (vector_of t))
            ⊎ (get_embedding cache setup provider now t c ≡ (c, none)))
  unfolding get_embedding
  get_embedding-refines now t c holds = elim (Option-cases (cache_get cache setup now t c)) [
    | inr (v, e) ↦ rw (get_embedding, e) (holds, inl (ap some (cache_get-vector now t c v holds e)))
    | inl e ↦
        rw (get_embedding, e)
          (elim (Option-cases (provider.single t)) [
            | inl f ↦ rw f (holds, inr refl)
            | inr (v, f) ↦ rw (f, embeds.one t v f) (cache_set-Holds now t c holds, inl refl)
          ])
  ]
