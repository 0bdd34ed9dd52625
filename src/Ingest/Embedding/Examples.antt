-- ===== src/Ingest/Embedding/Examples.antt =====
-- Vectors of chunks, as step 4b of ingestion/ingestion_api.py gets them, at a concrete server.
use mathlib.Core.List.{Permᴰ}
use mathlib.Core.List.Permᴰ
use powerbrain.Base.{
  ℕ, ◌≡◌, ◌⊎◌, refl, sym, subst, String, true, none, some, List, [], ◌∷◌, map, arith, eq_iff,
  some_injective,
}
use powerbrain.Base.Dict.{Dict, lookup, insert, lookup-insert}
use powerbrain.Base.Text.{text_length}
use powerbrain.Opa.{Cache}
use powerbrain.Ingest.Embedding.{
  Vector, Provider, CacheSetup, embed_batch, uncached_texts, look_up, embed_texts,
}
use powerbrain.Ingest.Embedding.Sorting.{enumerate}
use powerbrain.Ingest.Embedding.Refinement.{Embeds, Holds, embed_texts-refines}

keeps_law :
    (j k : String) (v x : Vector) (c : Dict Vector)
    → lookup j (insert k v c) ≡ some x
    → ((j ≡ k) × (x ≡ v)) ⊎ (lookup j c ≡ some x)
keeps_law j k v x c e = ground (arith, lookup-insert k j v c, eq_iff k j)

abbrev keeps : Cache Vector
keeps = record {
  Store = Dict Vector;
  get = λ now j c. lookup j c;
  put = λ now k v c. insert k v c;
  get-put = λ now then' j k v x c e. keeps_law j k v x c e;
}

abbrev vector_of : String → Vector
unfolding text_length
vector_of t = text_length t ∷ []

-- It answers in the wrong order.
abbrev reversed : List (ℕ × Vector) → List (ℕ × Vector)
reversed (a ∷ b ∷ ps) = b ∷ a ∷ ps
reversed ps = ps

abbrev provider : Provider
provider = record {
  single = λ t. some (vector_of t);
  batch = λ ts. some (reversed (enumerate 0 (map vector_of ts)));
}

abbrev setup : CacheSetup
setup = record { enabled = true; sha256 = λ s. s; model = "m" }

reversed-perm : (ps : List (ℕ × Vector)) → Permᴰ ps (reversed ps)
reversed-perm [] = Permᴰ.nil
reversed-perm (a ∷ []) = Permᴰ.refl (a ∷ [])
reversed-perm (a ∷ b ∷ ps) = Permᴰ.swap refl refl

embeds : Embeds provider vector_of
embeds = record {
  one = λ t v e. sym (some_injective (vector_of t) v e);
  many = λ ts answer e.
      subst (Permᴰ (enumerate 0 (map vector_of ts)))
        (some_injective (reversed (enumerate 0 (map vector_of ts))) answer e)
        (reversed-perm (enumerate 0 (map vector_of ts)));
}

abbrev texts : List String
texts = "abc" ∷ "d" ∷ "ef" ∷ []

-- One text is in the cache, two are asked for.
batch_run : embed_texts keeps setup provider 0 texts (("m:d", 1 ∷ []) ∷ []) ≡ (
  ("m:d", 1 ∷ []) ∷ ("m:abc", 3 ∷ []) ∷ ("m:ef", 2 ∷ []) ∷ [],
  some ((3 ∷ []) ∷ (1 ∷ []) ∷ (2 ∷ []) ∷ []),
)
unfolding embed_texts lookup insert text_length
batch_run = refl

embed_texts-refines_example :
    Holds keeps setup provider vector_of
      (λ s t e. e)
      embeds
      (embed_texts keeps setup provider 0 texts []).0
    × (((embed_texts keeps setup provider 0 texts []).1 ≡ some (map vector_of texts))
        ⊎ (embed_batch provider (uncached_texts texts (look_up keeps setup 0 texts [])) ≡ none))
embed_texts-refines_example =
    embed_texts-refines keeps setup provider vector_of (λ s t e. e) embeds 0 texts []
      (record { at = λ now t v e. unfold lookup in absurd cc })
