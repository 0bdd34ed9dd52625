-- ===== src/Ingest/Points.antt =====
-- ingestion/ingestion_api.py, the points that `ingest_text_chunks` writes: the payload of a chunk
-- (step 4c), the prompts of `generate_l0` and `generate_l1`, and the upsert of their answers (step 6).
-- The answers of the language model, the clock, `str` of a number and new ids are arguments, and so is
-- whether the vector store takes the points of a layer.
use Prim.Native.String.{◌++◌}
use powerbrain.Base.{
  ℕ, ◌+◌, String, Bool, true, false, Option, none, some, List, [], ◌∷◌, length, ltb, str_eq, truthy,
  and_then, get_or, if◌then◌else◌,
}
use powerbrain.Base.Json.{Json, Fields, member, merge_fields}
use powerbrain.Base.Text.{text_length, text_take}
use powerbrain.Opa.{Cache}
use powerbrain.Store.{Point, Store, upsert}
use powerbrain.Ingest.{Document, ChunkOut}
use powerbrain.Ingest.Embedding.{Vector, Provider, CacheSetup, get_embedding}

pub record Publisher : Type 0 where
  pub setup : CacheSetup
  pub provider : Provider
  pub now : ℕ
  pub now_iso : String
  pub show : ℕ → String
  pub takes : String → Bool
  pub new_id : String → ℕ → String
  pub layers_enabled : Bool
  pub complete : String → String → Option String

abbrev json_or_null : Option String → Json
json_or_null none = Json.null
json_or_null (some s) = Json.str s

-- The fields of a payload before `**metadata`.
abbrev pub own_fields : Publisher → Document → String → ℕ → Bool → Option String → String → Fields
own_fields pb doc text i contains_pii vault_ref layer = Fields.field "text" (Json.str text) (
    Fields.field "source" (Json.str doc.source) (
      Fields.field "source_type" (Json.str doc.source_type) (
        Fields.field "classification" (Json.str doc.classification) (
          Fields.field "project" (Json.str (get_or doc.project "")) (
            Fields.field "chunk_index" (Json.num i) (
              Fields.field "ingested_at" (Json.str pb.now_iso) (
                Fields.field "contains_pii" (Json.bool contains_pii) (
                  Fields.field "vault_ref" (json_or_null vault_ref) (
                    Fields.field "layer" (Json.str layer)
                      (Fields.field "doc_id" (Json.str doc.doc_id) Fields.end))))))))))

unfoldable pub payload : Publisher → Document → String → ℕ → Bool → Option String → String → Fields
unfolding merge_fields
payload pb doc text i contains_pii vault_ref layer =
    merge_fields (own_fields pb doc text i contains_pii vault_ref layer) doc.metadata

-- `zip` of the texts, the vectors and what is known of the chunks; a position numbers the new ids.
unfoldable pub build_points : Publisher → Document → ℕ → List ChunkOut → List Vector → List Point
unfolding payload
build_points pb doc n (o ∷ outs) (v ∷ vs) =
    record {
      id = pb.new_id "L2" n;
      vector = v;
      payload = payload pb doc o.text o.chunk_index o.contains_pii o.vault_ref "L2";
    }
    ∷ build_points pb doc (n + 1) outs vs
build_points pb doc n _ _ = []

-- `"\n\n".join(texts)`
unfoldable pub join_blank : List String → String
join_blank [] = ""
join_blank (t ∷ []) = t
join_blank (t ∷ u ∷ ts) = t ++ ("\n\n" ++ join_blank (u ∷ ts))

-- `p.payload["text"]` of each point; `none` if one is no text, which the join raises on.
abbrev text_of : Option Json → Option String
text_of (some (Json.str s)) = some s
text_of _ = none

unfoldable pub texts_of : List Point → Option (List String)
unfolding member
texts_of [] = some []
texts_of (p ∷ ps) =
    let rest = texts_of ps in
    and_then (text_of (member "text" p.payload)) (λ t. and_then rest (λ ts. some (t ∷ ts)))

-- `generate_l0` and `generate_l1` differ in the limit and in the system prompt.
abbrev limit_of : String → ℕ
limit_of layer = if str_eq layer "L0" then 4000 else 8000

abbrev cut : ℕ → String → String
unfolding text_length text_take
cut limit text =
    if ltb limit (text_length text) then text_take limit text ++ "\n\n[truncated]" else text

user_prompt : Publisher → Document → ℕ → List String → String
unfolding join_blank text_length text_take
user_prompt pb doc limit chunks =
    "Document source: "
    ++ (doc.source
        ++ ("\nClassification: "
            ++ (doc.classification
                ++ ("\nFull text (from "
                    ++ (pb.show (length chunks)
                        ++ (" chunks):\n\n" ++ cut limit (join_blank chunks)))))))

unfoldable pub generate : Publisher → Document → String → Option (List String) → Option String
unfolding user_prompt
generate pb doc layer texts =
    if pb.layers_enabled
    then and_then texts (λ ts. pb.complete layer (user_prompt pb doc (limit_of layer) ts))
    else none

module _ (cache : Cache Vector) where
  -- What a layer leaves: the caches, the stored points and the id of its point.
  pub record Layered : Type 0 where
    pub cached : cache.Store
    pub store : Store
    pub point_id : Option String

  unfoldable pub put_point : Bool → Document → Point → cache.Store → Store → Layered
  unfolding upsert
  put_point true doc p c s = record {
    cached = c;
    store = upsert doc.collection (p ∷ []) s;
    point_id = some p.id;
  }
  put_point false doc p c s = record { cached = c; store = s; point_id = none }

  unfoldable pub put_layer :
      Publisher → Document → String → String → Store → cache.Store × Option Vector → Layered
  unfolding payload put_point
  put_layer pb doc layer text s (c, none) = record { cached = c; store = s; point_id = none }
  put_layer pb doc layer text s (c, some v) =
      put_point (pb.takes layer) doc
        (record {
          id = pb.new_id layer 0;
          vector = v;
          payload = payload pb doc text 0 false none layer;
        })
        c s

  -- An answer that is empty is passed over.
  unfoldable pub upsert_layer :
      Publisher → Document → String → Option String → cache.Store → Store → Layered
  unfolding get_embedding put_layer
  upsert_layer pb doc layer none c s = record { cached = c; store = s; point_id = none }
  upsert_layer pb doc layer (some text) c s =
      if truthy text
      then put_layer pb doc layer text s (get_embedding cache pb.setup pb.provider pb.now text c)
      else record { cached = c; store = s; point_id = none }
