-- ===== src/Search.antt =====
-- mcp-server/server.py, the tool `search_knowledge` of `_dispatch` up to the reranked results, with
-- `_build_qdrant_filter` and `rerank_results`, with the backends of shared/rerank_provider.py: the
-- built-in one with its service in reranker/service.py; TEI and Infinity, which sort the answer, and
-- Cohere, which takes it as it is. The vector store and the models' scores are arguments, and so is
-- the bonus of `_apply_heuristic_boosts`; scores are numbers in a unit of their own.
mod Allowed
mod Examples
use powerbrain.Base.{
  ℕ, zero, suc, ◌+◌, ◌*◌, String, Bool, true, false, ◌||◌, Option, none, some, List, [], ◌∷◌, ◌++◌,
  take, length, leb, ltb, str_eq, truthy, get_or, and_then, map, if◌then◌else◌,
}
use powerbrain.Base.Json.{Json, Fields, truth, member}
use powerbrain.Opa.{Cache}
use powerbrain.Opa.Filter.{Hit, Asking, filter_by_policy}

-- A result, as a dict or a RerankDocument.
pub record Doc : Type 0 where
  pub id : String
  pub content : Json
  pub score : ℕ
  pub rerank_score : ℕ
  pub rank : ℕ
  pub metadata : Fields

-- The conditions of the filter, all of which a point has to meet.
pub conditions : Fields → List (String × Json)
conditions Fields.end = []
conditions (Fields.field k v fs) = (k, v) ∷ conditions fs

pub build_qdrant_filter : Fields → Option String → List (String × Json)
unfolding conditions
build_qdrant_filter filters none = conditions filters
build_qdrant_filter filters (some layer) =
    if truthy layer
    then conditions filters ++ ("layer", Json.str layer) ∷ []
    else conditions filters

-- `{k: v for k, v in payload.items() if k not in ("content", "text")}`
pub without_texts : Fields → Fields
without_texts Fields.end = Fields.end
without_texts (Fields.field k v fs) =
    if str_eq k "content" || str_eq k "text"
    then without_texts fs
    else Fields.field k v (without_texts fs)

pub to_doc : Hit → Doc
unfolding without_texts member
to_doc hit = record {
  id = hit.id;
  content =
      get_or (member "text" hit.payload) (get_or (member "content" hit.payload) (Json.str ""));
  score = hit.score;
  rerank_score = 0;
  rank = 0;
  metadata = without_texts hit.payload;
}

-- The document that is ranked: `metadata.get("rerank_content") or content`.
abbrev or_content : Option Json → Json → Json
or_content none content = content
or_content (some v) content = if truth v then v else content

pub rerank_document : Doc → Doc
unfolding member
rerank_document d = record d { content = or_content (member "rerank_content" d.metadata) d.content }

-- What a backend brings back: an index and a score each; `none` is an exception.
abbrev pub Scores : Type 0
Scores = String → List Doc → Option (List (ℕ × ℕ))

-- The backends: `disabled` is RERANKER_ENABLED switched off, `built_in` ("powerbrain") the service of
-- reranker/service.py with its MAX_BATCH_SIZE and the scores of its model, one for each document in
-- their order; Infinity's answer is treated like TEI's.
pub data Ranker : Type 0 where
  disabled : Ranker
  built_in : ℕ → (String → List Doc → Option (List ℕ)) → Ranker
  tei cohere : Scores → Ranker

-- `sorted(results, key=score, reverse=True)`
pub insert_score : ℕ × ℕ → List (ℕ × ℕ) → List (ℕ × ℕ)
insert_score p [] = p ∷ []
insert_score p (q ∷ qs) =
    let rest = insert_score p qs in if leb q.1 p.1 then p ∷ q ∷ qs else q ∷ rest

pub sort_scores : List (ℕ × ℕ) → List (ℕ × ℕ)
unfolding insert_score
sort_scores [] = []
sort_scores (p ∷ ps) = insert_score p (sort_scores ps)

abbrev pub doc_at : ℕ → List Doc → Option Doc
doc_at n [] = none
doc_at zero (d ∷ ds) = some d
doc_at (suc n) (d ∷ ds) = doc_at n ds

-- The documents of the indices, ranked from a number on; `none` is IndexError.
pub ranked : List Doc → ℕ → List (ℕ × ℕ) → Option (List Doc)
ranked ds n [] = some []
ranked ds n ((i, s) ∷ ps) =
    let rest = ranked ds (n + 1) ps in
    and_then (doc_at i ds)
      (λ d. and_then rest (λ out. some (record d { rerank_score = s; rank = n } ∷ out)))

-- `zip(request.documents, scores)`, a document as its index.
abbrev pub zip_from : ℕ → List Doc → List ℕ → List (ℕ × ℕ)
zip_from i (d ∷ ds) (s ∷ ss) = (i, s) ∷ zip_from (i + 1) ds ss
zip_from i _ _ = []

-- POST /rerank of the service, whose answer the provider takes over as it is.
pub serve : ℕ → (String → List Doc → Option (List ℕ)) → String → List Doc → ℕ → Option (List Doc)
unfolding ranked sort_scores
serve max_batch predict query ds top_n =
    if ltb max_batch (length ds)
    then none
    else and_then (predict query ds)
        (λ ss. ranked ds 1 (take top_n (sort_scores (zip_from 0 ds ss))))

pub rerank : Ranker → String → List Doc → ℕ → Option (List Doc)
unfolding ranked sort_scores serve
rerank disabled query ds top_n = none
rerank (built_in max_batch predict) query ds top_n = serve max_batch predict query ds top_n
rerank (tei scores) query ds top_n =
    and_then (scores query ds) (λ answer. ranked ds 1 (take top_n (sort_scores answer)))
rerank (cohere scores) query ds top_n = and_then (scores query ds) (λ answer. ranked ds 1 answer)

-- `results.sort(key=rerank_score, reverse=True)`, and the new ranks.
pub insert_best : Doc → List Doc → List Doc
insert_best d [] = d ∷ []
insert_best d (e ∷ es) =
    let rest = insert_best d es in
    if leb e.rerank_score d.rerank_score then d ∷ e ∷ es else e ∷ rest

pub best_first : List Doc → List Doc
unfolding insert_best
best_first [] = []
best_first (d ∷ ds) = insert_best d (best_first ds)

pub renumber : ℕ → List Doc → List Doc
renumber n [] = []
renumber n (d ∷ ds) = record d { rank = n } ∷ renumber (n + 1) ds

pub add_bonus : (Fields → ℕ) → List Doc → List Doc
add_bonus bonus [] = []
add_bonus bonus (d ∷ ds) =
    record d { rerank_score = d.rerank_score + bonus d.metadata } ∷ add_bonus bonus ds

abbrev pub boosted : Option (Fields → ℕ) → List Doc → List Doc
boosted none ds = ds
boosted (some bonus) ds = renumber 1 (best_first (add_bonus bonus ds))

-- The results, or the first of the documents as they are.
abbrev pub or_original : Option (Fields → ℕ) → ℕ → List Doc → Option (List Doc) → List Doc
or_original options top_n ds none = take top_n ds
or_original options top_n ds (some out) = boosted options out

pub rerank_results : Ranker → String → List Doc → ℕ → Option (Fields → ℕ) → List Doc
unfolding rerank rerank_document best_first renumber add_bonus
rerank_results disabled query ds top_n options = take top_n ds
rerank_results ranker query [] top_n options = take top_n []
rerank_results ranker query (d ∷ ds) top_n options =
    or_original options top_n (d ∷ ds) (rerank ranker query (map rerank_document (d ∷ ds)) top_n)

-- OVERSAMPLE_FACTOR times as many hits are asked for if there is a reranker.
abbrev pub limit_of : Ranker → ℕ → ℕ → ℕ
limit_of disabled factor top_k = top_k
limit_of _ factor top_k = top_k * factor

pub record SearchRequest : Type 0 where
  pub query : String
  pub rerank_query : Option String
  pub top_k : ℕ
  pub filters : Fields
  pub layer : Option String
  pub rerank_options : Option (Fields → ℕ)

abbrev pub rerank_q : SearchRequest → String
rerank_q r = elim r.rerank_query [ none ↦ r.query | some q ↦ if truthy q then q else r.query ]

-- The hits that the policy allows, ranked; `none` is an exception of a decision.
pub ranked_hits : Ranker → SearchRequest → Option (List Hit) → Option (List Doc)
unfolding to_doc rerank_results
ranked_hits ranker r none = none
ranked_hits ranker r (some kept) =
    some (rerank_results ranker (rerank_q r) (map to_doc kept) r.top_k r.rerank_options)

pub asked_for :
    (String → List (String × Json) → ℕ → List Hit) → Ranker → ℕ → SearchRequest → List Hit
unfolding build_qdrant_filter
asked_for query_points ranker factor r =
    query_points r.query (build_qdrant_filter r.filters r.layer) (limit_of ranker factor r.top_k)

module _ (cache : Cache Bool) where
  pub search_knowledge :
      (String → List (String × Json) → ℕ → List Hit)
      → Asking
      → Ranker
      → ℕ
      → SearchRequest
      → cache.Store
      → cache.Store × Option (List Doc)
  unfolding asked_for filter_by_policy ranked_hits
  search_knowledge query_points q ranker factor r c =
      let (c', kept) = filter_by_policy cache q (asked_for query_points ranker factor r) c in
      (c', ranked_hits ranker r kept)
