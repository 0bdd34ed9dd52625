-- ===== src/Search/Allowed.antt =====
-- What `search_knowledge` of mcp-server/server.py returns has passed the policy.
use powerbrain.Base.{
  ℕ, zero, suc, ◌+◌, ◌≡◌, ap, length, ltb, and_then, refl, subst, String, Bool, true, false, Option,
  none, some, List, [], ◌∷◌, take, leb, and_then-some, some_injective, map, All, if◌then◌else◌,
}
use powerbrain.Base.Json.{Json, Fields}
use powerbrain.Opa.{Cache, Access}
use powerbrain.Opa.Keys.{no_colon}
use powerbrain.Opa.Caching.{IsSound, Agrees, engine_says}
use powerbrain.Opa.Filter.{Hit, Asking, filter_by_policy}
use powerbrain.Opa.Filter.Allowed.{Allowed, AllClassified, Kept, filter_by_policy-Kept}
use powerbrain.Search.{
  Doc, without_texts, to_doc, rerank_document, Ranker, disabled, built_in, tei, cohere, doc_at,
  ranked, zip_from, serve, rerank, insert_best, best_first, renumber, add_bonus, boosted,
  or_original, rerank_results, ranked_hits, asked_for, SearchRequest, rerank_q, search_knowledge,
  sort_scores,
}

no_result : (out : List Doc) → ◌≡◌ {A = Option (List Doc)} none (some out) → ⊥
no_result out e = cc

module _ (Ok : Hit → Type 0) where
  -- A result of such a hit.
  abbrev pub Stems : Doc → Type 0
  Stems d = (h : Hit) × Ok h × (d.id ≡ h.id) × (d.metadata ≡ without_texts h.payload)

  All-map-to_doc : (kept : List Hit) → All Ok kept → All Stems (map to_doc kept)
  unfolding to_doc
  All-map-to_doc [] a = tt
  All-map-to_doc (h ∷ kept) a = ((h, a.0, refl, refl), All-map-to_doc kept a.1)

  All-rerank_document : (ds : List Doc) → All Stems ds → All Stems (map rerank_document ds)
  unfolding rerank_document
  All-rerank_document [] a = tt
  All-rerank_document (d ∷ ds) a = (a.0, All-rerank_document ds a.1)

  All-take : (n : ℕ) (ds : List Doc) → All Stems ds → All Stems (take n ds)
  All-take zero ds a = tt
  All-take (suc n) [] a = tt
  All-take (suc n) (d ∷ ds) a = (a.0, All-take n ds a.1)

  doc_at-Stems : (n : ℕ) (ds : List Doc) (d : Doc) → All Stems ds → doc_at n ds ≡ some d → Stems d
  doc_at-Stems n [] d a e = absurd cc
  doc_at-Stems zero (x ∷ ds) d a e = subst Stems (some_injective x d e) a.0
  doc_at-Stems (suc n) (x ∷ ds) d a e = doc_at-Stems n ds d a.1 e

  ranked-Stems :
      (ds : List Doc) (n : ℕ) (ps : List (ℕ × ℕ)) (out : List Doc)
      → All Stems ds
      → ranked ds n ps ≡ some out
      → All Stems out
  unfolding ranked
  ranked-Stems ds n [] out a e = subst (All Stems) (some_injective [] out e) tt
  ranked-Stems ds n ((i, s) ∷ ps) out a e =
      let (d, at, e') = and_then-some (doc_at i ds) _ e in
      let (rest, r, e'') = and_then-some (ranked ds (n + 1) ps) _ e' in
      subst (All Stems) (some_injective _ out e'')
        (doc_at-Stems i ds d a at, ranked-Stems ds (n + 1) ps rest a r)

  serve-Stems :
      (b : Bool) (answer : Option (List ℕ)) (ds : List Doc) (top_n : ℕ) (out : List Doc)
      → All Stems ds
      → (if b
          then none
          else and_then answer (λ ss. ranked ds 1 (take top_n (sort_scores (zip_from 0 ds ss)))))
        ≡ some out
      → All Stems out
  serve-Stems true answer ds top_n out a e = absurd cc
  serve-Stems false answer ds top_n out a e =
      let (ss, _, f) = and_then-some answer _ e in
      ranked-Stems ds 1 (take top_n (sort_scores (zip_from 0 ds ss))) out a f

  rerank-Stems :
      (ranker : Ranker) (query : String) (ds : List Doc) (top_n : ℕ) (out : List Doc)
      → All Stems ds
      → rerank ranker query ds top_n ≡ some out
      → All Stems out
  unfolding rerank serve
  rerank-Stems disabled query ds top_n out a e = absurd cc
  rerank-Stems (built_in max_batch predict) query ds top_n out a e =
      serve-Stems (ltb max_batch (length ds)) (predict query ds) ds top_n out a e
  rerank-Stems (tei scores) query ds top_n out a e =
      let (answer, _, e') = and_then-some (scores query ds) _ e in
      ranked-Stems ds 1 (take top_n (sort_scores answer)) out a e'
  rerank-Stems (cohere scores) query ds top_n out a e =
      let (answer, _, e') = and_then-some (scores query ds) _ e in ranked-Stems ds 1 answer out a e'

  insert_best-Stems :
      (d : Doc) (ds : List Doc) → Stems d → All Stems ds → All Stems (insert_best d ds)
  unfolding insert_best
  insert_best-Stems d [] h a = (h, tt)
  insert_best-Stems d (e ∷ es) h a =
      by_score (leb e.rerank_score d.rerank_score) (insert_best-Stems d es h a.1)
    where
      by_score :
          (b : Bool)
          → All Stems (insert_best d es)
          → All Stems (if b then d ∷ e ∷ es else e ∷ insert_best d es)
      by_score true r = (h, a)
      by_score false r = (a.0, r)

  best_first-Stems : (ds : List Doc) → All Stems ds → All Stems (best_first ds)
  unfolding best_first
  best_first-Stems [] a = tt
  best_first-Stems (d ∷ ds) a = insert_best-Stems d (best_first ds) a.0 (best_first-Stems ds a.1)

  renumber-Stems : (n : ℕ) (ds : List Doc) → All Stems ds → All Stems (renumber n ds)
  unfolding renumber
  renumber-Stems n [] a = tt
  renumber-Stems n (d ∷ ds) a = (a.0, renumber-Stems (n + 1) ds a.1)

  add_bonus-Stems :
      (bonus : Fields → ℕ) (ds : List Doc) → All Stems ds → All Stems (add_bonus bonus ds)
  unfolding add_bonus
  add_bonus-Stems bonus [] a = tt
  add_bonus-Stems bonus (d ∷ ds) a = (a.0, add_bonus-Stems bonus ds a.1)

  boosted-Stems :
      (options : Option (Fields → ℕ)) (ds : List Doc)
      → All Stems ds
      → All Stems (boosted options ds)
  boosted-Stems none ds a = a
  boosted-Stems (some bonus) ds a =
      renumber-Stems 1 (best_first (add_bonus bonus ds))
        (best_first-Stems (add_bonus bonus ds) (add_bonus-Stems bonus ds a))

  or_original-Stems :
      (options : Option (Fields → ℕ)) (top_n : ℕ) (ds : List Doc) (o : Option (List Doc))
      → All Stems ds
      → ((out : List Doc) → o ≡ some out → All Stems out)
      → All Stems (or_original options top_n ds o)
  or_original-Stems options top_n ds none a f = All-take top_n ds a
  or_original-Stems options top_n ds (some out) a f = boosted-Stems options out (f out refl)

  ranked_or-Stems :
      (ranker : Ranker) (query : String) (d : Doc) (ds : List Doc) (top_n : ℕ)
      (options : Option (Fields → ℕ))
      → All Stems (d ∷ ds)
      → All Stems (
          or_original options top_n
            (d ∷ ds)
            (rerank ranker query (map rerank_document (d ∷ ds)) top_n))
  ranked_or-Stems ranker query d ds top_n options a =
      or_original-Stems options top_n (d ∷ ds)
        (rerank ranker query (map rerank_document (d ∷ ds)) top_n) a
        (λ out e.
          rerank-Stems ranker query (map rerank_document (d ∷ ds)) top_n out
            (All-rerank_document (d ∷ ds) a) e)

  rerank_results-Stems :
      (ranker : Ranker) (query : String) (ds : List Doc) (top_n : ℕ) (options : Option (Fields → ℕ))
      → All Stems ds
      → All Stems (rerank_results ranker query ds top_n options)
  unfolding rerank_results
  rerank_results-Stems disabled query ds top_n options a = All-take top_n ds a
  rerank_results-Stems (built_in m predict) query [] top_n options a = All-take top_n [] a
  rerank_results-Stems (built_in m predict) query (d ∷ ds) top_n options a =
      ranked_or-Stems (built_in m predict) query d ds top_n options a
  rerank_results-Stems (tei scores) query [] top_n options a = All-take top_n [] a
  rerank_results-Stems (cohere scores) query [] top_n options a = All-take top_n [] a
  rerank_results-Stems (tei scores) query (d ∷ ds) top_n options a =
      ranked_or-Stems (tei scores) query d ds top_n options a
  rerank_results-Stems (cohere scores) query (d ∷ ds) top_n options a =
      ranked_or-Stems (cohere scores) query d ds top_n options a

  abbrev OptionAll : Option (List Hit) → Type 0
  OptionAll none = Unit
  OptionAll (some kept) = All Ok kept

  ranked_hits-Stems :
      (ranker : Ranker) (r : SearchRequest) (kept : Option (List Hit)) (out : List Doc)
      → OptionAll kept
      → ranked_hits ranker r kept ≡ some out
      → All Stems out
  unfolding ranked_hits
  ranked_hits-Stems ranker r none out a e = absurd (no_result out e)
  ranked_hits-Stems ranker r (some kept) out a e = subst (All Stems) (some_injective _ out e) (
      rerank_results-Stems ranker (rerank_q r) (map to_doc kept) r.top_k r.rerank_options
        (All-map-to_doc kept a))

-- Let the agent's role and the classifications of the vector store's hits have no colon (a missing
-- classification is "internal"), and let what the engine decides when it is asked, and what the
-- cache holds, count as said. Then each result of a search has the id and the metadata of a hit of
-- the vector store, and it is said that the agent's role may read what has this hit's
-- classification; whichever backend ranks the results, with a bonus or without, and also when the
-- ranking fails. The cache holds nothing else afterwards.
pub search_knowledge-Stems :
    (cache : Cache Bool) (Said : String → String → String → Bool → Type 0)
    (query_points : String → List (String × Json) → ℕ → List Hit) (q : Asking) (ranker : Ranker)
    (factor : ℕ) (r : SearchRequest) (c c' : cache.Store) (out : List Doc)
    → no_colon q.agent_role ≡ true
    → ((h : Hit) (a : Access)
        → Agrees cache Said a (engine_says cache Said (q.engine h) a)
          × Agrees cache Said a (engine_says cache Said (q.engine_later h) a))
    → IsSound cache Said c
    → AllClassified (asked_for query_points ranker factor r)
    → search_knowledge cache query_points q ranker factor r c ≡ (c', some out)
    → All (Stems (Allowed Said q.agent_role (asked_for query_points ranker factor r))) out
      × IsSound cache Said c'
unfolding search_knowledge
search_knowledge-Stems cache Said query_points q ranker factor r c c' out role said s all e =
    let hits = asked_for query_points ranker factor r in
    let (s', a) = filter_by_policy-Kept cache Said q role said hits c all s in
    (
      ranked_hits-Stems (Allowed Said q.agent_role hits) ranker r
          (filter_by_policy cache q hits c).1 out (by_option (filter_by_policy cache q hits c).1 a)
          (ap (λ x. x.1) e),
      subst (IsSound cache Said) (ap (λ x. x.0) e) s',
    )
  where
    by_option :
        (o : Option (List Hit))
        → Kept cache Said q role said (asked_for query_points ranker factor r) o
        → OptionAll (Allowed Said q.agent_role (asked_for query_points ranker factor r)) o
    by_option none a = tt
    by_option (some kept) a = a
