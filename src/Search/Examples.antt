-- ===== src/Search/Examples.antt =====
-- The tool `search_knowledge` of mcp-server/server.py over concrete hits, and the theorem there.
use powerbrain.Base.{
  ℕ, ◌≡◌, ◌⊎◌, refl, sym, subst, inl, inr, String, Bool, true, not, Option, none, some, List, [],
  ◌∷◌, All, str_eq, arith, eq_iff,
}
use powerbrain.Base.Dict.{Dict, lookup, insert, lookup-insert}
use powerbrain.Base.Json.{Json, Fields, member}
use powerbrain.Opa.{Engine, Reply, Cache, Access, opa_query, cache_key}
use powerbrain.Opa.Keys.{no_colon}
use powerbrain.Opa.Caching.{IsSound, Agrees, engine_says}
use powerbrain.Opa.Filter.{Hit, Asking}
use powerbrain.Opa.Filter.Allowed.{Allowed, AllClassified}
use powerbrain.Search.{
  Doc, Ranker, built_in, tei, SearchRequest, rerank_results, asked_for, search_knowledge,
}
use powerbrain.Search.Allowed.{Stems, search_knowledge-Stems}

-- A cache that never forgets.
keeps_law :
    (j k : String) (v x : Bool) (c : Dict Bool)
    → lookup j (insert k v c) ≡ some x
    → ((j ≡ k) × (x ≡ v)) ⊎ (lookup j c ≡ some x)
keeps_law j k v x c e = ground (arith, lookup-insert k j v c, eq_iff k j)

abbrev keeps : Cache Bool
keeps = record {
  Store = Dict Bool;
  get = λ now j c. lookup j c;
  put = λ now k v c. insert k v c;
  get-put = λ now then' j k v x c e. keeps_law j k v x c e;
}

abbrev hit : String → Fields → Hit
hit id payload = record { id = id; score = 1; payload = payload }

abbrev hits : List Hit
hits =
    hit "a" (Fields.field "text" (Json.str "one") Fields.end)
    ∷ hit "b" (
        Fields.field "text" (Json.str "two")
          (Fields.field "classification" (Json.str "secret") Fields.end))
    ∷ hit "c" (
        Fields.field "text" (Json.str "three")
          (Fields.field "rerank_content" (Json.str "short") Fields.end))
    ∷ []

classification_in : Json → Option Json
unfolding member
classification_in (Json.obj fs) = member "classification" fs
classification_in _ = none

abbrev readable : Option Json → Bool
readable (some (Json.str s)) = not (str_eq s "secret")
readable _ = true

-- What is secret is not allowed, everything else is.
abbrev engine : Engine
engine path input =
    Reply.body (Fields.field "result" (Json.bool (readable (classification_in input))) Fields.end)

abbrev Said : String → String → String → Bool → Type 0
Said role class action b = b ≡ not (str_eq class "secret")

abbrev asking : Asking
asking = record {
  agent_id = "alice";
  agent_role = "analyst";
  resource_prefix = "pb_general";
  cache_enabled = true;
  now = λ h. 0;
  engine = λ h. engine;
  later = λ h. 0;
  engine_later = λ h. engine;
}

abbrev ranker : Ranker
ranker = tei (λ query ds. some ((0, 3) ∷ (1, 9) ∷ []))

abbrev request : SearchRequest
request = record {
  query = "q";
  rerank_query = none;
  top_k = 5;
  filters = Fields.end;
  layer = some "L2";
  rerank_options = none;
}

abbrev results : List Doc
results =
    record {
      id = "c";
      content = Json.str "short";
      score = 1;
      rerank_score = 9;
      rank = 1;
      metadata = Fields.field "rerank_content" (Json.str "short") Fields.end;
    }
    ∷ record {
      id = "a";
      content = Json.str "one";
      score = 1;
      rerank_score = 3;
      rank = 2;
      metadata = Fields.end;
    }
    ∷ []

-- The second hit is denied; what the third one is ranked by takes the place of its text.
search_run :
    (search_knowledge keeps (λ query filter limit. hits) asking ranker 3 request []).1
    ≡ some results
unfolding search_knowledge classification_in cache_key lookup insert
search_run = refl

abbrev doc : String → ℕ → ℕ → Doc
doc id s n = record {
  id = id;
  content = Json.str id;
  score = 1;
  rerank_score = s;
  rank = n;
  metadata = Fields.end;
}

abbrev unranked : List Doc
unranked = doc "a" 0 0 ∷ doc "b" 0 0 ∷ []

abbrev reverse_ranked : List Doc
reverse_ranked = doc "b" 5 1 ∷ doc "a" 1 2 ∷ []

-- The service of the built-in backend ranks the documents by the scores of its model.
built_in_run :
    rerank_results (built_in 128 (λ query ds. some (1 ∷ 5 ∷ []))) "q" unranked 5 none
    ≡ reverse_ranked
unfolding rerank_results
built_in_run = refl

whole_run : search_knowledge keeps (λ query filter limit. hits) asking ranker 3 request [] ≡ (
  (search_knowledge keeps (λ query filter limit. hits) asking ranker 3 request []).0,
  some results,
)
unfolding search_knowledge classification_in cache_key lookup insert
whole_run = refl

analyst_plain : no_colon "analyst" ≡ true
unfolding no_colon
analyst_plain = refl

asked_run : asked_for (λ query filter limit. hits) ranker 3 request ≡ hits
unfolding asked_for
asked_run = refl

hits-AllClassified : AllClassified hits
unfolding no_colon member
hits-AllClassified = (
  ("internal", inr (refl, refl), refl),
  (("secret", inl refl, refl), (("internal", inr (refl, refl), refl), tt)),
)

engine-Said : (a : Access) → Agrees keeps Said a (engine_says keeps Said engine a)
unfolding opa_query classification_in
engine-Said a = refl

empty-IsSound : IsSound keeps Said []
unfolding lookup
empty-IsSound = record { at = λ now role class action x p e. absurd cc }

search_knowledge-Stems_example :
    let hits' = asked_for (λ query filter limit. hits) ranker 3 request in
    let ran = search_knowledge keeps (λ query filter limit. hits) asking ranker 3 request [] in
    All (Stems (Allowed Said "analyst" hits')) results × IsSound keeps Said ran.0
search_knowledge-Stems_example =
    search_knowledge-Stems keeps Said (λ query filter limit. hits) asking ranker 3 request []
      (search_knowledge keeps (λ query filter limit. hits) asking ranker 3 request []).0 results
      analyst_plain (λ h a. (engine-Said a, engine-Said a)) empty-IsSound
      (subst AllClassified (sym asked_run) hits-AllClassified) whole_run
