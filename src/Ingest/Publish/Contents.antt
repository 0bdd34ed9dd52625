-- ===== src/Ingest/Publish/Contents.antt =====
-- What `ingest_text_chunks` of ingestion/ingestion_api.py brings into the collections.
use powerbrain.Base.{
  ℕ, ◌≡◌, ◌⊎◌, refl, sym, ap, ◌∙◌, inl, inr, String, Bool, true, false, Option, none, some, List,
  [], ◌∷◌, ◌++◌, append-nil, append_assoc, Bool-cases, eq_refl, length, truthy,
}
use powerbrain.Base.Dict.{lookup-insert}
use powerbrain.Base.Json.{member, last_member, member-merge_fields}
use powerbrain.Opa.{Cache}
use powerbrain.Store.{Point, DocumentRow, Store, points_of, upsert}
use powerbrain.Ingest.{Pool, absent, working, failing, Services, Document, Progress}
use powerbrain.Ingest.Embedding.{Vector, get_embedding}
use powerbrain.Ingest.Points.{
  Publisher, own_fields, payload, build_points, Layered, put_point, put_layer, upsert_layer,
}
use powerbrain.Ingest.Publish.{
  reject, on_document, final_row, Outcome, ok, pii_blocked, raised_error, rejected, World,
  layer_texts, finish, store_points, embedded,
}

-- Every field of a payload is the last of that name in the caller's metadata, and the pipeline's own
-- value only where the metadata has none.
payload-member :
    (pb : Publisher) (doc : Document) (text : String) (i : ℕ) (contains_pii : Bool)
    (vault_ref : Option String) (layer k : String)
    → member k (payload pb doc text i contains_pii vault_ref layer)
      ≡ last_member k doc.metadata
          (member k (own_fields pb doc text i contains_pii vault_ref layer))
unfolding payload
payload-member pb doc text i contains_pii vault_ref layer k =
    member-merge_fields k (own_fields pb doc text i contains_pii vault_ref layer) doc.metadata

-- More points in a collection; nothing else that the store holds of a document has changed.
abbrev pub Extends : String → List Point → Store → Store → Type 0
Extends c ps s s' = (points_of c s' ≡ points_of c s ++ ps) × (s'.vault ≡ s.vault)

Extends-refl : (c : String) (s : Store) → Extends c [] s s
Extends-refl c s = (sym (append-nil (points_of c s)), refl)

Extends-trans :
    (c : String) (ps qs : List Point) (s t u : Store)
    → Extends c ps s t
    → Extends c qs t u
    → Extends c (ps ++ qs) s u
Extends-trans c ps qs s t u (e, v) (e', v') =
    (e' ∙ ap (λ xs. xs ++ qs) e ∙ append_assoc (points_of c s) ps qs, v' ∙ v)

Extends-last :
    (c : String) (ps : List Point) (s t u : Store)
    → Extends c ps s t
    → Extends c [] t u
    → Extends c ps s u
Extends-last c ps s t u (e, v) (e', v') = (e' ∙ append-nil (points_of c t) ∙ e, v' ∙ v)

upsert-Extends : (c : String) (ps : List Point) (s : Store) → Extends c ps s (upsert c ps s)
unfolding upsert points_of
upsert-Extends c ps s =
    (rw (lookup-insert c c (points_of c s ++ ps) s.collections, eq_refl c) refl, refl)

on_document-Extends :
    (pool : Pool) (doc : Document) (f : DocumentRow → DocumentRow) (s : Store)
    → Extends doc.collection [] s (on_document pool doc f s)
unfolding on_document points_of
on_document-Extends absent doc f s = Extends-refl doc.collection s
on_document-Extends working doc f s = Extends-refl doc.collection s
on_document-Extends failing doc f s = Extends-refl doc.collection s

module _ (cache : Cache Vector) (sv : Services) (pb : Publisher) (doc : Document) where
  -- The point of a layer, if there is one: of the text that the model has made of the points.
  abbrev pub IsLayer : String → Option String → List Point → Type 0
  IsLayer layer o ps =
      (ps ≡ [])
      ⊎ ((text : String) × (v : Vector) × (o ≡ some text)
          × (truthy text ≡ true)
          × (ps
              ≡ record {
                id = pb.new_id layer 0;
                vector = v;
                payload = payload pb doc text 0 false none layer;
              }
                ∷ []))

  abbrev Layers : String → Option String → Store → Layered cache → Type 0
  Layers layer o s l = (ps : List Point) × IsLayer layer o ps × Extends doc.collection ps s l.store

  put_point-Layers :
      (layer : String) (o : Option String) (b : Bool) (p : Point) (c : cache.Store) (s : Store)
      → IsLayer layer o (p ∷ [])
      → Layers layer o s (put_point cache b doc p c s)
  unfolding put_point
  put_point-Layers layer o true p c s h = (p ∷ [], h, upsert-Extends doc.collection (p ∷ []) s)
  put_point-Layers layer o false p c s h = ([], inl refl, Extends-refl doc.collection s)

  put_layer-Layers :
      (layer text : String) (s : Store) (r : cache.Store × Option Vector)
      → truthy text ≡ true
      → Layers layer (some text) s (put_layer cache pb doc layer text s r)
  unfolding put_layer
  put_layer-Layers layer text s (c, none) h = ([], inl refl, Extends-refl doc.collection s)
  put_layer-Layers layer text s (c, some v) h =
      put_point-Layers layer (some text) (pb.takes layer) _ c s (inr (text, v, refl, h, refl))

  upsert_layer-Layers :
      (layer : String) (o : Option String) (c : cache.Store) (s : Store)
      → Layers layer o s (upsert_layer cache pb doc layer o c s)
  unfolding upsert_layer
  upsert_layer-Layers layer none c s = ([], inl refl, Extends-refl doc.collection s)
  upsert_layer-Layers layer (some text) c s = elim (Bool-cases (truthy text)) [
    | inl e ↦
        rw (upsert_layer, e)
          (put_layer-Layers layer text s (get_embedding cache pb.setup pb.provider pb.now text c) e)
    | inr e ↦ rw (upsert_layer, e) ([], inl refl, Extends-refl doc.collection s)
  ]

  -- What stands behind the store's points: those of the chunks, and at most one for each layer, of
  -- what the model has made of the texts of these points.
  abbrev pub Adds : List Point → Store → Store → Type 0
  Adds points s s' =
      (l0 : List Point) × (l1 : List Point) × IsLayer "L0" (layer_texts cache pb doc "L0" points) l0
      × IsLayer "L1" (layer_texts cache pb doc "L1" points) l1
      × Extends doc.collection (points ++ (l0 ++ l1)) s s'

  abbrev Published : List Point → Store → World cache × Outcome → Type 0
  Published points s (w, ok r) = Adds points s w.store
  Published points s (w, _) = w.store.collections ≡ s.collections

  finish-Published :
      (p : Progress) (points : List Point) (c : cache.Store) (s s' : Store)
      → Extends doc.collection points s s'
      → Published points s (finish cache sv pb doc p points c s')
  unfolding finish
  finish-Published p points c s s' h =
      let t0 = layer_texts cache pb doc "L0" points in
      let t1 = layer_texts cache pb doc "L1" points in
      let l0 = upsert_layer cache pb doc "L0" t0 c s' in
      let l1 = upsert_layer cache pb doc "L1" t1 l0.cached l0.store in
      let (xs, i, e) = upsert_layer-Layers "L0" t0 c s' in
      let (ys, j, f) = upsert_layer-Layers "L1" t1 l0.cached l0.store in
      let row = final_row doc p (length points) l0.point_id l1.point_id in
      (
        xs,
        ys,
        i,
        j,
        Extends-trans doc.collection points (xs ++ ys) s s' (on_document sv.pool doc row l1.store) h
            (Extends-last doc.collection (xs ++ ys) s' l1.store
              (on_document sv.pool doc row l1.store)
              (Extends-trans doc.collection xs ys s' l0.store l1.store e f)
              (on_document-Extends sv.pool doc row l1.store)),
      )

  store_points-Published :
      (p : Progress) (points : List Point) (c : cache.Store) (s : Store)
      → Published points s (store_points cache sv pb doc p points c s)
  unfolding store_points
  store_points-Published p [] c s = finish-Published p [] c s s (Extends-refl doc.collection s)
  store_points-Published p (x ∷ xs) c s = elim (Bool-cases (pb.takes "L2")) [
    | inl e ↦
        rw (store_points, e)
          (finish-Published p (x ∷ xs) c s (upsert doc.collection (x ∷ xs) s)
            (upsert-Extends doc.collection (x ∷ xs) s))
    | inr e ↦ rw (store_points, e) refl
  ]

  -- After the gate: the vectors of the texts, under the points of the collection.
  abbrev pub Reports : Progress → Store → Option (List Vector) → World cache × Outcome → Type 0
  Reports p s given (w, ok r) =
      (vs : List Vector) × (given ≡ some vs) × Adds (build_points pb doc 0 p.outs vs) s w.store
  Reports p s given (w, _) = w.store.collections ≡ s.collections

  Published-Reports :
      (p : Progress) (s : Store) (vs : List Vector) (out : World cache × Outcome)
      → Published (build_points pb doc 0 p.outs vs) s out
      → Reports p s (some vs) out
  Published-Reports p s vs (w, ok r) h = (vs, refl, h)
  Published-Reports p s vs (w, pii_blocked) h = h
  Published-Reports p s vs (w, raised_error) h = h
  Published-Reports p s vs (w, rejected b) h = h

  pub embedded-Reports :
      (p : Progress) (s : Store) (r : cache.Store × Option (List Vector))
      → Reports p s r.1 (embedded cache sv pb doc p s r)
  unfolding embedded
  embedded-Reports p s (c, none) = refl
  embedded-Reports p s (c, some vs) =
      Published-Reports p s vs
        (store_points cache sv pb doc p (build_points pb doc 0 p.outs vs) c s)
        (store_points-Published p (build_points pb doc 0 p.outs vs) c s)

  pub reject-collections :
      (pool : Pool) (score : ℕ) (reason : Option String) (s : Store)
      → (reject pool doc score reason s).collections ≡ s.collections
  unfolding reject
  reject-collections working score (some reason) s = refl
  reject-collections working score none s = refl
  reject-collections absent score reason s = refl
  reject-collections failing score reason s = refl
