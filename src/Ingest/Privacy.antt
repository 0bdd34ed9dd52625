-- ===== src/Ingest/Privacy.antt =====
-- ingestion/ingestion_api.py: what the loop of `ingest_text_chunks` makes of one chunk.
use powerbrain.Base.{
  ℕ, ◌≡◌, refl, sym, ap, ◌∙◌, ◌⊎◌, inl, inr, String, Bool, true, false, ◌&&◌, ◌||◌, Option, none,
  some, List, [], ◌∷◌, ◌++◌, append-nil, append_assoc, map, any, str_eq, nat_beq, some_injective,
  eq_refl, arith, Option-cases, if◌then◌else◌,
}
use powerbrain.Base.Dict.{Dict}
use powerbrain.PiiVerify.{Scan}
use powerbrain.Store.{VaultEntity, VaultRow, Store}
use powerbrain.Ingest.{
  Pool, absent, working, failing, Services, Document, ChunkOut, Progress, Step, next, blocked,
  raised, PrivacyPolicy, get_or_create_project_salt, vault_entity, vault_row, store_in_vault,
  log_pii_scan, vaulted, pseudonymized, dual_store, mask, obey, policy_for, noted, clean_out,
  put_out, process_scan, verified_scan, process_chunk,
}

-- The row of the vault that a reference stands for.
abbrev pub is_original : Document → ℕ → String → String → VaultRow → Bool
is_original doc i c id r =
    str_eq r.id id
    && (str_eq r.document_id doc.doc_id && (nat_beq r.chunk_index i && str_eq r.original_text c))

-- A chunk is shown as it is only if its scan has found no PII.
abbrev Clean : Services → String → Type 0
Clean sv c = (scan : Scan) × (verified_scan sv c ≡ some scan) × (scan.contains_pii ≡ false)

abbrev Shown : Services → String → String → Type 0
Shown sv c t =
    (Clean sv c × (t ≡ c))
    ⊎ ((t ≡ sv.mask_text c) ⊎ ((salt : String) × (t ≡ (sv.pseudonymize_text c salt).0)))

abbrev pub Guarded : Services → Document → ℕ → String → Store → ChunkOut → Type 0
Guarded sv doc i c s o =
    (o.chunk_index ≡ i)
    × Shown sv c o.text
    × ((id : String) → o.vault_ref ≡ some id → any (is_original doc i c id) s.vault ≡ true)

-- The vault grows only, and neither the collections nor the rows of the documents change.
abbrev pub Grows : Store → Store → Type 0
Grows s s' =
    ((rows : List VaultRow) × (s'.vault ≡ s.vault ++ rows))
    × (s'.collections ≡ s.collections)
    × (s'.documents ≡ s.documents)

pub Grows-refl : (s : Store) → Grows s s
Grows-refl s = (([], sym (append-nil s.vault)), refl, refl)

pub Grows-trans : (s t u : Store) → Grows s t → Grows t u → Grows s u
Grows-trans s t u ((rows, e), c, d) ((rows', e'), c', d') =
    ((rows ++ rows', e' ∙ ap (λ v. v ++ rows') e ∙ append_assoc s.vault rows rows'), c' ∙ c, d' ∙ d)

abbrev pub store_of : Step → Store
store_of (next p) = p.store
store_of (blocked s) = s
store_of (raised s) = s

-- What one chunk adds.
abbrev Adds : Services → Document → ℕ → String → List ChunkOut → Step → Type 0
Adds sv doc i c outs (next p) =
    (o : ChunkOut) × (p.outs ≡ outs ++ (o ∷ [])) × Guarded sv doc i c p.store o
Adds sv doc i c outs (blocked s) = Unit
Adds sv doc i c outs (raised s) = Unit

abbrev pub Good : Services → Document → ℕ → String → Store → List ChunkOut → Step → Type 0
Good sv doc i c s outs step = Grows s (store_of step) × Adds sv doc i c outs step

log_pii_scan-Grows :
    (pool : Pool) (doc : Document) (scan : Scan) (action : String) (s : Store)
    → Grows s (log_pii_scan pool doc scan action s)
unfolding log_pii_scan
log_pii_scan-Grows absent doc scan action s = Grows-refl s
log_pii_scan-Grows working doc scan action s = Grows-refl s
log_pii_scan-Grows failing doc scan action s = Grows-refl s

log_pii_scan-vault :
    (pool : Pool) (doc : Document) (scan : Scan) (action : String) (s : Store)
    → (log_pii_scan pool doc scan action s).vault ≡ s.vault
unfolding log_pii_scan
log_pii_scan-vault absent doc scan action s = refl
log_pii_scan-vault working doc scan action s = refl
log_pii_scan-vault failing doc scan action s = refl

any-append :
    {A : Type 0} (q : A → Bool) (xs ys : List A) → any q (xs ++ ys) ≡ (any q xs || any q ys)
any-append q [] ys = refl
any-append q (x ∷ xs) ys = ground (arith, any-append q xs ys)

any-last :
    {A : Type 0} (q : A → Bool) (xs : List A) (x : A) → q x ≡ true → any q (xs ++ (x ∷ [])) ≡ true
any-last q xs x h = rw (any-append q xs (x ∷ []), h) (ground arith)

pub any-Grows :
    (q : VaultRow → Bool) (s s' : Store) → Grows s s' → any q s.vault ≡ true → any q s'.vault ≡ true
any-Grows q s s' ((rows, e), c, d) h = rw (e, any-append q s.vault rows, h) refl

module _ (sv : Services) (doc : Document) (i : ℕ) (c : String) where
  -- The vault's answer: the row that its reference stands for.
  abbrev Kept : Store → Option (Store × Option String) → Type 0
  Kept s none = Unit
  Kept s (some (s', r)) =
      Grows s s' × ((id : String) → r ≡ some id → any (is_original doc i c id) s'.vault ≡ true)

  vault_row-original :
      (es : List VaultEntity) (d : ℕ) (id : String)
      → sv.fresh_vault_id i ≡ id
      → is_original doc i c id (vault_row doc i (sv.fresh_vault_id i) c es d) ≡ true
  unfolding vault_row
  vault_row-original es d id e = ground (arith, e, eq_refl id, eq_refl doc.doc_id, eq_refl c)

  vaulted-Kept :
      (pool : Pool) (scan : Scan) (m : Dict String) (salt : String) (days : Option ℕ) (s : Store)
      → Kept s (vaulted pool sv doc i c scan m salt days s)
  unfolding vaulted store_in_vault
  vaulted-Kept absent scan m salt days s = (Grows-refl s, λ id e. absurd cc)
  vaulted-Kept failing scan m salt days s = tt
  vaulted-Kept working scan m salt none s = tt
  vaulted-Kept working scan m salt (some d) s = (
    ((vault_row doc i (sv.fresh_vault_id i) c entities d ∷ [], refl), refl, refl),
    λ id e.
        any-last (is_original doc i c id) s.vault
          (vault_row doc i (sv.fresh_vault_id i) c entities d)
          (vault_row-original entities d id (some_injective (sv.fresh_vault_id i) id e)),
  )
    where
      entities : List VaultEntity
      entities = map (vault_entity c) scan.entity_locations

  logged :
      (scan : Scan) (action : String) (s s' : Store)
      → Grows s s'
      → Grows s (log_pii_scan sv.pool doc scan action s')
  logged scan action s s' g =
      Grows-trans s s' (log_pii_scan sv.pool doc scan action s') g
        (log_pii_scan-Grows sv.pool doc scan action s')

  pseudonymized-Good :
      (scan : Scan) (salt : String) (p : Progress) (s : Store) (r : Option (Store × Option String))
      → Grows p.store s
      → Kept s r
      → Good sv doc i c p.store p.outs
          (pseudonymized sv doc i scan (sv.pseudonymize_text c salt).0 p s r)
  pseudonymized-Good scan salt p s none g k = (g, tt)
  pseudonymized-Good scan salt p s (some (s', r)) g k = (
    logged scan "pseudonymize" p.store s' (Grows-trans p.store s s' g k.0),
    (
      _,
      refl,
      (
        refl,
        inr (inr (salt, refl)),
        λ id e.
            any-Grows (is_original doc i c id) s' (log_pii_scan sv.pool doc scan "pseudonymize" s')
              (log_pii_scan-Grows sv.pool doc scan "pseudonymize" s') (k.1 id e),
      ),
    ),
  )

  dual_store-Good :
      (scan : Scan) (policy : PrivacyPolicy) (p : Progress)
      → Good sv doc i c p.store p.outs (dual_store sv doc i c scan policy p)
  unfolding dual_store
  dual_store-Good scan policy p =
      elim (Option-cases
        (get_or_create_project_salt sv.pool doc.project (sv.fresh_salt i) p.store.salts)) [
          | inl e ↦ rw (dual_store, e) (Grows-refl p.store, tt)
          | inr ((salts, salt), e) ↦
              rw (dual_store, e)
                (pseudonymized-Good scan salt p (record p.store { salts = salts }) _
                  (Grows-refl p.store)
                  (vaulted-Kept sv.pool scan (sv.pseudonymize_text c salt).1 salt
                    policy.retention_days (record p.store { salts = salts })))
        ]

  mask-Good : (scan : Scan) (p : Progress) → Good sv doc i c p.store p.outs (mask sv doc i c scan p)
  unfolding mask
  mask-Good scan p = (
    logged scan "mask" p.store p.store (Grows-refl p.store),
    (_, refl, (refl, inr (inl refl), λ id e. absurd cc)),
  )

  if-Good :
      (s : Store) (outs : List ChunkOut) (b : Bool) (x y : Step)
      → (b ≡ true → Good sv doc i c s outs x)
      → (b ≡ false → Good sv doc i c s outs y)
      → Good sv doc i c s outs (if b then x else y)
  if-Good s outs true x y f g = f refl
  if-Good s outs false x y f g = g refl

  obey-Good :
      (scan : Scan) (policy : PrivacyPolicy) (p : Progress)
      → Good sv doc i c p.store p.outs (obey sv doc i c scan policy p)
  unfolding obey
  obey-Good scan policy p =
      if-Good p.store p.outs (str_eq policy.pii_action "block")
        (blocked (log_pii_scan sv.pool doc scan "block" p.store)) unblocked
        (λ e. (logged scan "block" p.store p.store (Grows-refl p.store), tt))
        (λ e.
          if-Good p.store p.outs dual (dual_store sv doc i c scan policy p) (mask sv doc i c scan p)
            (λ f. dual_store-Good scan policy p) (λ f. mask-Good scan p))
    where
      dual : Bool
      dual =
          (str_eq policy.pii_action "pseudonymize" || str_eq policy.pii_action "encrypt_and_store")
          && policy.dual_storage

      unblocked : Step
      unblocked = if dual then dual_store sv doc i c scan policy p else mask sv doc i c scan p

  process_scan-Good :
      (p : Progress) (scan : Scan)
      → verified_scan sv c ≡ some scan
      → Good sv doc i c p.store p.outs (process_scan sv doc i c p scan)
  unfolding process_scan
  process_scan-Good p scan found =
      if-Good p.store p.outs scan.contains_pii
        (obey sv doc i c scan (policy_for sv doc p.policy) (noted sv doc scan p))
        (next (put_out (clean_out i c) p))
        (λ e. obey-Good scan (policy_for sv doc p.policy) (noted sv doc scan p))
        (λ e.
          (Grows-refl p.store, (_, refl, (refl, inl ((scan, found, e), refl), λ id h. absurd cc))))

  pub process_chunk-Good :
      (p : Progress) → Good sv doc i c p.store p.outs (process_chunk sv doc i c p)
  unfolding process_chunk
  process_chunk-Good p = elim (Option-cases (verified_scan sv c)) [
    | inl e ↦ rw (process_chunk, e) (Grows-refl p.store, tt)
    | inr (scan, e) ↦ rw (process_chunk, e) (process_scan-Good p scan e)
  ]
