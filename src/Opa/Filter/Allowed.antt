-- ===== src/Opa/Filter/Allowed.antt =====
-- `filter_by_policy` of mcp-server/server.py keeps what the engine has allowed, by the cache or anew.
use mathlib.Core.List.{Memᴰ}
use powerbrain.Base.{
  ◌≡◌, ◌⊎◌, refl, sym, ap, subst, ◌∙◌, inl, inr, String, Bool, true, false, Option, none, some,
  List, [], ◌∷◌, All,
}
use powerbrain.Base.Json.{Json, Fields, member}
use powerbrain.Opa.{Cache, Access, Decision, decided, raised, check_opa_policy}
use powerbrain.Opa.Keys.{no_colon}
use powerbrain.Opa.Caching.{IsSound, Agrees, engine_says, check_opa_policy-IsSound}
use powerbrain.Opa.Filter.{
  Hit, Asking, or_internal, access_of, kept_of, check_hit, filter_by_policy,
}

-- The classification that a payload has: its own, or "internal" if it has none.
abbrev pub Classified : Fields → String → Type 0
Classified payload k =
    (member "classification" payload ≡ some (Json.str k))
    ⊎ ((member "classification" payload ≡ none) × (k ≡ "internal"))

-- A hit that the engine has allowed this agent to read, by what it has said of the agent's role and
-- the classification of the hit.
abbrev pub Allowed : (String → String → String → Bool → Type 0) → String → List Hit → Hit → Type 0
Allowed Said agent_role hits h =
    Memᴰ h hits × ((k : String) × Classified h.payload k × Said agent_role k "read" true)

-- Every hit has a classification without a colon.
abbrev pub AllClassified : List Hit → Type 0
AllClassified hits =
    All (λ (h : Hit). (k : String) × Classified h.payload k × (no_colon k ≡ true)) hits

module _ (cache : Cache Bool) (Said : String → String → String → Bool → Type 0) (q : Asking)
    (role : no_colon q.agent_role ≡ true)
    (said : (h : Hit) (a : Access)
      → Agrees cache Said a (engine_says cache Said (q.engine h) a)
        × Agrees cache Said a (engine_says cache Said (q.engine_later h) a)) where
  Classified-access_of :
      (h : Hit) (k : String)
      → Classified h.payload k
      → ((access_of q h).classification ≡ k)
        × ((access_of q h).agent_role ≡ q.agent_role)
        × ((access_of q h).action ≡ "read")
  unfolding access_of
  Classified-access_of h k (inl e) = (ap or_internal e, refl, refl)
  Classified-access_of h k (inr (e, f)) = (ap or_internal e ∙ sym f, refl, refl)

  check_hit-IsSound :
      (h : Hit) (k : String) (c : cache.Store)
      → Classified h.payload k
      → no_colon k ≡ true
      → IsSound cache Said c
      → IsSound cache Said (check_hit cache q h c).0
        × ((check_hit cache q h c).1 ≡ decided true → Said q.agent_role k "read" true)
  unfolding check_hit
  check_hit-IsSound h k c classified plain s =
      let a = access_of q h in
      let (i, j, l) = Classified-access_of h k classified in
      let d =
        check_opa_policy cache q.cache_enabled (q.now h) (q.engine h) (q.later h) (q.engine_later h)
          a c in
      let sound =
        check_opa_policy-IsSound cache Said q.cache_enabled (q.now h) (q.later h) (q.engine h)
          (q.engine_later h) a c (j' a j role, j' a i plain) (said h a).0 (said h a).1 s in
      (
        sound.0,
        λ e.
            subst {A = String × String × String} (λ t. Said t.0 t.1 t.2 true) (λ n. (j n, i n, l n))
              (subst (Agrees cache Said a) e sound.1),
      )
    where
      j' : {x y : String} (a : Access) → x ≡ y → no_colon y ≡ true → no_colon x ≡ true
      j' a e h = subst (λ x. no_colon x ≡ true) (sym e) h

  -- What the filter keeps of some hits.
  abbrev pub Kept : List Hit → Option (List Hit) → Type 0
  Kept hits none = Unit
  Kept hits (some kept) = All (Allowed Said q.agent_role hits) kept

  All-Mem :
      (h : Hit) (hits kept : List Hit)
      → All (Allowed Said q.agent_role hits) kept
      → All (Allowed Said q.agent_role (h ∷ hits)) kept
  All-Mem h hits [] a = tt
  All-Mem h hits (x ∷ kept) ((m, r), a) = ((Memᴰ.tail m, r), All-Mem h hits kept a)

  kept_of-Kept :
      (h : Hit) (hits : List Hit) (k : String) (d : Decision) (rest : Option (List Hit))
      → Classified h.payload k
      → (d ≡ decided true → Said q.agent_role k "read" true)
      → Kept hits rest
      → Kept (h ∷ hits) (kept_of h d rest)
  kept_of-Kept h hits k raised rest classified f a = tt
  kept_of-Kept h hits k (decided b) none classified f a = tt
  kept_of-Kept h hits k (decided true) (some kept) classified f a =
      ((Memᴰ.head refl, (k, classified, f refl)), All-Mem h hits kept a)
  kept_of-Kept h hits k (decided false) (some kept) classified f a = All-Mem h hits kept a

  pub filter_by_policy-Kept :
      (hits : List Hit) (c : cache.Store)
      → AllClassified hits
      → IsSound cache Said c
      → IsSound cache Said (filter_by_policy cache q hits c).0
        × Kept hits (filter_by_policy cache q hits c).1
  unfolding filter_by_policy
  filter_by_policy-Kept [] c all s = (s, tt)
  filter_by_policy-Kept (h ∷ hits) c ((k, classified, plain), all) s =
      let (s', f) = check_hit-IsSound h k c classified plain s in
      let (s'', a) = filter_by_policy-Kept hits (check_hit cache q h c).0 all s' in
      (
        s'',
        kept_of-Kept h hits k (check_hit cache q h c).1
            (filter_by_policy cache q hits (check_hit cache q h c).0).1 classified f a,
      )
