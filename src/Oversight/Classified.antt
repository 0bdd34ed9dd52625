-- ===== src/Oversight/Classified.antt =====
-- The classification that the arguments of a call name, as `_dispatch` in mcp-server/server.py reads
-- it for the approval gate.
use powerbrain.Base.{
  ◌≡◌, ◌↔◌, ◌⊎◌, refl, sym, ap, ◌∙◌, subst, inl, inr, Bool, true, false, Option, none, some,
  some_injective, if◌then◌else◌,
}
use powerbrain.Base.Json.{Json, Fields, truth, member}
use powerbrain.Oversight.{json_or, filter_hint, classification_of}

-- A value that counts: it is there and true.
abbrev pub Names : Option Json → Json → Type 0
Names o v = (o ≡ some v) × (truth v ≡ true)

abbrev pub NamesNone : Option Json → Type 0
NamesNone o = (v : Json) → o ≡ some v → truth v ≡ false

-- The filters are missing, or false, or an object without a classification that counts.
abbrev pub Unfiltered : Option Json → Type 0
Unfiltered none = Unit
Unfiltered (some (Json.obj fs)) = NamesNone (member "classification" fs)
Unfiltered (some v) = truth v ≡ false

abbrev pub Filtered : Option Json → Json → Type 0
Filtered (some (Json.obj fs)) v = Names (member "classification" fs) v
Filtered _ v = ⊥

-- The classification of a call: of its filters, else of its arguments, else "internal".
abbrev pub IsClassified : Fields → Json → Type 0
IsClassified args v =
    Filtered (member "filters" args) v
    ⊎ (Unfiltered (member "filters" args)
        × (Names (member "classification" args) v
            ⊎ (NamesNone (member "classification" args) × (v ≡ Json.str "internal"))))

json_or-Names : (o : Option Json) (v d : Json) → Names o v → json_or o d ≡ v
json_or-Names none v d (e, t) = absurd cc
json_or-Names (some w) v d (e, t) = let same : w ≡ v = some_injective w v e in rw (same, t) refl

json_or-NamesNone : (o : Option Json) (d : Json) → NamesNone o → json_or o d ≡ d
json_or-NamesNone none d n = refl
json_or-NamesNone (some w) d n = rw (n w refl) refl

json_or-cases :
    (o : Option Json) (d : Json) → Names o (json_or o d) ⊎ (NamesNone o × (json_or o d ≡ d))
json_or-cases none d = inr (λ v e. absurd cc, refl)
json_or-cases (some w) d = by_truth (truth w) refl
  where
    by_truth :
        (b : Bool)
        → truth w ≡ b
        → Names (some w) (if b then w else d) ⊎ (NamesNone (some w) × ((if b then w else d) ≡ d))
    by_truth true e = inl (refl, e)
    by_truth false e = inr (λ v h. subst (λ x. truth x ≡ false) (some_injective w v h) e, refl)

-- Without filters: of the arguments, else "internal".
abbrev Plainly : Option Json → Json → Type 0
Plainly o v = Names o v ⊎ (NamesNone o × (v ≡ Json.str "internal"))

json_or-Plainly : (o : Option Json) (v : Json) → (json_or o (Json.str "internal") ≡ v) ↔ Plainly o v
json_or-Plainly o v = (λ e. subst (Plainly o) e (own (json_or-cases o _)), λ h. back h)
  where
    own :
        Names o (json_or o (Json.str "internal"))
          ⊎ (NamesNone o × (json_or o (Json.str "internal") ≡ Json.str "internal"))
        → Plainly o (json_or o (Json.str "internal"))
    own (inl n) = inl n
    own (inr n) = inr n

    back : Plainly o v → json_or o (Json.str "internal") ≡ v
    back (inl n) = json_or-Names o v (Json.str "internal") n
    back (inr (n, e)) = json_or-NamesNone o (Json.str "internal") n ∙ sym e

json_or-hint :
    (h o : Option Json) (v : Json)
    → (json_or h (json_or o (Json.str "internal")) ≡ v) ↔ (Names h v ⊎ (NamesNone h × Plainly o v))
json_or-hint h o v = (λ e. into e (json_or-cases h (json_or o (Json.str "internal"))), λ k. back k)
  where
    into :
        json_or h (json_or o (Json.str "internal")) ≡ v
        → Names h (json_or h (json_or o (Json.str "internal")))
          ⊎ (NamesNone h
              × (json_or h (json_or o (Json.str "internal")) ≡ json_or o (Json.str "internal")))
        → Names h v ⊎ (NamesNone h × Plainly o v)
    into e (inl n) = inl (subst (Names h) e n)
    into e (inr (n, f)) = inr (n, (json_or-Plainly o v).0 (sym f ∙ e))

    back : Names h v ⊎ (NamesNone h × Plainly o v) → json_or h (json_or o (Json.str "internal")) ≡ v
    back (inl n) = json_or-Names h v (json_or o (Json.str "internal")) n
    back (inr (n, p)) =
        json_or-NamesNone h (json_or o (Json.str "internal")) n ∙ (json_or-Plainly o v).1 p

-- The classification, with the filters' hint and what the arguments have as variables.
abbrev of_hint : Option (Option Json) → Option Json → Option Json
of_hint none o = none
of_hint (some h) o = some (json_or h (json_or o (Json.str "internal")))

abbrev Wanted : Option Json → Option Json → Json → Type 0
Wanted f o v = Filtered f v ⊎ (Unfiltered f × Plainly o v)

pub no_value : (v : Json) → ◌≡◌ {A = Option Json} none (some v) → ⊥
no_value v e = cc

plain_filters :
    (b : Bool) (o : Option Json) (v : Json)
    → (of_hint (if b then none else some none) o ≡ some v) ↔ (⊥ ⊎ ((b ≡ false) × Plainly o v))
plain_filters true o v = (λ e. absurd (no_value v e), λ h. absurd (shut h))
  where
    shut : ⊥ ⊎ ((true ≡ false) × Plainly o v) → ⊥
    shut (inl e) = e
    shut (inr h) = let e = h.0 in cc
plain_filters false o v =
    (λ e. inr (refl, (json_or-Plainly o v).0 (some_injective _ v e)), λ h. ap some (open_up h))
  where
    open_up : ⊥ ⊎ ((false ≡ false) × Plainly o v) → json_or o (Json.str "internal") ≡ v
    open_up (inl e) = absurd e
    open_up (inr h) = (json_or-Plainly o v).1 (h.1)

of_hint_iff : (f o : Option Json) (v : Json) → (of_hint (filter_hint f) o ≡ some v) ↔ Wanted f o v
of_hint_iff none o v =
    (λ e. inr (tt, (json_or-Plainly o v).0 (some_injective _ v e)), λ h. ap some (from h))
  where
    from : Wanted none o v → json_or o (Json.str "internal") ≡ v
    from (inl e) = absurd e
    from (inr h) = (json_or-Plainly o v).1 (h.1)
of_hint_iff (some Json.null) o v = plain_filters (truth Json.null) o v
of_hint_iff (some (Json.bool b)) o v = plain_filters (truth (Json.bool b)) o v
of_hint_iff (some (Json.num n)) o v = plain_filters (truth (Json.num n)) o v
of_hint_iff (some (Json.str s)) o v = plain_filters (truth (Json.str s)) o v
of_hint_iff (some (Json.arr vs)) o v = plain_filters (truth (Json.arr vs)) o v
of_hint_iff (some (Json.obj fs)) o v = (
  λ e. (json_or-hint (member "classification" fs) o v).0 (some_injective _ v e),
  λ h. ap some ((json_or-hint (member "classification" fs) o v).1 h),
)

pub classification_of_iff :
    (args : Fields) (v : Json) → (classification_of args ≡ some v) ↔ IsClassified args v
unfolding classification_of
classification_of_iff args v =
    let same : classification_of args
        ≡ of_hint (filter_hint (member "filters" args)) (member "classification" args) =
      by_hint (filter_hint (member "filters" args)) in
    let h = of_hint_iff (member "filters" args) (member "classification" args) v in
    (λ e. h.0 (sym same ∙ e), λ k. same ∙ h.1 k)
  where
    by_hint :
        (h : Option (Option Json))
        → ◌≡◌ {A = Option Json}
            (elim h [
              | none ↦ none
              | some hint ↦
                  some (json_or hint (json_or (member "classification" args) (Json.str "internal")))
            ])
            (of_hint h (member "classification" args))
    by_hint none = refl
    by_hint (some hint) = refl

-- What is classified so is a true value.
pub IsClassified-truth : (args : Fields) (v : Json) → IsClassified args v → truth v ≡ true
IsClassified-truth args v (inl f) = of_filters (member "filters" args) f
  where
    of_filters : (o : Option Json) → Filtered o v → truth v ≡ true
    of_filters (some (Json.obj fs)) n = n.1
    of_filters none n = absurd n
    of_filters (some Json.null) n = absurd n
    of_filters (some (Json.bool b)) n = absurd n
    of_filters (some (Json.num m)) n = absurd n
    of_filters (some (Json.str s)) n = absurd n
    of_filters (some (Json.arr vs)) n = absurd n
IsClassified-truth args v (inr (u, inl n)) = n.1
IsClassified-truth args v (inr (u, inr (n, e))) = subst (λ x. truth x ≡ true) (sym e) refl
