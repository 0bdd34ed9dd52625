-- ===== src/Pii/Texts.antt =====
-- `depseudonymize_text` of pb-proxy/pii_middleware.py.
use Prim.Native.String.{◌++◌}
use Prim.Native.String.append
use powerbrain.Base.{
  suc, ◌-◌, ◌≡◌, refl, ◌∙◌, ap, subst, String, Bool, true, false, ◌||◌, [], ◌∷◌, All, arith, truthy,
  leb, Bool-cases, inl, inr,
}
use powerbrain.Base.Dict.{Dict}
use powerbrain.Base.Text.{text_length, starts_with, starts_with-append}
use powerbrain.Pii.{replace_from, replace, insert_long, sort_long, replace_all, depseudonymize_text}

-- A text stands somewhere in another.
abbrev occurs : String → String → Bool
occurs p String.[] = starts_with p ""
occurs p (String.◌∷◌ c s) = starts_with p (String.◌∷◌ c s) || occurs p s

replace_from-apart : (old new s : String) → occurs old s ≡ false → replace_from old new 0 s ≡ s
unfolding replace_from
replace_from-apart old new String.[] h = refl
replace_from-apart old new (String.◌∷◌ c s) h =
    let here : starts_with old (String.◌∷◌ c s) ≡ false = ground arith in
    let later : occurs old s ≡ false = ground arith in
    rw (here, replace_from-apart old new s later) refl

-- A match is passed over.
replace_from-skip :
    (old new t s : String)
    → replace_from old new (text_length t) (t ++ s) ≡ replace_from old new 0 s
unfolding replace_from text_length
replace_from-skip old new String.[] s = rw (append.nil s) refl
replace_from-skip old new (String.◌∷◌ c t) s =
    rw (append.cons c t s) (replace_from-skip old new t s)

-- No match begins in the first of two texts.
abbrev Clear : String → String → String → Type 0
Clear old String.[] s = Unit
Clear old (String.◌∷◌ c a) s = (starts_with old (String.◌∷◌ c (a ++ s)) ≡ false) × Clear old a s

replace_from-Clear :
    (old new a s : String)
    → Clear old a s
    → replace_from old new 0 (a ++ s) ≡ a ++ replace_from old new 0 s
unfolding replace_from
replace_from-Clear old new String.[] s h =
    rw (append.nil s, append.nil (replace_from old new 0 s)) refl
replace_from-Clear old new (String.◌∷◌ c a) s h =
    rw (append.cons c a s, append.cons c a (replace_from old new 0 s), h.0)
      (ap (λ t. String.◌∷◌ c t) (replace_from-Clear old new a s h.1))

replace_from-match :
    (old new s : String)
    → truthy old ≡ true
    → replace_from old new 0 (old ++ s) ≡ new ++ replace_from old new 0 s
unfolding replace_from text_length
replace_from-match String.[] new s h = cc
replace_from-match (String.◌∷◌ c o) new s h =
    let here : starts_with (String.◌∷◌ c o) (String.◌∷◌ c (o ++ s)) ≡ true =
      subst (λ t. starts_with (String.◌∷◌ c o) t ≡ true) (append.cons c o s)
        (starts_with-append (String.◌∷◌ c o) s) in
    let left : suc (text_length o) - 1 ≡ text_length o = omega arith in
    rw (append.cons c o s, here, left)
      (ap (λ t. new ++ t) (replace_from-skip (String.◌∷◌ c o) new o s))

-- With a map of one pseudonym, a text that holds the pseudonym once, so that no match begins before
-- it and none stands after it, gets the original back in its place.
depseudonymize_text-restores :
    (pseudo original before after : String)
    → truthy pseudo ≡ true
    → Clear pseudo before (pseudo ++ after)
    → occurs pseudo after ≡ false
    → depseudonymize_text (before ++ (pseudo ++ after)) ((pseudo, original) ∷ [])
      ≡ before ++ (original ++ after)
unfolding depseudonymize_text replace
depseudonymize_text-restores pseudo original before after p c o = rw p (
    replace_from-Clear pseudo original before (pseudo ++ after) c
    ∙ ap (λ t. before ++ t)
        (replace_from-match pseudo original after p
          ∙ ap (λ t. original ++ t) (replace_from-apart pseudo original after o)))

All-insert_long :
    (P : String × String → Type 0) (e : String × String) (es : Dict String)
    → P e
    → All P es
    → All P (insert_long e es)
unfolding insert_long
All-insert_long P e [] p h = (p, tt)
All-insert_long P e (x ∷ xs) p h = elim (Bool-cases (leb (text_length x.0) (text_length e.0))) [
  | inl y ↦ rw y (p, h)
  | inr y ↦ rw y (h.0, All-insert_long P e xs p h.1)
]

All-sort_long : (P : String × String → Type 0) (es : Dict String) → All P es → All P (sort_long es)
unfolding sort_long
All-sort_long P [] h = tt
All-sort_long P (e ∷ es) h = All-insert_long P e (sort_long es) h.0 (All-sort_long P es h.1)

-- A pseudonym that does not stand in a text.
abbrev Absent : String → String × String → Type 0
Absent s e = (truthy e.0 ≡ true) × (occurs e.0 s ≡ false)

replace_all-apart : (es : Dict String) (s : String) → All (Absent s) es → replace_all es s ≡ s
unfolding replace_all replace
replace_all-apart [] s h = refl
replace_all-apart ((p, o) ∷ es) s h =
    rw (h.0.0, replace_from-apart p o s h.0.1) (replace_all-apart es s h.1)

-- A text in which none of the pseudonyms stands is left as it is.
pub depseudonymize_text-apart :
    (s : String) (reverse_map : Dict String)
    → All (Absent s) reverse_map
    → depseudonymize_text s reverse_map ≡ s
unfolding depseudonymize_text
depseudonymize_text-apart s reverse_map h =
    replace_all-apart (sort_long reverse_map) s (All-sort_long (Absent s) reverse_map h)
