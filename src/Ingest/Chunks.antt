-- ===== src/Ingest/Chunks.antt =====
-- ingestion/ingestion_api.py, `chunk_text`: overlapping slices of a long text. The loop runs on fuel,
-- and `none` stands for a loop that goes on; a start below 0, which an overlap above the chunks'
-- size gives in the source, is left out.
use Prim.Native.Nat.{zero, suc}
use Prim.Native.String.{◌++◌}
use Prim.Native.String.append
use text.Mathlib.TextLemmas.{append-nil}
use powerbrain.Base.{
  ℕ, ◌+◌, ◌-◌, ◌≡◌, ◌≤◌, ◌<◌, refl, sym, ap, ◌∙◌, String, true, false, Option, none, some, List, [],
  ◌∷◌, All, min, ltb, leb, and_then, arith, Bool-cases, inl, inr, if◌then◌else◌,
}
use powerbrain.Base.Text.{text_length, text_take, text_drop, text_slice}

slices : ℕ → String → ℕ → ℕ → ℕ → Option (List String)
unfolding text_length text_slice
slices zero text max_chars overlap start = none
slices (suc fuel) text max_chars overlap start =
    let rest = slices fuel text max_chars overlap (start + max_chars - overlap) in
    if ltb start (text_length text)
    then and_then rest (λ cs. some (text_slice start (start + max_chars) text ∷ cs))
    else some []

unfoldable pub chunk_text : String → ℕ → ℕ → Option (List String)
unfolding text_length slices
chunk_text text max_chars overlap =
    if leb (text_length text) max_chars
    then some (text ∷ [])
    else slices (suc (text_length text)) text max_chars overlap 0

length-text_take : (n : ℕ) (s : String) → text_length (text_take n s) ≡ min n (text_length s)
unfolding text_take text_length
length-text_take zero s = ground arith
length-text_take (suc n) String.[] = ground arith
length-text_take (suc n) (String.◌∷◌ c s) = omega (arith, length-text_take n s)

text_take-append-drop : (n : ℕ) (s : String) → text_take n s ++ text_drop n s ≡ s
unfolding text_take text_drop
text_take-append-drop zero s = append.nil s
text_take-append-drop (suc n) String.[] = append.nil ""
text_take-append-drop (suc n) (String.◌∷◌ c s) =
    append.cons c (text_take n s) (text_drop n s)
    ∙ ap (λ t. String.◌∷◌ c t) (text_take-append-drop n s)

text_drop-empty : (k : ℕ) → text_drop k "" ≡ ""
unfolding text_drop
text_drop-empty zero = refl
text_drop-empty (suc k) = refl

text_drop-drop : (m n : ℕ) (s : String) → text_drop n (text_drop m s) ≡ text_drop (m + n) s
unfolding text_drop
text_drop-drop zero n s = ap (λ k. text_drop k s) (omega arith)
text_drop-drop (suc m) n String.[] = text_drop-empty n ∙ sym (text_drop-empty (suc m + n))
text_drop-drop (suc m) n (String.◌∷◌ c s) =
    text_drop-drop m n s ∙ ap (λ k. text_drop k (String.◌∷◌ c s)) (the_suc m n)
  where
    the_suc : (m n : ℕ) → suc (m + n) ≡ suc m + n
    the_suc m n = omega arith

text_drop-all : (n : ℕ) (s : String) → text_length s ≤ n → text_drop n s ≡ ""
unfolding text_drop text_length
text_drop-all zero String.[] h = refl
text_drop-all zero (String.◌∷◌ c s) h = absurd (omega arith)
text_drop-all (suc n) String.[] h = refl
text_drop-all (suc n) (String.◌∷◌ c s) h = text_drop-all n s (omega arith)

-- The chunks behind each other, each without what it repeats of the one before it.
pub rejoin : ℕ → List String → String
unfolding text_drop
rejoin overlap [] = ""
rejoin overlap (c ∷ cs) = c ++ text_drop overlap (rejoin overlap cs)

slices-end :
    (fuel : ℕ) (text : String) (max_chars overlap start : ℕ)
    → ltb start (text_length text) ≡ false
    → slices (suc fuel) text max_chars overlap start ≡ some []
unfolding slices
slices-end fuel text max_chars overlap start e = rw (slices, e) refl

slices-step :
    (fuel : ℕ) (text : String) (max_chars overlap start : ℕ) (cs : List String)
    → ltb start (text_length text) ≡ true
    → slices fuel text max_chars overlap (start + max_chars - overlap) ≡ some cs
    → slices (suc fuel) text max_chars overlap start
      ≡ some (text_slice start (start + max_chars) text ∷ cs)
unfolding slices
slices-step fuel text max_chars overlap start cs e f = rw (slices, e, f) refl

slice-rest :
    (text : String) (max_chars overlap start : ℕ)
    → overlap < max_chars
    → text_slice start (start + max_chars) text
        ++ text_drop overlap (text_drop (start + max_chars - overlap) text)
      ≡ text_drop start text
unfolding text_slice
slice-rest text max_chars overlap start h =
    ap (λ t. text_take (start + max_chars - start) (text_drop start text) ++ t)
      (text_drop-drop (start + max_chars - overlap) overlap text
        ∙ ap (λ k. text_drop k text) (omega arith)
        ∙ sym (text_drop-drop start (start + max_chars - start) text))
    ∙ text_take-append-drop (start + max_chars - start) (text_drop start text)

slices-Covers :
    (fuel : ℕ) (text : String) (max_chars overlap start : ℕ)
    → overlap < max_chars
    → text_length text ≤ start + fuel
    → (cs : List String) × (slices (suc fuel) text max_chars overlap start ≡ some cs)
      × (All (λ c. text_length c ≤ max_chars) cs × (rejoin overlap cs ≡ text_drop start text))
unfolding rejoin
slices-Covers zero text max_chars overlap start h f = (
  [],
  slices-end zero text max_chars overlap start (ground arith),
  (tt, sym (text_drop-all start text (omega arith))),
)
slices-Covers (suc fuel) text max_chars overlap start h f =
    elim (Bool-cases (ltb start (text_length text))) [
      | inr e ↦ (
        [],
        slices-end (suc fuel) text max_chars overlap start e,
        (tt, sym (text_drop-all start text (ground arith))),
      )
      | inl e ↦
          let (cs, g, (short, joined)) =
            slices-Covers fuel text max_chars overlap (start + max_chars - overlap) h
              (ground arith) in
          (
            text_slice start (start + max_chars) text ∷ cs,
            slices-step (suc fuel) text max_chars overlap start cs e g,
            (
              (
                unfold text_slice in
                    omega
                      (arith, length-text_take (start + max_chars - start) (text_drop start text)),
                short,
              ),
              ap (λ t. text_slice start (start + max_chars) text ++ text_drop overlap t) joined
                  ∙ slice-rest text max_chars overlap start h,
            ),
          )
    ]

text_drop-start : (t : String) → text_drop 0 t ≡ t
unfolding text_drop
text_drop-start t = refl

joined_one : (t : String) (overlap : ℕ) → rejoin overlap (t ∷ []) ≡ t
unfolding rejoin
joined_one t overlap = ap (λ u. t ++ u) (text_drop-empty overlap) ∙ append-nil t

-- With an overlap below the chunks' size the loop ends, no chunk is longer than that size, and the
-- chunks, each without the characters that it repeats, join to the text.
pub chunk_text-rejoin :
    (text : String) (max_chars overlap : ℕ)
    → overlap < max_chars
    → (cs : List String) × (chunk_text text max_chars overlap ≡ some cs)
      × (All (λ c. text_length c ≤ max_chars) cs × (rejoin overlap cs ≡ text))
unfolding chunk_text
chunk_text-rejoin text max_chars overlap h = elim (Bool-cases (leb (text_length text) max_chars)) [
  | inl e ↦ (text ∷ [], rw (chunk_text, e) refl, ((ground arith, tt), joined_one text overlap))
  | inr e ↦
      let (cs, g, (short, joined)) =
        slices-Covers (text_length text) text max_chars overlap 0 h (omega arith) in
      (cs, rw (chunk_text, e) g, (short, joined ∙ text_drop-start text))
]
