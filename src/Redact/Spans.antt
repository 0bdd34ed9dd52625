-- ===== src/Redact/Spans.antt =====
-- `redact_fields` of mcp-server/server.py replaces its spans as if all at once.
use powerbrain.Base.{
  ℕ, ◌-◌, ◌≤◌, ◌<◌, ◌≡◌, refl, sym, ap, ◌∙◌, String, Bool, true, false, List, [], ◌∷◌, ◌++◌, length,
  take, drop, length-take, length-append, take-append-drop, contains, arith, ltb, leb, Bool-cases,
  inl, inr, append_assoc, keep, All, All-append,
}
use powerbrain.Base.Slices.{
  take-append, drop-append, take-take, take-drop-append, slice-drop, slice-append,
}
use powerbrain.Redact.{
  Entity, tag, redact_one, redact_loop, redact_kinds, redact_fields, sort_desc, insert_desc,
  entities_to_redact,
}

-- The spans stand in the order of the text, from an offset on, and do not overlap.
abbrev Ascending : ℕ → ℕ → List Entity → Type 0
Ascending p n [] = p ≤ n
Ascending p n (e ∷ es) = (p ≤ e.start) × (e.start < e.stop) × Ascending e.stop n es

Ascending-le : (p n : ℕ) (es : List Entity) → Ascending p n es → p ≤ n
Ascending-le p n [] h = h
Ascending-le p n (e ∷ es) h = omega (arith, Ascending-le e.stop n es (h.2))

-- The text from an offset on, with each span replaced by its tag.
abbrev pub assemble : List ℕ → ℕ → List Entity → List ℕ
assemble text p [] = drop p text
assemble text p (e ∷ es) =
    take (e.start - p) (drop p text) ++ (tag e.kind ++ assemble text e.stop es)

abbrev pub redactable : List String → Entity → Bool
redactable kinds e = contains e.kind kinds

abbrev rev : List Entity → List Entity
rev [] = []
rev (e ∷ es) = rev es ++ e ∷ []

insert_desc-append :
    (e : Entity) (xs : List Entity)
    → All (λ x. e.start < x.start) xs
    → insert_desc e xs ≡ xs ++ e ∷ []
unfolding insert_desc
insert_desc-append e [] h = refl
insert_desc-append e (x ∷ xs) h = ground (arith, insert_desc-append e xs (h.1))

Ascending-All :
    (k p n : ℕ) (es : List Entity) → k < p → Ascending p n es → All (λ x. k < x.start) es
Ascending-All k p n [] lt h = tt
Ascending-All k p n (e ∷ es) lt h =
    (omega (arith, h.0), Ascending-All k e.stop n es (omega (arith, h.0, h.1)) (h.2))

All-rev : (k : ℕ) (es : List Entity) → All (λ x. k < x.start) es → All (λ x. k < x.start) (rev es)
All-rev k [] h = tt
All-rev k (e ∷ es) h =
    All-append (λ x. k < x.start) (rev es) (e ∷ []) (All-rev k es (h.1)) (h.0, tt)

-- Sorting the entities of a text in order turns them round.
sort_desc-rev : (p n : ℕ) (es : List Entity) → Ascending p n es → sort_desc es ≡ rev es
unfolding sort_desc
sort_desc-rev p n [] h = refl
sort_desc-rev p n (e ∷ es) h =
    ap (insert_desc e) (sort_desc-rev e.stop n es (h.2))
    ∙ insert_desc-append e (rev es)
        (All-rev e.start es (Ascending-All e.start e.stop n es (h.1) (h.2)))

redact_loop-append :
    (kinds : List String) (xs : List Entity) (e : Entity) (t : List ℕ)
    → redact_loop kinds (xs ++ e ∷ []) t ≡ redact_one kinds e (redact_loop kinds xs t)
unfolding redact_loop
redact_loop-append kinds [] e t = refl
redact_loop-append kinds (x ∷ xs) e t = redact_loop-append kinds xs e (redact_one kinds x t)

keep-Ascending :
    (kinds : List String) (p n : ℕ) (es : List Entity)
    → Ascending p n es
    → Ascending p n (keep (redactable kinds) es)
keep-Ascending kinds p n [] h = h
keep-Ascending kinds p n (e ∷ es) h = elim (Bool-cases (redactable kinds e)) [
  | inl k ↦ rw k (h.0, h.1, keep-Ascending kinds e.stop n es (h.2))
  | inr k ↦ rw k (widen (keep (redactable kinds) es) (keep-Ascending kinds e.stop n es (h.2)))
]
  where
    widen : (xs : List Entity) → Ascending e.stop n xs → Ascending p n xs
    widen [] k = omega (arith, h.0, h.1)
    widen (x ∷ xs) k = (omega (arith, h.0, h.1, k.0), k.1, k.2)

-- The text between two offsets can be read off before the spans that come later.
assemble-shift :
    (t : List ℕ) (p q n : ℕ) (es : List Entity)
    → p ≤ q
    → Ascending q n es
    → take (q - p) (drop p t) ++ assemble t q es ≡ assemble t p es
assemble-shift t p q n [] le h = slice-drop p q t le
assemble-shift t p q n (e ∷ es) le h =
    sym (
      append_assoc (take (q - p) (drop p t)) (take (e.start - q) (drop q t))
        (tag e.kind ++ assemble t e.stop es))
    ∙ ap (λ u. u ++ (tag e.kind ++ assemble t e.stop es)) (slice-append p q e.start t le (h.0))

module _ (kinds : List String) (t : List ℕ) where
  redact_one-hit :
      (e : Entity) (rest : List ℕ)
      → contains e.kind kinds ≡ true
      → e.start < e.stop
      → e.stop ≤ length t
      → redact_one kinds e (take e.stop t ++ rest) ≡ take e.start t ++ (tag e.kind ++ rest)
  unfolding redact_one
  redact_one-hit e rest k lt le =
      let n : length (take e.stop t) ≡ e.stop = omega (arith, length-take e.stop t) in
      let start_before : ltb e.start e.stop ≡ true = ground arith in
      let stop_within : leb e.stop (length (take e.stop t ++ rest)) ≡ true =
        ground (arith, n, length-append (take e.stop t) rest) in
      rw (
        k,
        start_before,
        stop_within,
        take-append e.start (take e.stop t) rest (omega (arith, n)),
        take-take e.start e.stop t (omega arith),
        drop-append e.stop (take e.stop t) rest n,
      )

  redact_one-miss :
      (e : Entity) (text : List ℕ) → contains e.kind kinds ≡ false → redact_one kinds e text ≡ text
  unfolding redact_one
  redact_one-miss e text k = rw k

  redact_loop-assemble :
      (p : ℕ) (es : List Entity)
      → Ascending p (length t) es
      → redact_loop kinds (rev es) t ≡ take p t ++ assemble t p (keep (redactable kinds) es)
  redact_loop-assemble p [] h = unfold redact_loop in sym (take-append-drop p t)
  redact_loop-assemble p (e ∷ es) h =
      let kept = keep (redactable kinds) es in
      redact_loop-append kinds (rev es) e t
      ∙ ap (redact_one kinds e) (redact_loop-assemble e.stop es (h.2))
      ∙ elim (Bool-cases (contains e.kind kinds)) [
        | inl k ↦ rw k (
            redact_one-hit e (assemble t e.stop kept) k (h.1)
              (Ascending-le e.stop (length t) es (h.2))
            ∙ ap (λ u. u ++ (tag e.kind ++ assemble t e.stop kept))
                (sym (take-drop-append p e.start t (h.0)))
            ∙ append_assoc (take p t) (take (e.start - p) (drop p t))
                (tag e.kind ++ assemble t e.stop kept))
        | inr k ↦ rw k (
            redact_one-miss e (take e.stop t ++ assemble t e.stop kept) k
            ∙ ap (λ u. u ++ assemble t e.stop kept)
                (sym (take-drop-append p e.stop t (omega (arith, h.0, h.1))))
            ∙ append_assoc (take p t) (take (e.stop - p) (drop p t)) (assemble t e.stop kept)
            ∙ ap (λ u. take p t ++ u)
                (assemble-shift t p e.stop (length t) kept (omega (arith, h.0, h.1))
                  (keep-Ascending kinds e.stop (length t) es (h.2))))
      ]

-- With no entity type to redact, every span stays.
keep-none : (es : List Entity) → keep (redactable []) es ≡ []
keep-none [] = refl
keep-none (e ∷ es) = keep-none es

redact_kinds-assemble :
    (kinds : List String) (t : List ℕ) (es : List Entity)
    → Ascending 0 (length t) es
    → redact_kinds kinds es t ≡ assemble t 0 (keep (redactable kinds) es)
unfolding redact_kinds
redact_kinds-assemble [] t es h = sym (ap (assemble t 0) (keep-none es))
redact_kinds-assemble (k ∷ ks) t es h =
    ap (λ s. redact_loop (k ∷ ks) s t) (sort_desc-rev 0 (length t) es h)
    ∙ redact_loop-assemble (k ∷ ks) t 0 es h

-- If the entities stand in the order of the text and do not overlap, redaction replaces each span
-- whose type the fields cover by its tag, and keeps all the rest of the text, as if it were done
-- in one pass from the left.
pub redact_fields-assemble :
    (t : List ℕ) (es : List Entity) (fields : List String)
    → Ascending 0 (length t) es
    → redact_fields t es fields ≡ assemble t 0 (keep (redactable (entities_to_redact fields)) es)
unfolding redact_fields
redact_fields-assemble t es fields h = redact_kinds-assemble (entities_to_redact fields) t es h
