-- ===== src/Opa/Keys.antt =====
-- The cache's keys in `check_opa_policy` of mcp-server/server.py.
use Prim.Native.Char.{Char, code}
use Prim.Native.String.{char_at, ◌++◌}
use Prim.Native.String.append
use powerbrain.Base.{◌≡◌, refl, sym, ap, subst, ◌∙◌, String, Bool, true, ◌&&◌, not, nat_beq, arith}
use powerbrain.Opa.{cache_key}

-- A text without a colon.
unfoldable pub no_colon : String → Bool
no_colon String.[] = true
no_colon (String.◌∷◌ c s) = not (nat_beq (code c) b':') && no_colon s

colon_cons : (x : String) → ":" ++ x ≡ String.◌∷◌ (char_at ":" 0) x
colon_cons x = append.cons (char_at ":" 0) "" x ∙ ap (String.◌∷◌ (char_at ":" 0)) (append.nil x)

abbrev tail_of : String → String
tail_of String.[] = ""
tail_of (String.◌∷◌ c s) = s

abbrev head_of : String → Char
head_of String.[] = char_at ":" 0
head_of (String.◌∷◌ c s) = c

starts : (r x : String) → r ≡ "" → r ++ (":" ++ x) ≡ String.◌∷◌ (char_at ":" 0) x
starts r x e = rw e (append.nil (":" ++ x) ∙ colon_cons x)

colon_first : (c : Char) (r : String) → char_at ":" 0 ≡ c → no_colon (String.◌∷◌ c r) ≡ true → ⊥
unfolding no_colon
colon_first c r d h =
    let k : no_colon (String.◌∷◌ (char_at ":" 0) r) ≡ true =
      subst (λ x. no_colon (String.◌∷◌ x r) ≡ true) (sym d) h in
    cc

and-right : (a b : Bool) → (a && b) ≡ true → b ≡ true
and-right a b h = ground arith

-- What stands before the first colon, and behind it.
before_colon :
    (r r' x x' : String)
    → no_colon r ≡ true
    → no_colon r' ≡ true
    → r ++ (":" ++ x) ≡ r' ++ (":" ++ x')
    → (r ≡ r') × (x ≡ x')
unfolding no_colon
before_colon String.[] String.[] x x' h h' e =
    (refl, ap tail_of (sym (starts "" x refl) ∙ e ∙ starts "" x' refl))
before_colon String.[] (String.◌∷◌ c r') x x' h h' e =
    let d : char_at ":" 0 ≡ c =
      ap head_of (sym (starts "" x refl) ∙ e ∙ append.cons c r' (":" ++ x')) in
    absurd (colon_first c r' d h')
before_colon (String.◌∷◌ c r) String.[] x x' h h' e =
    let d : char_at ":" 0 ≡ c =
      ap head_of (sym (starts "" x' refl) ∙ sym e ∙ append.cons c r (":" ++ x)) in
    absurd (colon_first c r d h)
before_colon (String.◌∷◌ c r) (String.◌∷◌ c' r') x x' h h' e =
    let f = sym (append.cons c r (":" ++ x)) ∙ e ∙ append.cons c' r' (":" ++ x') in
    let (i, j) = before_colon r r' x x' (and-right _ _ h) (and-right _ _ h') (ap tail_of f) in
    (λ k. String.◌∷◌ (ap head_of f k) (i k), j)

-- A role and a classification as they are given out, without a colon.
abbrev pub Plain : String → String → Type 0
Plain agent_role classification = (no_colon agent_role ≡ true) × (no_colon classification ≡ true)

-- Then the key tells what it was made of.
pub cache_key-injective :
    (r c a r' c' a' : String)
    → Plain r c
    → Plain r' c'
    → cache_key r c a ≡ cache_key r' c' a'
    → (r ≡ r') × (c ≡ c') × (a ≡ a')
unfolding cache_key
cache_key-injective r c a r' c' a' p p' e =
    let (i, f) = before_colon r r' (c ++ (":" ++ a)) (c' ++ (":" ++ a')) p.0 p'.0 e in
    let (j, k) = before_colon c c' a a' p.1 p'.1 f in (i, j, k)
