-- ===== src/VaultResolve/AuditLog.antt =====
-- The lines that `vault_resolve_pseudonyms` of mcp-server/server.py adds to the log of the vault.
use powerbrain.Base.{
  ℕ, ◌+◌, ◌≡◌, ◌≤◌, refl, sym, ap, ◌∙◌, inl, inr, String, Bool, true, false, ◌||◌, List, [], ◌∷◌,
  ◌++◌, any, str_eq, nat_beq, eq_refl, eq_iff, Bool-cases, arith, &&-true, if◌then◌else◌,
}
use powerbrain.VaultResolve.{Line, is_line, audit}

any-snoc :
    (q : Line → Bool) (xs : List Line) (x : Line) → any q (xs ++ (x ∷ [])) ≡ (any q xs || q x)
any-snoc q [] x = ground arith
any-snoc q (y ∷ ys) x = ground (arith, any-snoc q ys x)

pub audit-line : (d : String) (i : ℕ) (log : List Line) → any (is_line d i) (audit d i log) ≡ true
audit-line d i log = elim (Bool-cases (any (is_line d i) log)) [
  | inl e ↦ rw e e
  | inr e ↦ rw (e, any-snoc (is_line d i) log (d, i), eq_refl d) (ground arith)
]

pub audit-keeps :
    (p : String) (j : ℕ) (d : String) (i : ℕ) (log : List Line)
    → any (is_line p j) log ≡ true
    → any (is_line p j) (audit d i log) ≡ true
audit-keeps p j d i log h = elim (Bool-cases (any (is_line d i) log)) [
  | inl e ↦ rw e h
  | inr e ↦ rw (e, any-snoc (is_line p j) log (d, i), h) refl
]

abbrev pub count_line : String → ℕ → List Line → ℕ
count_line d i [] = 0
count_line d i (l ∷ log) = (if is_line d i l then 1 else 0) + count_line d i log

count_line-none :
    (d : String) (i : ℕ) (log : List Line) → any (is_line d i) log ≡ false → count_line d i log ≡ 0
count_line-none d i [] h = refl
count_line-none d i (l ∷ log) h = ground (arith, count_line-none d i log)

count_line-snoc :
    (d : String) (i : ℕ) (log : List Line) (l : Line)
    → count_line d i (log ++ (l ∷ [])) ≡ count_line d i log + (if is_line d i l then 1 else 0)
count_line-snoc d i [] l = ground arith
count_line-snoc d i (m ∷ log) l = ground (arith, count_line-snoc d i log l)

is_line-same : (p d : String) (j i : ℕ) → is_line d i (p, j) ≡ true → (p ≡ d) × (j ≡ i)
is_line-same p d j i h =
    let (q, r) = &&-true (str_eq p d) (nat_beq j i) h in ((eq_iff p d).0 q, ground arith)

by_line :
    (p : String) (j : ℕ) (log : List Line)
    → ((d : String) (i : ℕ) → count_line d i log ≤ 1)
    → (d : String) (i : ℕ) → any (is_line p j) log ≡ false
    → count_line d i log + (if is_line d i (p, j) then 1 else 0) ≤ 1
by_line p j log h d i e = elim (Bool-cases (is_line d i (p, j))) [
  | inr f ↦ rw f (omega (arith, h d i))
  | inl f ↦
      let (same_d, same_i) = is_line-same p d j i f in
      rw f (
        omega (
          arith,
          count_line-none d i log (
              ap (λ q. any q log) (sym (ap (λ q. is_line q i) same_d) ∙ sym (ap (is_line p) same_i))
              ∙ e),
        ))
]

pub audit-once :
    (p : String) (j : ℕ) (log : List Line)
    → ((d : String) (i : ℕ) → count_line d i log ≤ 1)
    → (d : String) (i : ℕ) → count_line d i (audit p j log) ≤ 1
audit-once p j log h d i = elim (Bool-cases (any (is_line p j) log)) [
  | inl e ↦ rw e (h d i)
  | inr e ↦ rw (e, count_line-snoc d i log (p, j)) (by_line p j log h d i e)
]
