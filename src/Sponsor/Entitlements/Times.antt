-- ===== src/Sponsor/Entitlements/Times.antt =====
-- The map from accounts to the times of their sponsored registrations.
use kippu_api.Base.{
  ℕ, ◌+◌, ◌≤◌, ◌≡◌, refl, ◌∙◌, inl, inr, Bool, true, false, ◌||◌, List, [], ◌∷◌, arith, ◌==◌,
  ==_iff, Bool-cases, length, one_if, append, count_where, exists_where, select_where, delete_where,
}
use kippu_api.Sponsor.Entitlements.{Entry, is_for, times_of, set_times}

-- The accounts of the entries differ.
abbrev pub Distinct : List Entry → Type 0
Distinct [] = Unit
Distinct (e ∷ es) = (exists_where (is_for e.account) es ≡ false) × Distinct es

module _ (p : ℕ → Bool) where
  pub count_append :
      (t : ℕ) (ts : List ℕ) → count_where p (append t ts) ≡ count_where p ts + one_if (p t)
  unfolding count_where
  count_append t [] = omega arith
  count_append t (x ∷ ts) = omega (arith, count_append t ts)

  pub count_le_length : (ts : List ℕ) → count_where p ts ≤ length ts
  unfolding count_where
  count_le_length [] = omega arith
  count_le_length (t ∷ ts) = let rest = count_le_length ts in ground arith

  -- Dropping what a wider test drops.
  pub count_select :
      (q : ℕ → Bool)
      → ((t : ℕ) → p t ≡ true → q t ≡ true)
      → (ts : List ℕ) → count_where p (select_where q ts) ≡ count_where p ts
  unfolding count_where select_where
  count_select q h [] = refl
  count_select q h (t ∷ ts) =
      let rest = count_select q h ts in
      elim (Bool-cases (q t)) [
        | inl hit ↦ rw hit (omega (arith, rest))
        | inr miss ↦
            let out : p t ≡ false = ground (arith, h t) in rw (miss, out) (omega (arith, rest))
      ]

  pub count_mono :
      (q : ℕ → Bool)
      → ((t : ℕ) → p t ≡ true → q t ≡ true)
      → (ts : List ℕ) → count_where p ts ≤ count_where q ts
  unfolding count_where
  count_mono q h [] = omega arith
  count_mono q h (t ∷ ts) =
      let rest = count_mono q h ts in
      elim (Bool-cases (p t)) [
        | inl hit ↦ rw (hit, h t hit) (omega (arith, rest))
        | inr miss ↦ rw miss (omega (arith, rest))
      ]

-- The map from accounts to times.
pub times_set : (x : ℕ) (ts : List ℕ) (es : List Entry) → times_of x (set_times x ts es) ≡ ts
unfolding times_of set_times
times_set x ts [] = rw ((==_iff x x).1 refl) refl
times_set x ts (e ∷ es) = elim (Bool-cases (is_for x e)) [
  | inl hit ↦ rw (hit, (==_iff x x).1 refl) refl
  | inr miss ↦ rw (miss, miss) (times_set x ts es)
]

pub times_set_other :
    (x y : ℕ) (ts : List ℕ) (es : List Entry)
    → (x == y) ≡ false
    → times_of y (set_times x ts es) ≡ times_of y es
unfolding times_of set_times
times_set_other x y ts [] differ = rw differ refl
times_set_other x y ts (e ∷ es) differ = elim (Bool-cases (is_for x e)) [
  | inl hit ↦
      let same : e.account ≡ x = (==_iff e.account x).0 hit in rw (hit, differ, same, differ) refl
  | inr miss ↦ rw (miss, times_set_other x y ts es differ) refl
]

pub exists_set :
    (x y : ℕ) (ts : List ℕ) (es : List Entry)
    → exists_where (is_for y) (set_times x ts es) ≡ (exists_where (is_for y) es || (x == y))
unfolding exists_where set_times
exists_set x y ts [] = ground arith
exists_set x y ts (e ∷ es) = elim (Bool-cases (is_for x e)) [
  | inl hit ↦ let same : e.account ≡ x = (==_iff e.account x).0 hit in rw (hit, same) (ground arith)
  | inr miss ↦ rw miss (ground (arith, exists_set x y ts es))
]

pub set-Distinct :
    (x : ℕ) (ts : List ℕ) (es : List Entry) → Distinct es → Distinct (set_times x ts es)
unfolding exists_where set_times
set-Distinct x ts [] d = (refl, tt)
set-Distinct x ts (e ∷ es) (fresh, d) = elim (Bool-cases (is_for x e)) [
  | inl hit ↦ let same : e.account ≡ x = (==_iff e.account x).0 hit in rw hit (rw same at fresh, d)
  | inr miss ↦
      let apart : (x == e.account) ≡ false = ground arith in
      rw miss (exists_set x e.account ts es ∙ rw (fresh, apart) refl, set-Distinct x ts es d)
]

not_exists_delete :
    (x : ℕ) (q : Entry → Bool) (es : List Entry)
    → exists_where (is_for x) es ≡ false
    → exists_where (is_for x) (delete_where q es) ≡ false
unfolding exists_where delete_where
not_exists_delete x q [] e = refl
not_exists_delete x q (d ∷ es) e =
    let rest = not_exists_delete x q es (ground arith) in
    elim (Bool-cases (q d)) [ inl hit ↦ rw hit rest | inr miss ↦ rw miss (ground arith) ]

pub delete-Distinct :
    (q : Entry → Bool) (es : List Entry) → Distinct es → Distinct (delete_where q es)
unfolding delete_where
delete-Distinct q [] d = tt
delete-Distinct q (e ∷ es) (fresh, d) = elim (Bool-cases (q e)) [
  | inl hit ↦ rw hit (delete-Distinct q es d)
  | inr miss ↦ rw miss (not_exists_delete e.account q es fresh, delete-Distinct q es d)
]

pub times_absent :
    (x : ℕ) (es : List Entry) → exists_where (is_for x) es ≡ false → times_of x es ≡ []
unfolding exists_where times_of
times_absent x [] e = refl
times_absent x (d ∷ es) e =
    let rest = times_absent x es (ground arith) in
    let miss : is_for x d ≡ false = ground arith in rw (miss, rest) refl
