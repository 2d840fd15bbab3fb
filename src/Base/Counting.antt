-- ===== src/Base/Counting.antt =====
-- How an UPDATE changes what a SELECT count(*) finds, and what it finds of single rows.
use Prim.Native.Nat.{◌+◌, ◌≤◌}
use mathlib.Core.Path.{◌≡◌, refl, ap, subst}
use mathlib.Core.Bool.{Bool, true, false}
use mathlib.Core.Option.{none, some, some-injective}
use mathlib.Core.Logic.{inl, inr}
use mathlib.Core.List.{List, [], ◌∷◌, ◌++◌}
use native.Mathlib.Omega.{arith}
use kippu_api.Base.Tests.{Bool-cases}
use kippu_api.Base.Tables.{
  length, one_if, count_where, exists_where, find_where, update_where, updated, All, All_pure,
}

pub one_if_mono : (a b : Bool) → (a ≡ true → b ≡ true) → one_if a ≤ one_if b
one_if_mono true b h = ground (arith, h refl)
one_if_mono false b h = omega arith

module _ {ℓ} {A : Type ℓ} (p q : A → Bool) (f : A → A) where
  -- A row that counts after the update counted before it.
  abbrev pub Keeps : A → Type 0
  Keeps x = p (updated q f x) ≡ true → p x ≡ true

  pub count-update-le :
      (xs : List A) → All Keeps xs → count_where p (update_where q f xs) ≤ count_where p xs
  unfolding count_where update_where
  count-update-le [] a = omega arith
  count-update-le (x ∷ xs) (h, a) =
      omega (arith, count-update-le xs a, one_if_mono (p (updated q f x)) (p x) h)

  -- An update adds at most the rows that it changes.
  pub count-update-le-add :
      (xs : List A) → count_where p (update_where q f xs) ≤ count_where p xs + count_where q xs
  unfolding count_where update_where
  count-update-le-add [] = omega arith
  count-update-le-add (x ∷ xs) = elim (Bool-cases (q x)) [
    | inl hit ↦ rw hit (omega (arith, count-update-le-add xs, one_if_le (p (f x))))
    | inr miss ↦ rw miss (omega (arith, count-update-le-add xs))
  ]
    where
      one_if_le : (b : Bool) → one_if b ≤ 1
      one_if_le true = omega arith
      one_if_le false = omega arith

  -- An update that no counted column depends on.
  pub count-update_eq :
      ((x : A) → p (updated q f x) ≡ p x)
      → (xs : List A) → count_where p (update_where q f xs) ≡ count_where p xs
  unfolding count_where update_where
  count-update_eq h [] = refl
  count-update_eq h (x ∷ xs) = omega (arith, count-update_eq h xs, ap one_if (h x))

  -- What an update makes pass the test passed it before.
  pub not_exists-update :
      ((x : A) → Keeps x)
      → (xs : List A) → exists_where p xs ≡ false
      → exists_where p (update_where q f xs) ≡ false
  unfolding exists_where update_where
  not_exists-update h [] e = refl
  not_exists-update h (x ∷ xs) e = ground (arith, h x, not_exists-update h xs)

  -- What passes the test still passes it after the update.
  pub exists-update :
      ((x : A) → p x ≡ true → p (updated q f x) ≡ true)
      → (xs : List A) → exists_where p xs ≡ true
      → exists_where p (update_where q f xs) ≡ true
  unfolding exists_where update_where
  exists-update h [] e = e
  exists-update h (x ∷ xs) e = ground (arith, h x, exists-update h xs)

  pub All-update {κ} :
      (P : A → Type κ)
      → ((x : A) → P x → P (updated q f x))
      → (xs : List A) → All P xs
      → All P (update_where q f xs)
  unfolding update_where
  All-update P h [] a = tt
  All-update P h (x ∷ xs) (b, a) = (h x b, All-update P h xs a)

module _ {ℓ} {A : Type ℓ} (p : A → Bool) where
  pub exists_of_find : (xs : List A) {x : A} → find_where p xs ≡ some x → exists_where p xs ≡ true
  unfolding find_where exists_where
  exists_of_find [] e = cc
  exists_of_find (y ∷ xs) e = elim (Bool-cases (p y)) [
    | inl hit ↦ rw hit
    | inr miss ↦ rw miss (exists_of_find xs (rw miss at e))
  ]

  -- A row that is found is one that the test accepts and that every invariant covers.
  pub find-All {κ} :
      (P : A → Type κ)
      → (xs : List A) {x : A} → All P xs
      → find_where p xs ≡ some x
      → P x × (p x ≡ true)
  unfolding find_where
  find-All P [] a e = absurd (none_ne e)
    where
      none_ne : {x : A} → none ≡ some x → ⊥
      none_ne h = cc
  find-All P (y ∷ xs) {x} (b, a) e = elim (Bool-cases (p y)) [
    | inl hit ↦ subst_at (rw hit at e) b hit
    | inr miss ↦ find-All P xs a (rw miss at e)
  ]
    where
      subst_at : some y ≡ some x → P y → p y ≡ true → P x × (p x ≡ true)
      subst_at h b t = subst (λ z. P z × (p z ≡ true)) (some-injective _ _ h) (b, t)

  pub count-zero_of_not_exists : (xs : List A) → exists_where p xs ≡ false → count_where p xs ≡ 0
  unfolding exists_where count_where
  count-zero_of_not_exists [] e = refl
  count-zero_of_not_exists (x ∷ xs) e = ground (arith, count-zero_of_not_exists xs)

-- Two tests that agree on every row find the same.
pub exists_ext {ℓ} :
    {A : Type ℓ} (p q : A → Bool)
    → ((x : A) → p x ≡ q x)
    → (xs : List A) → exists_where p xs ≡ exists_where q xs
unfolding exists_where
exists_ext p q h [] = refl
exists_ext p q h (x ∷ xs) = rw (h x, exists_ext p q h xs)

-- An update of the one row that is found, which counts afterwards only if it counted before.
pub count-update-found-le {ℓ} :
    {A : Type ℓ} (p q : A → Bool) (f : A → A) (xs : List A) {x : A}
    → find_where q xs ≡ some x
    → count_where q xs ≤ 1
    → (p (f x) ≡ true → p x ≡ true)
    → count_where p (update_where q f xs) ≤ count_where p xs
unfolding find_where count_where update_where
count-update-found-le p q f [] e u h = omega arith
count-update-found-le p q f (y ∷ xs) {x} e u h = elim (Bool-cases (q y)) [
  | inl hit ↦
      let same_row : y ≡ x = some-injective _ _ (rw hit at e) in
      let others : one_if true + count_where q xs ≤ 1 = rw hit at u in
      let here : one_if (p (f y)) ≤ one_if (p y) = rw same_row (one_if_mono (p (f x)) (p x) h) in
      rw hit (omega (arith, count-update-le-add p q f xs))
  | inr miss ↦
      let others : one_if false + count_where q xs ≤ 1 = rw miss at u in
      let rest = count-update-found-le p q f xs (rw miss at e) (omega arith) h in
      rw miss (omega arith)
]

-- A row is found after an update of columns that the search does not read.
pub find-update {ℓ} :
    {A : Type ℓ} (p q : A → Bool) (f : A → A)
    → ((x : A) → p (updated q f x) ≡ p x)
    → (xs : List A) {x : A} → find_where p xs ≡ some x
    → find_where p (update_where q f xs) ≡ some (updated q f x)
unfolding find_where update_where
find-update p q f h [] e = absurd (ground arith)
find-update p q f h (y ∷ xs) {x} e = elim (Bool-cases (p y)) [
  | inl hit ↦
      let same_row : y ≡ x = some-injective _ _ (rw hit at e) in rw (h y, hit, same_row) refl
  | inr miss ↦ rw (h y, miss) (find-update p q f h xs (rw miss at e))
]

-- A row that is found passes the test.
pub find-test {ℓ} :
    {A : Type ℓ} (p : A → Bool) (xs : List A) {x : A} → find_where p xs ≡ some x → p x ≡ true
find-test p xs e = (find-All p (λ _. Unit {0}) xs (All_pure _ (λ _. tt) xs) e).1

pub length-update {ℓ} :
    {A : Type ℓ} (q : A → Bool) (f : A → A) (xs : List A) → length (update_where q f xs) ≡ length xs
unfolding update_where
length-update q f [] = refl
length-update q f (x ∷ xs) = omega (arith, length-update q f xs)

-- A row that no wider test finds is not found.
pub find_none {ℓ} :
    {A : Type ℓ} (p q : A → Bool) (xs : List A)
    → ((x : A) → q x ≡ true → p x ≡ true)
    → exists_where p xs ≡ false
    → find_where q xs ≡ none
unfolding find_where exists_where
find_none p q [] h e = refl
find_none p q (x ∷ xs) h e = elim (Bool-cases (q x)) [
  | inl hit ↦ absurd (ground (arith, h x))
  | inr miss ↦ rw miss (find_none p q xs h (ground arith))
]

pub length-++ {ℓ} : {A : Type ℓ} (xs ys : List A) → length (xs ++ ys) ≡ length xs + length ys
length-++ [] ys = omega arith
length-++ (x ∷ xs) ys = omega (arith, length-++ xs ys)

pub ++_assoc {ℓ} : {A : Type ℓ} (xs ys zs : List A) → (xs ++ ys) ++ zs ≡ xs ++ (ys ++ zs)
++_assoc [] ys zs = refl
++_assoc (x ∷ xs) ys zs = ap (λ ws. x ∷ ws) (++_assoc xs ys zs)
