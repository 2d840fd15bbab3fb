-- ===== src/Base/Tables.antt =====
-- Tables as lists of rows, and the statements that read and change them.
use Prim.Native.Nat.{ℕ, zero, suc, ◌+◌}
use mathlib.Core.Bool.{Bool, true, false, ◌&&◌, ◌||◌}
use mathlib.Core.Option.{Option, none, some}
use mathlib.Core.List.{List, [], ◌∷◌, ◌++◌}
use kippu_api.Base.Tests.{if◌then◌else◌, ◌==◌}

-- 1 for a row that is counted, 0 for one that is not.
abbrev pub one_if : Bool → ℕ
one_if true = 1
one_if false = 0

module _ {ℓ} {A : Type ℓ} where
  abbrev pub length : List A → ℕ
  length [] = 0
  length (x ∷ xs) = suc (length xs)

  -- SELECT count(*) WHERE p
  unfoldable pub count_where : (A → Bool) → List A → ℕ
  count_where p [] = 0
  count_where p (x ∷ xs) = one_if (p x) + count_where p xs

  -- EXISTS (SELECT 1 WHERE p)
  unfoldable pub exists_where : (A → Bool) → List A → Bool
  exists_where p [] = false
  exists_where p (x ∷ xs) = p x || exists_where p xs

  -- The first row of SELECT * WHERE p
  unfoldable pub find_where : (A → Bool) → List A → Option A
  find_where p [] = none
  find_where p (x ∷ xs) = if p x then some x else find_where p xs

  -- SELECT * WHERE p
  unfoldable pub select_where : (A → Bool) → List A → List A
  select_where p [] = []
  select_where p (x ∷ xs) = (if p x then x ∷ [] else []) ++ select_where p xs

  -- What DELETE WHERE p leaves.
  unfoldable pub delete_where : (A → Bool) → List A → List A
  delete_where p [] = []
  delete_where p (x ∷ xs) = (if p x then [] else x ∷ []) ++ delete_where p xs

  -- INSERT, into a table whose order is that of the insertions
  abbrev pub append : A → List A → List A
  append x [] = x ∷ []
  append x (y ∷ xs) = y ∷ append x xs

  -- ORDER BY, and a JavaScript sort: stable, `before` says that a row may stand first.
  abbrev pub insert_by : (A → A → Bool) → A → List A → List A
  insert_by before x [] = x ∷ []
  insert_by before x (y ∷ xs) =
      let rest = insert_by before x xs in if before x y then x ∷ y ∷ xs else y ∷ rest

  abbrev pub order_by : (A → A → Bool) → List A → List A
  order_by before [] = []
  order_by before (x ∷ xs) = insert_by before x (order_by before xs)

  -- LIMIT, and what follows it
  abbrev pub take : ℕ → List A → List A
  take zero xs = []
  take (suc n) [] = []
  take (suc n) (x ∷ xs) = x ∷ take n xs

  abbrev pub drop : ℕ → List A → List A
  drop zero xs = xs
  drop (suc n) [] = []
  drop (suc n) (x ∷ xs) = drop n xs

  -- `rows[0]`
  abbrev pub first_of : List A → Option A
  first_of [] = none
  first_of (x ∷ xs) = some x

  -- What UPDATE makes of one row.
  abbrev pub updated : (A → Bool) → (A → A) → A → A
  updated q f x = if q x then f x else x

  -- UPDATE SET f WHERE q
  unfoldable pub update_where : (A → Bool) → (A → A) → List A → List A
  update_where q f [] = []
  update_where q f (x ∷ xs) = updated q f x ∷ update_where q f xs

-- Equality of texts and of other lists of numbers.
abbrev pub same_text : List ℕ → List ℕ → Bool
same_text [] [] = true
same_text (a ∷ as_) (b ∷ bs) = let rest = same_text as_ bs in (a == b) && rest
same_text _ _ = false

-- Every row satisfies P.
abbrev pub All {ℓ κ} : {A : Type ℓ} → (A → Type κ) → List A → Type κ
All P [] = Unit
All P (x ∷ xs) = P x × All P xs

pub All_pure {ℓ κ} : {A : Type ℓ} (P : A → Type κ) → ((x : A) → P x) → (xs : List A) → All P xs
All_pure P h [] = tt
All_pure P h (x ∷ xs) = (h x, All_pure P h xs)

pub All_map {ℓ κ μ} :
    {A : Type ℓ} (P : A → Type κ) (Q : A → Type μ)
    → ((x : A) → P x → Q x)
    → (xs : List A) → All P xs
    → All Q xs
All_map P Q h [] a = tt
All_map P Q h (x ∷ xs) a = (h x a.0, All_map P Q h xs a.1)
