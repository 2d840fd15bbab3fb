-- ===== src/Accounts/Gates.antt =====
-- The check at a gate, against what it promises of the operator's grants.
use kippu_api.Base.{
  ℕ, ◌≡◌, refl, sym, ap, ◌∙◌, subst, some-injective, inl, inr, Bool, true, false, not, ◌&&◌, ◌||◌,
  Option, none, some, List, [], ◌∷◌, arith, ◌==◌, ==_iff, leb, Bool-cases, if◌then◌else◌, is_some,
  All, All_map, exists_where, select_where, first_of, insert_by, order_by,
}
use kippu_api.Store.{Try, ok, fail}
use kippu_api.Accounts.Rows.{GrantRow, Accounts}
use kippu_api.Accounts.Operators.{
  OperatorCaller, Authorisation, is_gate_grant, is_standing, in_window, ends_later, authorised,
  check_gate,
}

select_select :
    {A : Type 0} (p q : A → Bool) (xs : List A)
    → select_where p (select_where q xs) ≡ select_where (λ x. q x && p x) xs
unfolding select_where
select_select p q [] = refl
select_select p q (x ∷ xs) =
    let rest = select_select p q xs in
    elim (Bool-cases (q x)) [ inl hit ↦ rw (hit, rest) refl | inr miss ↦ rw (miss, rest) refl ]

-- The grant that ends last: the first of the rows as the code sorts them.
abbrev best : List GrantRow → Option GrantRow
best gs = first_of (order_by ends_later gs)

abbrev better : GrantRow → Option GrantRow → Option GrantRow
better g none = some g
better g (some h) = if ends_later g h then some g else some h

insert_better :
    (g : GrantRow) (gs : List GrantRow)
    → first_of (insert_by ends_later g gs) ≡ better g (first_of gs)
insert_better g [] = refl
insert_better g (h ∷ gs) = ground arith

abbrev covers_grant : Option GrantRow → GrantRow → Bool
covers_grant none g = false
covers_grant (some h) g = ends_later h g

covers_better :
    (g h : GrantRow) (o : Option GrantRow)
    → covers_grant o h ≡ true
    → covers_grant (better g o) h ≡ true
covers_better g h none e = absurd (cc e)
covers_better g h (some x) e = elim (Bool-cases (ends_later g x)) [
  | inl hit ↦ rw hit (ground arith)
  | inr miss ↦ rw miss e
]

better_covers : (g : GrantRow) (o : Option GrantRow) → covers_grant (better g o) g ≡ true
better_covers g none = ground arith
better_covers g (some x) = elim (Bool-cases (ends_later g x)) [
  | inl hit ↦ rw hit (ground arith)
  | inr miss ↦ rw miss (ground arith)
]

module _ (p : GrantRow → Bool) where
  -- The best of the rows that pass the test.
  abbrev pick : List GrantRow → Option GrantRow
  pick gs = best (select_where p gs)

  pick_hit : (g : GrantRow) (gs : List GrantRow) → p g ≡ true → pick (g ∷ gs) ≡ better g (pick gs)
  unfolding select_where
  pick_hit g gs hit = rw hit (insert_better g (order_by ends_later (select_where p gs)))

  pick_miss : (g : GrantRow) (gs : List GrantRow) → p g ≡ false → pick (g ∷ gs) ≡ pick gs
  unfolding select_where
  pick_miss g gs miss = rw miss refl

  pick_some : (gs : List GrantRow) → is_some (pick gs) ≡ exists_where p gs
  unfolding select_where exists_where
  pick_some [] = refl
  pick_some (g ∷ gs) = elim (Bool-cases (p g)) [
    | inl hit ↦ rw (pick_hit g gs hit, hit) (some_better g (pick gs))
    | inr miss ↦ rw (pick_miss g gs miss, miss) (pick_some gs)
  ]
    where
      some_better : (g : GrantRow) (o : Option GrantRow) → is_some (better g o) ≡ true
      some_better g none = refl
      some_better g (some h) = elim (Bool-cases (ends_later g h)) [
        | inl hit ↦ rw hit refl
        | inr miss ↦ rw miss refl
      ]

  -- A row that passes the test ends no later than what is picked.
  abbrev IsCovered : Option GrantRow → GrantRow → Type 0
  IsCovered o g = (not (p g) || covers_grant o g) ≡ true

  pick_covers : (gs : List GrantRow) → All (IsCovered (pick gs)) gs
  pick_covers [] = tt
  pick_covers (g ∷ gs) =
      let rest = pick_covers gs in
      elim (Bool-cases (p g)) [
        | inl hit ↦
            subst (λ o. All (IsCovered o) (g ∷ gs)) (sym (pick_hit g gs hit))
              (
                rw hit (better_covers g (pick gs)),
                All_map (IsCovered (pick gs)) (IsCovered (better g (pick gs))) (λ h c. widen h c) gs
                    rest,
              )
        | inr miss ↦
            subst (λ o. All (IsCovered o) (g ∷ gs)) (sym (pick_miss g gs miss)) (rw miss refl, rest)
      ]
    where
      widen : (h : GrantRow) → IsCovered (pick gs) h → IsCovered (better g (pick gs)) h
      widen h c = elim (Bool-cases (p h)) [
        | inl hit ↦ rw hit (covers_better g h (pick gs) (rw hit at c))
        | inr miss ↦ rw miss refl
      ]

  -- What is picked is a row that passes the test.
  abbrev is_row : Option GrantRow → GrantRow → Bool
  is_row none g = true
  is_row (some h) g = p g && ((g.id == h.id) && (g.valid_until == h.valid_until))

  row_first :
      (g h : GrantRow) (gs : List GrantRow)
      → p g ≡ true
      → g ≡ h
      → exists_where (is_row (some h)) (g ∷ gs) ≡ true
  unfolding exists_where
  row_first g h gs hit same =
      let same_id = (==_iff g.id h.id).1 (ap (λ (x : GrantRow). x.id) same) in
      let same_end =
        (==_iff g.valid_until h.valid_until).1 (ap (λ (x : GrantRow). x.valid_until) same) in
      ground arith

  row_later :
      (g h : GrantRow) (gs : List GrantRow)
      → exists_where (is_row (some h)) gs ≡ true
      → exists_where (is_row (some h)) (g ∷ gs) ≡ true
  unfolding exists_where
  row_later g h gs rest = ground arith

  row_better :
      (g h : GrantRow) (gs : List GrantRow) (o : Option GrantRow)
      → p g ≡ true
      → (o ≡ some h → exists_where (is_row (some h)) gs ≡ true)
      → better g o ≡ some h
      → exists_where (is_row (some h)) (g ∷ gs) ≡ true
  row_better g h gs none hit rest b = row_first g h gs hit (some-injective _ _ b)
  row_better g h gs (some x) hit rest b = elim (Bool-cases (ends_later g x)) [
    | inl later ↦ row_first g h gs hit (some-injective _ _ (rw later at b))
    | inr sooner ↦ row_later g h gs (rest (rw sooner at b))
  ]

  pick_row :
      (gs : List GrantRow) (h : GrantRow)
      → pick gs ≡ some h
      → exists_where (is_row (some h)) gs ≡ true
  unfolding select_where exists_where
  pick_row [] h e = absurd (cc e)
  pick_row (g ∷ gs) h e =
      let rest = λ (x : pick gs ≡ some h). pick_row gs h x in
      elim (Bool-cases (p g)) [
        | inl hit ↦ row_better g h gs (pick gs) hit rest (sym (pick_hit g gs hit) ∙ e)
        | inr miss ↦ row_later g h gs (rest (sym (pick_miss g gs miss) ∙ e))
      ]

-- A grant that lets the caller in at the gate now.
abbrev pub lets_in : OperatorCaller → ℕ → ℕ → ℕ → GrantRow → Bool
lets_in caller event gate t g =
    (is_gate_grant caller event gate g && is_standing g) && in_window t g

abbrev pub is_authorised : Try Authorisation → Bool
is_authorised (ok c) = true
is_authorised (fail e) = false

-- An authorisation that lasts at least as long as a grant.
abbrev pub outlasts : Try Authorisation → GrantRow → Bool
outlasts (ok c) g = leb g.valid_until c.until
outlasts (fail e) g = false

-- An authorisation that names a grant and its end.
abbrev pub names : Try Authorisation → GrantRow → Bool
names (ok c) g = (g.id == c.grant) && (g.valid_until == c.until)
names (fail e) g = true

-- What the check promises of the operator's grants.
abbrev pub Promises : (GrantRow → Bool) → List GrantRow → Try Authorisation → Type 0
Promises p gs x =
    (is_authorised x ≡ exists_where p gs)
    × All (λ (g : GrantRow). (not (p g) || outlasts x g) ≡ true) gs
    × ((not (is_authorised x) || exists_where (λ g. p g && names x g) gs) ≡ true)

picked-Promises :
    (p : GrantRow → Bool) (event gate t : ℕ) (rows gs : List GrantRow) (o : Option GrantRow)
    → is_some o ≡ exists_where p gs
    → All (IsCovered p o) gs
    → ((h : GrantRow) → o ≡ some h → exists_where (is_row p (some h)) gs ≡ true)
    → Promises p gs (authorised event gate t rows o)
picked-Promises p event gate t rows gs none s c k = (s, c, refl)
picked-Promises p event gate t rows gs (some h) s c k = (s, c, k h refl)

-- The check at a gate admits exactly where one of the operator's grants of the gate stands and is in
-- its window; what it answers is one of these grants with its end, and none of them ends later.
pub check_gate_iff :
    (caller : OperatorCaller) (event gate t : ℕ) (a : Accounts)
    → Promises (lets_in caller event gate t) a.operator_grants (check_gate caller event gate t a)
unfolding check_gate
check_gate_iff caller event gate t a =
    let p = lets_in caller event gate t in
    let gs = a.operator_grants in
    let rows = select_where (is_gate_grant caller event gate) gs in
    let picked =
      picked-Promises p event gate t rows gs (pick p gs) (pick_some p gs) (pick_covers p gs)
        (pick_row p gs) in
    let same_rows =
      ap (select_where (in_window t))
        (select_select is_standing (is_gate_grant caller event gate) gs)
      ∙ select_select (in_window t) (λ g. is_gate_grant caller event gate g && is_standing g) gs in
    subst (λ xs. Promises p gs (authorised event gate t rows (best xs))) (sym same_rows) picked
