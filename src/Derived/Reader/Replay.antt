-- ===== src/Derived/Reader/Replay.antt =====
-- What applying a batch does is what applying its records one by one does.
use kippu_api.Base.{
  ℕ, suc, ◌≡◌, refl, sym, ap, ◌∙◌, inl, inr, Bool, true, false, List, [], ◌∷◌, ◌++◌, Bool-cases,
  if◌then◌else◌, exists_where, append,
}
use kippu_api.Store.{Try, ok, fail, failure, Ended, On, done, threw, ◌>>=◌, ◌>>◌, get, modify, lift}
use kippu_api.Derived.Reader.{
  LogRecord, Copy, Projection, row_of, is_same_entry, last_cursor, record_applied, project,
  apply_records, move_to,
}

-- How an operation ends, without the state that an exception leaves behind.
abbrev pub result : {S A : Type 0} → Ended S A → Try (A × S)
result (done a s) = ok (a, s)
result (threw e s) = fail e

pub ok_same : {A : Type 0} {a b : A} → ok a ≡ ok b → a ≡ b
ok_same {A} {a} {b} e = cc

abbrev pub and_then : {A B : Type 0} → Try A → (A → Try B) → Try B
and_then (ok a) f = f a
and_then (fail e) f = fail e

result_bind :
    {S A B : Type 0} (m : On S A) (f : A → On S B) (s : S)
    → result ((m >>= f) s) ≡ and_then (result (m s)) (λ x. result (f x.0 x.1))
result_bind {S} {A} {B} m f s = by_outcome (m s)
  where
    by_outcome :
        (o : Ended S A)
        → result (elim o as (λ _. Ended S B) [ done a t ↦ f a t | threw e t ↦ threw e t ])
          ≡ and_then (result o) (λ x. result (f x.0 x.1))
    by_outcome (done a t) = refl
    by_outcome (threw e t) = refl

then_then :
    {A B C : Type 0} (t : Try A) (f : A → Try B) (g : B → Try C)
    → and_then (and_then t f) g ≡ and_then t (λ a. and_then (f a) g)
then_then (ok a) f g = refl
then_then (fail e) f g = refl

then_ext :
    {A B : Type 0} (t : Try A) (f g : A → Try B)
    → ((a : A) → f a ≡ g a)
    → and_then t f ≡ and_then t g
then_ext (ok a) f g h = h a
then_ext (fail e) f g h = refl

-- An operation that starts with a computed value.
result-lift :
    {S A B : Type 0} (t : Try A) (k : A → On S B) (s : S)
    → result ((lift t >>= k) s) ≡ and_then t (λ a. result (k a s))
result-lift (ok a) k s = refl
result-lift (fail e) k s = refl

module _ {F : Type 0} (ps : List (Projection F)) where
  abbrev pub project_all : List (Projection F) → F → ℕ → LogRecord → Try F
  project_all [] f sequence r = ok f
  project_all (p ∷ qs) f sequence r = and_then (p f sequence r) (λ g. project_all qs g sequence r)

  -- One record: its row, its effect in every projection, and the reader past it.
  abbrev pub apply_one : LogRecord → Copy F → Try (Copy F)
  apply_one r c =
      if exists_where (is_same_entry c.next_sequence r) c.log
      then fail failure
      else (and_then (project_all ps c.facts c.next_sequence r) (λ f. ok (record {
        cursor = r.cursor;
        next_sequence = suc c.next_sequence;
        log = append (row_of c.next_sequence r) c.log;
        facts = f;
      })))

  one_cursor : (r : LogRecord) (c x : Copy F) → apply_one r c ≡ ok x → x.cursor ≡ r.cursor
  one_cursor r c x e =
      by_fresh (exists_where (is_same_entry c.next_sequence r) c.log)
        (project_all ps c.facts c.next_sequence r) e
    where
      by_fresh :
          (b : Bool) (t : Try F)
          → (if b
              then fail failure
              else (and_then t (λ f. ok (record {
                cursor = r.cursor;
                next_sequence = suc c.next_sequence;
                log = append (row_of c.next_sequence r) c.log;
                facts = f;
              }))))
            ≡ ok x
          → x.cursor ≡ r.cursor
      by_fresh true t h = absurd (cc h)
      by_fresh false (fail y) h = absurd (cc h)
      by_fresh false (ok f) h = ap (λ (y : Copy F). y.cursor) (sym (ok_same h))

  unfoldable pub replay : List LogRecord → Copy F → Try (Copy F)
  replay [] c = ok c
  replay (r ∷ rs) c = and_then (apply_one r c) (λ d. replay rs d)

  pub replay-++ :
      (xs ys : List LogRecord) (c : Copy F)
      → replay (xs ++ ys) c ≡ and_then (replay xs c) (λ d. replay ys d)
  unfolding replay
  replay-++ [] ys c = refl
  replay-++ (x ∷ xs) ys c =
      then_ext (apply_one x c) _ _ (λ d. replay-++ xs ys d)
      ∙ sym (then_then (apply_one x c) (λ d. replay xs d) (λ d. replay ys d))

  result-project :
      (qs : List (Projection F)) (sequence : ℕ) (r : LogRecord) (c : Copy F)
      → result (project qs sequence r c)
        ≡ and_then (project_all qs c.facts sequence r) (λ f. ok (tt, record c { facts = f }))
  unfolding project
  result-project [] sequence r c = refl
  result-project (q ∷ qs) sequence r c =
      result-lift (q c.facts sequence r)
        (λ f. modify (λ (d : Copy F). record d { facts = f }) >> project qs sequence r) c
      ∙ then_ext (q c.facts sequence r) _ _
          (λ f. result-project qs sequence r (record c { facts = f }))
      ∙ sym (then_then (q c.facts sequence r) _ _)

  -- What a record's projections and the rest of the loop make of a copy.
  rest_result :
      (sequence : ℕ) (r : LogRecord) (rs : List LogRecord) (c : Copy F)
      → result ((project ps sequence r >> apply_records ps (suc sequence) rs) c)
        ≡ and_then
            (project_all ps c.facts sequence r)
            (λ f. result (apply_records ps (suc sequence) rs (record c { facts = f })))
  rest_result sequence r rs c =
      result_bind (project ps sequence r) (λ _. apply_records ps (suc sequence) rs) c
      ∙ ap (λ t. and_then t (λ x. result (apply_records ps (suc sequence) rs x.1)))
          (result-project ps sequence r c)
      ∙ then_then (project_all ps c.facts sequence r) _ _

  abbrev logged : ℕ → LogRecord → Copy F → Copy F
  logged sequence r c = record c { log = append (row_of sequence r) c.log }

  abbrev pub moved : ℕ → List LogRecord → ℕ × Copy F → Try (Copy F)
  moved cursor rs x = ok (move_to (last_cursor cursor rs) x.0 x.1)

  abbrev loop : ℕ → LogRecord → List LogRecord → Copy F → Try (ℕ × Copy F)
  loop sequence r rs d = result ((project ps sequence r >> apply_records ps (suc sequence) rs) d)

  abbrev entered : ℕ → LogRecord → Copy F → Bool → Try (Unit {0} × Copy F)
  entered sequence r c true = fail failure
  entered sequence r c false = ok (tt, logged sequence r c)

  abbrev advanced : ℕ → LogRecord → Copy F → F → Copy F
  advanced sequence r c f =
      move_to r.cursor (suc sequence) (record (logged sequence r c) { facts = f })

  one_by_one :
      (sequence : ℕ) (r : LogRecord) (rs : List LogRecord) (c : Copy F) (b : Bool)
      → ((f : F)
          → replay rs (advanced sequence r c f)
            ≡ and_then
                (result
                  (apply_records ps (suc sequence) rs (record (logged sequence r c) { facts = f })))
                (moved r.cursor rs))
      → and_then
          (if b
            then fail failure
            else (and_then (project_all ps c.facts sequence r) (λ f. ok (advanced sequence r c f))))
          (λ d. replay rs d)
        ≡ and_then
            (and_then (entered sequence r c b) (λ (x : Unit {0} × Copy F). loop sequence r rs x.1))
            (moved r.cursor rs)
  one_by_one sequence r rs c true ih = refl
  one_by_one sequence r rs c false ih =
      then_then (project_all ps c.facts sequence r) _ _
      ∙ then_ext (project_all ps c.facts sequence r) _ _ ih
      ∙ sym (then_then (project_all ps c.facts sequence r) _ (moved r.cursor rs))
      ∙ ap (λ t. and_then t (moved r.cursor rs))
          (sym (rest_result sequence r rs (logged sequence r c)))

  result-entered :
      (sequence : ℕ) (r : LogRecord) (c : Copy F)
      → result (record_applied sequence r c)
        ≡ entered sequence r c (exists_where (is_same_entry sequence r) c.log)
  unfolding record_applied
  result-entered sequence r c = elim (Bool-cases (exists_where (is_same_entry sequence r) c.log)) [
    | inl known ↦ rw (◌>>=◌, get, known) refl
    | inr fresh ↦ rw (◌>>=◌, get, fresh) refl
  ]

  -- The loop over a batch's records, and its last update, are the records one after another.
  pub batch_replays :
      (rs : List LogRecord) (cursor sequence : ℕ) (c : Copy F)
      → replay rs (move_to cursor sequence c)
        ≡ and_then (result (apply_records ps sequence rs c)) (moved cursor rs)
  unfolding replay apply_records
  batch_replays [] cursor sequence c = refl
  batch_replays (r ∷ rs) cursor sequence c =
      one_by_one sequence r rs c (exists_where (is_same_entry sequence r) c.log)
        (λ f. batch_replays rs r.cursor (suc sequence) (record (logged sequence r c) { facts = f }))
      ∙ ap
          (λ t.
            and_then (and_then t (λ (x : Unit {0} × Copy F). loop sequence r rs x.1))
              (moved r.cursor rs))
          (sym (result-entered sequence r c))
      ∙ ap (λ t. and_then t (moved r.cursor rs))
          (sym (
            result_bind (record_applied sequence r)
              (λ _. project ps sequence r >> apply_records ps (suc sequence) rs) c))

  -- Replaying records leaves the reader at the last one's cursor.
  pub replay_cursor :
      (rs : List LogRecord) (c d : Copy F) → replay rs c ≡ ok d → d.cursor ≡ last_cursor c.cursor rs
  unfolding replay
  replay_cursor [] c d e = ap (λ (x : Copy F). x.cursor) (sym (ok_same e))
  replay_cursor (r ∷ rs) c d e =
      by_one (apply_one r c) (one_cursor r c) (λ x y. replay_cursor rs x d y) e
    where
      by_one :
          (t : Try (Copy F))
          → ((x : Copy F) → t ≡ ok x → x.cursor ≡ r.cursor)
          → ((x : Copy F) → replay rs x ≡ ok d → d.cursor ≡ last_cursor x.cursor rs)
          → and_then t (λ x. replay rs x) ≡ ok d
          → d.cursor ≡ last_cursor r.cursor rs
      by_one (ok x) here later h = later x h ∙ ap (λ y. last_cursor y rs) (here x refl)
      by_one (fail x) here later h = absurd (cc h)
