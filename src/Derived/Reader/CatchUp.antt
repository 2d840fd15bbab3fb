-- ===== src/Derived/Reader/CatchUp.antt =====
-- A step of the reader applies a batch of the log whole or not at all, and the reader catches up.
use kippu_api.Base.{
  ℕ, zero, suc, ◌+◌, ◌≤◌, ◌<◌, ◌≡◌, refl, sym, ap, ◌∙◌, subst, Option, some, List, [], ◌∷◌, ◌++◌,
  arith, ==_iff, length, length-++, ++_assoc,
}
use kippu_api.Store.{
  Try, ok, fail, Answer, found, refused, Ended, On, done, threw, ◌>>=◌, get, lift, pure, answered,
  in_transaction,
}
use kippu_api.Derived.Reader.{
  LogRecord, Page, LogReader, Copy, Projection, AppliedBatch, last_cursor, check_page,
  apply_records, move_to, apply_page, step, catch_up,
}
use kippu_api.Derived.Reader.Replay.{
  result, and_then, moved, replay, replay-++, replay_cursor, batch_replays, ok_same,
}

module _ {F : Type 0} (read : LogReader) (ps : List (Projection F)) (batch_size : ℕ) where
  -- A step that returns has applied its batch's records, one after another; one that throws has
  -- changed nothing.
  abbrev pub Told : Copy F → Ended (Copy F) AppliedBatch → Type 0
  Told c (done batch d) = replay ps batch.records c ≡ ok d
  Told c (threw e d) = d ≡ c

  abbrev page_of : List LogRecord → ℕ → Page
  page_of rs next = record { records = rs; next = next }

  abbrev applied_batch : List LogRecord → ℕ → ℕ → AppliedBatch
  applied_batch rs next sequence = record { cursor = next; next_sequence = sequence; records = rs }

  -- How the loop over a page's records ends, and then its transaction.
  abbrev ending : Copy F → List LogRecord → ℕ → Ended (Copy F) ℕ → Ended (Copy F) AppliedBatch
  ending c rs next (done s d) = done (applied_batch rs next s) (move_to next s d)
  ending c rs next (threw x d) = threw x c

  apply_page_ends :
      (c : Copy F) (r : LogRecord) (rs : List LogRecord) (next : ℕ)
      → in_transaction (apply_page read ps batch_size c (page_of (r ∷ rs) next)) c
        ≡ ending c (r ∷ rs) next (apply_records ps c.next_sequence (r ∷ rs) c)
  unfolding apply_page
  apply_page_ends c r rs next = by_outcome (apply_records ps c.next_sequence (r ∷ rs) c)
    where
      by_outcome :
          (o : Ended (Copy F) ℕ)
          → in_transaction
              (λ _. elim o as (λ _. Ended (Copy F) AppliedBatch) [
                | done s d ↦ done (applied_batch (r ∷ rs) next s) (move_to next s d)
                | threw x d ↦ threw x d
              ])
              c
            ≡ ending c (r ∷ rs) next o
      by_outcome (done s d) = refl
      by_outcome (threw x d) = refl

  Told-ending :
      (c : Copy F) (rs : List LogRecord) (next : ℕ) (o : Ended (Copy F) ℕ)
      → apply_records ps c.next_sequence rs c ≡ o
      → next ≡ last_cursor c.cursor rs
      → Told c (ending c rs next o)
  Told-ending c rs next (done s d) e last =
      batch_replays ps rs c.cursor c.next_sequence c
      ∙ ap (λ o. and_then (result o) (moved ps c.cursor rs)) e
      ∙ ap (λ x. ok (move_to x s d)) (sym last)
  Told-ending c rs next (threw x d) e last = refl

  Told-page :
      (c : Copy F) (rs : List LogRecord) (next : ℕ)
      → next ≡ last_cursor c.cursor rs
      → Told c (in_transaction (apply_page read ps batch_size c (page_of rs next)) c)
  unfolding apply_page replay
  Told-page c [] next last = refl
  Told-page c (r ∷ rs) next last =
      subst (Told c) (sym (apply_page_ends c r rs next)) (Told-ending c (r ∷ rs) next _ refl last)

  -- What the checks let through.
  checked :
      (c : Copy F) (page : Page)
      → check_page batch_size c.cursor page ≡ ok tt
      → page.next ≡ last_cursor c.cursor page.records
  checked c page e = ground arith

  -- Whatever the ledger's log answers, and whatever the projections do: a step that returns leaves
  -- the copy that applying its batch's records one by one gives, the cursor and the number of the
  -- next record included, and a step that throws leaves the copy as it was.
  pub step-Told : (c : Copy F) → Told c (step read ps batch_size c)
  unfolding step
  step-Told c = by_read (read c.cursor batch_size)
    where
      by_check :
          (page : Page) (x : Try (Unit {0}))
          → check_page batch_size c.cursor page ≡ x
          → Told c (in_transaction (lift x >>= λ _. apply_page read ps batch_size c page) c)
      by_check page (ok _) e = Told-page c page.records page.next (checked c page e)
      by_check page (fail x) e = refl

      by_read :
          (x : Answer Page)
          → Told c (
              in_transaction
                (answered x >>= λ page. lift (check_page batch_size c.cursor page) >>= λ _.
                  apply_page read ps batch_size c page)
                c)
      by_read (refused code) = refl
      by_read (found page) = by_check page _ refl

  -- The log's contract: from a cursor in the log, a read of a batch answers the records that follow
  -- it, at most as many as asked for, at least one where there are any, and the last one's cursor.
  pub record KeepsContract (start : ℕ) (all : List LogRecord) : Type 0 where
    pub page : List LogRecord → List LogRecord → List LogRecord
    pub rest : List LogRecord → List LogRecord → List LogRecord
    pub is_split : (xs ys : List LogRecord) → xs ++ ys ≡ all → page xs ys ++ rest xs ys ≡ ys
    pub is_short : (xs ys : List LogRecord) → length (page xs ys) ≤ batch_size
    pub moves : (xs ys : List LogRecord) → page xs ys ≡ [] → ys ≡ []
    pub answers :
        (xs ys : List LogRecord)
        → xs ++ ys ≡ all
        → read (last_cursor start xs) batch_size
          ≡ found (page_of (page xs ys) (last_cursor (last_cursor start xs) (page xs ys)))

  check_passes :
      (c : Copy F) (rs : List LogRecord)
      → length rs ≤ batch_size
      → check_page batch_size c.cursor (page_of rs (last_cursor c.cursor rs)) ≡ ok tt
  check_passes c rs short =
      let same = (==_iff (last_cursor c.cursor rs) (last_cursor c.cursor rs)).1 refl in ground arith

  step_page :
      (c : Copy F) (page : Page)
      → read c.cursor batch_size ≡ found page
      → check_page batch_size c.cursor page ≡ ok tt
      → step read ps batch_size c ≡ in_transaction (apply_page read ps batch_size c page) c
  unfolding step
  step_page c page e passes = rw (in_transaction, ◌>>=◌, get, e, answered, passes, lift) refl

  -- A page whose records can be applied is applied.
  ending_done :
      (c d : Copy F) (rs : List LogRecord) (o : Ended (Copy F) ℕ)
      → and_then (result o) (moved ps c.cursor rs) ≡ ok d
      → (s : ℕ) × (ending c rs (last_cursor c.cursor rs) o
          ≡ done (applied_batch rs (last_cursor c.cursor rs) s) d)
  ending_done c d rs (done s x) e =
      (s, ap (done (applied_batch rs (last_cursor c.cursor rs) s)) (ok_same e))
  ending_done c d rs (threw x y) e = absurd (cc e)

  step_reads :
      (c d : Copy F) (rs : List LogRecord)
      → read c.cursor batch_size ≡ found (page_of rs (last_cursor c.cursor rs))
      → length rs ≤ batch_size
      → replay ps rs c ≡ ok d
      → (batch : AppliedBatch) × (step read ps batch_size c ≡ done batch d) × (batch.records ≡ rs)
  unfolding replay apply_page
  step_reads c d [] answer short applied = (
    applied_batch [] c.cursor c.next_sequence,
    step_page c _ answer (check_passes c [] short)
        ∙ ap (done (applied_batch [] c.cursor c.next_sequence)) (ok_same applied),
    refl,
  )
  step_reads c d (r ∷ rs) answer short applied =
      let loop = apply_records ps c.next_sequence (r ∷ rs) c in
      let (s, ended) =
        ending_done c d (r ∷ rs) loop
          (sym (batch_replays ps (r ∷ rs) c.cursor c.next_sequence c) ∙ applied) in
      (
        applied_batch (r ∷ rs) (last_cursor c.cursor (r ∷ rs)) s,
        step_page c _ answer (check_passes c (r ∷ rs) short)
            ∙ apply_page_ends c r rs (last_cursor c.cursor (r ∷ rs))
            ∙ ended,
        refl,
      )

  last_of_both :
      (from : ℕ) (xs ys : List LogRecord)
      → last_cursor from (xs ++ ys) ≡ last_cursor (last_cursor from xs) ys
  last_of_both from [] ys = refl
  last_of_both from (x ∷ xs) ys = last_of_both x.cursor xs ys

  -- What a replay that ends well has passed on the way.
  replay_splits :
      (zs ws : List LogRecord) (c full : Copy F)
      → replay ps (zs ++ ws) c ≡ ok full
      → (d : Copy F) × (replay ps zs c ≡ ok d) × (replay ps ws d ≡ ok full)
  replay_splits zs ws c full e = by_first (replay ps zs c) refl (sym (replay-++ ps zs ws c) ∙ e)
    where
      by_first :
          (t : Try (Copy F))
          → replay ps zs c ≡ t
          → and_then t (λ d. replay ps ws d) ≡ ok full
          → (d : Copy F) × (replay ps zs c ≡ ok d) × (replay ps ws d ≡ ok full)
      by_first (ok d) same h = (d, same, h)
      by_first (fail x) same h = absurd (cc h)

  -- After a page: nothing left, or the rest of the log.
  goes_on :
      (fuel applied : ℕ) (zs ws ys : List LogRecord) (d full : Copy F)
      → zs ++ ws ≡ ys
      → (zs ≡ [] → ys ≡ [])
      → replay ps ws d ≡ ok full
      → length ys < suc fuel
      → ((n : ℕ)
          → length ws < fuel
          → catch_up read ps batch_size fuel n d ≡ done (some (n + length ws)) full)
      → elim zs as (λ _. On (Copy F) (Option ℕ)) [
        | [] ↦ pure (some applied)
        | r ∷ rs ↦ catch_up read ps batch_size fuel (applied + length (r ∷ rs))
      ]
          d
        ≡ done (some (applied + length ys)) full
  unfolding replay
  goes_on fuel applied [] ws ys d full split moves later enough rest =
      let none_left : ys ≡ [] = moves refl in
      let none_here : ws ≡ [] = split ∙ none_left in
      let same : d ≡ full = ok_same (rw none_here at later) in
      let count : applied ≡ applied + length ys = rw none_left (omega arith) in
      rw (← count, same) refl
  goes_on fuel applied (r ∷ rs) ws ys d full split moves later enough rest =
      let count : length ys ≡ length (r ∷ rs) + length ws =
        ap length (sym split) ∙ length-++ (r ∷ rs) ws in
      let sum : (applied + length (r ∷ rs)) + length ws ≡ applied + length ys = omega arith in
      rest (applied + length (r ∷ rs)) (omega arith) ∙ ap (λ n. done (some n) full) sum

  module _ (start : ℕ) (all : List LogRecord) (log : KeepsContract start all) (full : Copy F) where
    -- From a copy that reflects part of the log.
    catches_up :
        (fuel applied : ℕ) (xs ys : List LogRecord) (c : Copy F)
        → xs ++ ys ≡ all
        → c.cursor ≡ last_cursor start xs
        → replay ps ys c ≡ ok full
        → length ys < fuel
        → catch_up read ps batch_size fuel applied c ≡ done (some (applied + length ys)) full
    unfolding catch_up
    catches_up zero applied xs ys c split at done_all enough = absurd (omega arith)
    catches_up (suc fuel) applied xs ys c split at done_all enough =
        let zs = log.page xs ys in
        let ws = log.rest xs ys in
        let parts : zs ++ ws ≡ ys = log.is_split xs ys split in
        let (d, here, later) = replay_splits zs ws c full (rw parts done_all) in
        let (batch, ended, same) =
          step_reads c d zs
            (subst (λ x. read x batch_size ≡ found (page_of zs (last_cursor x zs))) (sym at)
              (log.answers xs ys split))
            (log.is_short xs ys) here in
        let next_at : d.cursor ≡ last_cursor start (xs ++ zs) =
          replay_cursor ps zs c d here
          ∙ ap (λ x. last_cursor x zs) at
          ∙ sym (last_of_both start xs zs) in
        rw (◌>>=◌, ended, same)
          (goes_on fuel applied zs ws ys d full parts (log.moves xs ys) later enough (λ n shorter.
            catches_up fuel n (xs ++ zs) ws d (++_assoc xs zs ws ∙ ap (λ v. xs ++ v) parts ∙ split)
              next_at later shorter))

    -- Catching up ends, and reflects the whole log: from a copy at the log's start, where the ledger
    -- answers by the log's contract and every record of the log can be applied in turn, fuel for one
    -- step more than there are records is enough, the copy is the one that applying the log's records
    -- one by one gives, and as many are counted as the log has.
    pub catch_up_reads_all :
        (fuel : ℕ) (c : Copy F)
        → c.cursor ≡ start
        → replay ps all c ≡ ok full
        → length all < fuel
        → catch_up read ps batch_size fuel 0 c ≡ done (some (length all)) full
    catch_up_reads_all fuel c at applied enough =
        catches_up fuel 0 [] all c refl at applied enough
        ∙ ap (λ n. done (some n) full) (omega arith)
