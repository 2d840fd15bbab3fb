-- ===== src/Derived/Reader.antt =====
-- src/derived/reader.ts: the reader that applies the ledger's log to the derived copy, a batch in a
-- transaction. The ledger's log and the projections are parameters; the projections' tables are of
-- a type `F`. Waiting for hints, and the loop in the background, are left out.
pub mod Replay
pub mod CatchUp
use kippu_api.Base.{
  ℕ, zero, suc, ◌+◌, ◌≡◌, Bool, true, false, not, ◌&&◌, ◌||◌, Option, none, some, List, [], ◌∷◌,
  ◌==◌, ltb, if◌then◌else◌, length, exists_where, append,
}
use kippu_api.Store.{
  Error, Try, ok, fail, failure, Answer, found, refused, spec, On, ◌>>=◌, ◌>>◌, get, modify, lift,
  pure, throw, answered, in_transaction,
}

-- A record of the ledger's log. A cursor is opaque: only compared.
pub record LogRecord : Type 0 where
  pub cursor : ℕ
  pub recorded_at : ℕ
  pub event : Option ℕ
  pub event_sequence : Option ℕ
  pub kind : ℕ
  pub operation_id : Option ℕ
  pub presented_at : Option ℕ

pub record Page : Type 0 where
  pub records : List LogRecord
  pub next : ℕ

-- `log.read(cursor, limit)`
abbrev pub LogReader : Type 0
LogReader = ℕ → ℕ → Answer Page

-- A row of derived_log.
pub record LogRow : Type 0 where
  pub sequence : ℕ
  pub cursor : ℕ
  pub recorded_at : ℕ
  pub event_id : Option ℕ
  pub event_sequence : Option ℕ
  pub entry_kind : ℕ
  pub operation_id : Option ℕ
  pub presented_at : Option ℕ

-- The row of derived_reader, derived_log, and the projections' tables.
pub record Copy (F : Type 0) : Type 0 where
  pub cursor : ℕ
  pub next_sequence : ℕ
  pub log : List LogRow
  pub facts : F

-- `projection.apply`, with the record's place in the log.
abbrev pub Projection : Type 0 → Type 0
Projection F = F → ℕ → LogRecord → Try F

pub record AppliedBatch : Type 0 where
  pub cursor : ℕ
  pub next_sequence : ℕ
  pub records : List LogRecord

abbrev pub row_of : ℕ → LogRecord → LogRow
row_of sequence r = record {
  sequence = sequence;
  cursor = r.cursor;
  recorded_at = r.recorded_at;
  event_id = r.event;
  event_sequence = r.event_sequence;
  entry_kind = r.kind;
  operation_id = r.operation_id;
  presented_at = r.presented_at;
}

-- Rows of one sequence or of one cursor violate the table's keys.
abbrev pub is_same_entry : ℕ → LogRecord → LogRow → Bool
is_same_entry sequence r x = (x.sequence == sequence) || (x.cursor == r.cursor)

-- `records.at(-1)?.cursor`, or the cursor that was read from
abbrev pub last_cursor : ℕ → List LogRecord → ℕ
last_cursor from [] = from
last_cursor from (r ∷ rs) = last_cursor r.cursor rs

-- A page that keeps the contract of the `LogReader`.
abbrev pub check_page : ℕ → ℕ → Page → Try (Unit {0})
check_page batch_size from page =
    if ltb batch_size (length page.records) || not (page.next == last_cursor from page.records)
    then fail failure
    else ok tt

module _ {F : Type 0} where
  unfoldable pub record_applied : ℕ → LogRecord → On (Copy F) (Unit {0})
  record_applied sequence r = do
    c ← get
    if exists_where (is_same_entry sequence r) c.log
        then throw failure
        else modify (λ d. record d { log = append (row_of sequence r) d.log })

  unfoldable pub project : List (Projection F) → ℕ → LogRecord → On (Copy F) (Unit {0})
  project [] sequence r = pure tt
  project (p ∷ ps) sequence r = do
    c ← get
    facts ← lift (p c.facts sequence r)
    modify (λ d. record d { facts = facts })
    project ps sequence r

  -- `for (const record of records)`; the sequence of the next record
  unfoldable pub apply_records : List (Projection F) → ℕ → List LogRecord → On (Copy F) ℕ
  apply_records ps sequence [] = pure sequence
  apply_records ps sequence (r ∷ rs) = do
    record_applied sequence r
    project ps sequence r
    apply_records ps (suc sequence) rs

  abbrev pub move_to : ℕ → ℕ → Copy F → Copy F
  move_to cursor sequence c = record c { cursor = cursor; next_sequence = sequence }

  module _ (read : LogReader) (ps : List (Projection F)) (batch_size : ℕ) where
    unfoldable pub apply_page : Copy F → Page → On (Copy F) AppliedBatch
    apply_page from page = elim page.records [
      | [] ↦
          pure (record { cursor = from.cursor; next_sequence = from.next_sequence; records = [] })
      | r ∷ rs ↦ apply_records ps from.next_sequence (r ∷ rs) >>= λ sequence.
          modify (move_to page.next sequence)
          >> pure (record { cursor = page.next; next_sequence = sequence; records = r ∷ rs })
    ]

    unfoldable pub step : On (Copy F) AppliedBatch
    step = in_transaction do
      from ← get
      page ← answered (read from.cursor batch_size)
      _ ← lift (check_page batch_size from.cursor page)
      apply_page from page

    -- Until a step applies nothing; how many records were applied.
    unfoldable pub catch_up : ℕ → ℕ → On (Copy F) (Option ℕ)
    catch_up zero applied = pure none
    catch_up (suc fuel) applied = step >>= λ batch. elim batch.records [
      | [] ↦ pure (some applied)
      | r ∷ rs ↦ catch_up fuel (applied + length (r ∷ rs))
    ]
