-- ===== src/Examples/Reading.antt =====
-- The reader catches up with a log of two records, a batch of one at a time.
use kippu_api.Base.{
  ℕ, suc, ◌≤◌, ◌≡◌, refl, ap, none, some, List, [], ◌∷◌, ◌++◌, arith, ◌==◌, if◌then◌else◌, length,
  exists_where, subst, sym,
}
use kippu_api.Store.{ok, found, refused, other_code, done}
use kippu_api.Derived.Reader.{LogRecord, LogReader, Copy, Projection, last_cursor, catch_up, step}
use kippu_api.Derived.Reader.Replay.{replay}
use kippu_api.Derived.Reader.CatchUp.{Told, step-Told, KeepsContract, catch_up_reads_all}

abbrev entry : ℕ → LogRecord
entry cursor = record {
  cursor = cursor;
  recorded_at = 100;
  event = none;
  event_sequence = none;
  kind = 3;
  operation_id = some 4;
  presented_at = none;
}

abbrev log : List LogRecord
log = entry 11 ∷ entry 12 ∷ []

abbrev reader : LogReader
reader cursor limit =
    if cursor == 10
    then found (record { records = entry 11 ∷ []; next = 11 })
    else (if cursor == 11
        then found (record { records = entry 12 ∷ []; next = 12 })
        else (if cursor == 12
            then found (record { records = []; next = 12 })
            else refused (other_code 9)))

-- A projection that counts the records.
abbrev counting : Projection ℕ
counting n sequence r = ok (suc n)

abbrev empty_copy : Copy ℕ
empty_copy = record { cursor = 10; next_sequence = 0; log = []; facts = 0 }

abbrev head_page : List LogRecord → List LogRecord
head_page [] = []
head_page (y ∷ ys) = y ∷ []

abbrev tail : List LogRecord → List LogRecord
tail [] = []
tail (y ∷ ys) = ys

abbrev head_cursor : List LogRecord → ℕ
head_cursor [] = 0
head_cursor (y ∷ ys) = y.cursor

head_and_tail : (ys : List LogRecord) → head_page ys ++ tail ys ≡ ys
head_and_tail [] = refl
head_and_tail (y ∷ ys) = refl

one_at_most : (ys : List LogRecord) → length (head_page ys) ≤ 1
one_at_most [] = omega arith
one_at_most (y ∷ ys) = omega arith

none_left : (ys : List LogRecord) → head_page ys ≡ [] → ys ≡ []
none_left [] e = refl
none_left (y ∷ ys) e = absurd (cc e)

abbrev AnswersAt : List LogRecord → List LogRecord → Type 0
AnswersAt xs ys =
    reader (last_cursor 10 xs) 1
    ≡ found
        (record { records = head_page ys; next = last_cursor (last_cursor 10 xs) (head_page ys) })

answers : (xs ys : List LogRecord) → xs ++ ys ≡ log → AnswersAt xs ys
answers [] ys e = subst (AnswersAt []) (sym e) refl
answers (x ∷ []) ys e =
    let rest : ys ≡ entry 12 ∷ [] = ap tail e in
    let first : x.cursor ≡ 11 = ap head_cursor e in rw (rest, first) refl
answers (x ∷ x' ∷ []) ys e =
    let rest : ys ≡ [] = ap (λ zs. tail (tail zs)) e in
    let second : x'.cursor ≡ 12 = ap (λ zs. head_cursor (tail zs)) e in rw (rest, second) refl
answers (x ∷ x' ∷ x'' ∷ xs) ys e =
    let over : suc (suc (suc (length (xs ++ ys)))) ≡ 2 = ap length e in absurd (omega arith)

contract : KeepsContract reader (counting ∷ []) 1 10 log
contract = record {
  page = λ xs ys. head_page ys;
  rest = λ xs ys. tail ys;
  is_split = λ xs ys e. head_and_tail ys;
  is_short = λ xs ys. one_at_most ys;
  moves = λ xs ys e. none_left ys e;
  answers = answers;
}

abbrev full_copy : Copy ℕ
full_copy = record {
  cursor = 12;
  next_sequence = 2;
  log =
      (record {
        sequence = 0;
        cursor = 11;
        recorded_at = 100;
        event_id = none;
        event_sequence = none;
        entry_kind = 3;
        operation_id = some 4;
        presented_at = none;
      })
      ∷ (record {
        sequence = 1;
        cursor = 12;
        recorded_at = 100;
        event_id = none;
        event_sequence = none;
        entry_kind = 3;
        operation_id = some 4;
        presented_at = none;
      })
      ∷ [];
  facts = 2;
}

log_replays : replay (counting ∷ []) log empty_copy ≡ ok full_copy
unfolding replay exists_where
log_replays = refl

catch_up_reads_all_example :
    catch_up reader (counting ∷ []) 1 3 0 empty_copy ≡ done (some 2) full_copy
catch_up_reads_all_example =
    catch_up_reads_all reader (counting ∷ []) 1 10 log contract full_copy 3 empty_copy refl
      log_replays (omega arith)

step-Told_example :
    Told reader (counting ∷ []) 1 empty_copy (step reader (counting ∷ []) 1 empty_copy)
step-Told_example = step-Told reader (counting ∷ []) 1 empty_copy
