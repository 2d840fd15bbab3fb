-- ===== src/Store/Monad.antt =====
-- Operations on the store that may throw, and `inTransaction` (src/sales/audit.ts): a
-- transaction that throws is rolled back. The advisory locks that the transactions take make
-- those of one event run one after another: a transaction is one step of the model.
use kippu_api.Store.Errors.{Error, Try, ok, fail}
use kippu_api.Store.External.{Answer, found, refused}
use kippu_api.Store.Errors.{spec}
use kippu_api.Store.Rows.{Db}

-- How an operation on a state ends: with a value, or with an exception.
pub data Ended (S A : Type 0) : Type 0 where
  done : A → S → Ended S A
  threw : Error → S → Ended S A

-- An operation on a state.
abbrev pub On : Type 0 → Type 0 → Type 0
On S A = S → Ended S A

abbrev pub Outcome : Type 0 → Type 0
Outcome A = Ended Db A

abbrev pub M : Type 0 → Type 0
M A = On Db A

abbrev pub pure : {S A : Type 0} → A → On S A
pure a db = done a db

abbrev pub throw : {S A : Type 0} → Error → On S A
throw e db = threw e db

infixl 5 ◌>>=◌ ◌>>◌
abbrev pub ◌>>=◌ : {S A B : Type 0} → On S A → (A → On S B) → On S B
◌>>=◌ m f db = elim (m db) [ done a db' ↦ f a db' | threw e db' ↦ threw e db' ]

abbrev pub ◌>>◌ : {S B : Type 0} → On S (Unit {0}) → On S B → On S B
m >> k = m >>= λ _. k

-- Reads the store.
abbrev pub get : {S : Type 0} → On S S
get db = done db db

-- Changes the store.
abbrev pub modify : {S : Type 0} → (S → S) → On S (Unit {0})
modify f db = done tt (f db)

-- A computed value or exception.
abbrev pub lift : {S A : Type 0} → Try A → On S A
lift (ok a) db = done a db
lift (fail e) db = threw e db

-- `if (!result.ok) throw new SpecCodeError(result.error.code)`
abbrev pub answered : {S A : Type 0} → Answer A → On S A
answered (found a) db = done a db
answered (refused code) db = threw (spec code) db

-- BEGIN … COMMIT, with ROLLBACK on an exception
abbrev pub in_transaction : {S A : Type 0} → On S A → On S A
in_transaction m db = elim (m db) [ done a db' ↦ done a db' | threw e _ ↦ threw e db ]

-- The store after an operation.
abbrev pub after : {S A : Type 0} → Ended S A → S
after (done a db) = db
after (threw e db) = db
