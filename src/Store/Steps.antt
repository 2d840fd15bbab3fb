-- ===== src/Store/Steps.antt =====
-- Going on in a chain of operations when the first has ended well.
use kippu_api.Base.{◌≡◌, refl, ◌∙◌}
use kippu_api.Store.Monad.{after, pure, On, Ended, done, threw, ◌>>=◌, in_transaction}

pub step_done :
    {S A B : Type 0} (P : Ended S B → Type 0) (m : On S A) (f : A → On S B) (now db now' : S)
    (a : A)
    → m now ≡ done a now'
    → P (in_transaction (λ _. f a now') db)
    → P (in_transaction (λ _. (m >>= f) now) db)
step_done P m f now db now' a e x = rw (e, in_transaction, ◌>>=◌) x

-- A transaction that ends well is committed.
pub committed :
    {S A : Type 0} (m : On S A) (now db now' : S) (a : A)
    → m now ≡ done a now'
    → in_transaction (λ _. m now) db ≡ done a now'
committed m now db now' a e = rw (e, in_transaction) refl

-- A transaction that ends well has run to its end.
pub ran :
    {S A : Type 0} (m : On S A) (db db' : S) (a : A)
    → in_transaction m db ≡ done a db'
    → m db ≡ done a db'
ran {S} {A} m db db' a e = by_outcome (m db) refl e
  where
    by_outcome :
        (o : Ended S A)
        → m db ≡ o
        → elim o [ done x d ↦ done x d | threw x _ ↦ threw x db ] ≡ done a db'
        → m db ≡ done a db'
    by_outcome (done x d) same h = same ∙ h
    by_outcome (threw x d) same h = absurd (cc h)

-- A chain that ends well has ended well so far.
pub chained :
    {S A B : Type 0} (m : On S A) (f : A → On S B) (db db' : S) (b : B)
    → (m >>= f) db ≡ done b db'
    → (a : A) × (now : S) × (m db ≡ done a now) × (f a now ≡ done b db')
chained {S} {A} {B} m f db db' b e = by_outcome (m db) refl e
  where
    by_outcome :
        (o : Ended S A)
        → m db ≡ o
        → elim o [ done a d ↦ f a d | threw x d ↦ threw x d ] ≡ done b db'
        → (a : A) × (now : S) × (m db ≡ done a now) × (f a now ≡ done b db')
    by_outcome (done a d) same h = (a, d, same, h)
    by_outcome (threw x d) same h = absurd (cc h)

-- A result that is dropped.
pub ignoring :
    {S A : Type 0} (m : On S A) (db : S) → after ((m >>= λ (_ : A). pure tt) db) ≡ after (m db)
ignoring {S} {A} m db = by_outcome (m db)
  where
    by_outcome :
        (o : Ended S A)
        → after {S = S} {A = Unit {0}} (elim o [ done a d ↦ done tt d | threw x d ↦ threw x d ])
          ≡ after o
    by_outcome (done a d) = refl
    by_outcome (threw x d) = refl
