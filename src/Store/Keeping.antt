-- ===== src/Store/Keeping.antt =====
-- Operations that keep a property of the store, whether they end well or throw.
use kippu_api.Base.{Bool, true, false, if◌then◌else◌}
use kippu_api.Store.Errors.{Error, Try, ok, fail}
use kippu_api.Store.External.{Answer, found, refused}
use kippu_api.Store.Monad.{
  Ended, On, done, threw, after, pure, throw, get, modify, lift, answered, ◌>>=◌, ◌>>◌,
  in_transaction,
}

unfoldable pub Stays : {S A : Type 0} → (S → Type 0) → On S A → Type 0
Stays {S} P m = (db : S) → P db → P (after (m db))

module _ {S : Type 0} (P : S → Type 0) where
  pub bound :
      {A B : Type 0} (o : Ended S A) (f : A → On S B)
      → P (after o)
      → ((a : A) → Stays P (f a))
      → P (after (elim o [ done a db' ↦ f a db' | threw e db' ↦ threw e db' ]))
  unfolding Stays
  bound (done a db') f p h = h a db' p
  bound (threw e db') f p h = p

  pub bind-Stays :
      {A B : Type 0} (m : On S A) (f : A → On S B)
      → Stays P m
      → ((a : A) → Stays P (f a))
      → Stays P (m >>= f)
  unfolding Stays bound
  bind-Stays m f h k db p = bound (m db) f (h db p) k

  ended :
      {A : Type 0} (o : Ended S A) (db : S)
      → P db
      → P (after o)
      → P (after (elim o [ done a db' ↦ done a db' | threw e _ ↦ threw e db ]))
  ended (done a db') db old new = new
  ended (threw e db') db old new = old

  pub in_transaction-Stays : {A : Type 0} (m : On S A) → Stays P m → Stays P (in_transaction m)
  unfolding Stays
  in_transaction-Stays m h db p = ended (m db) db p (h db p)

  pub lift-Stays : {A : Type 0} (r : Try A) → Stays P (lift r)
  unfolding Stays
  lift-Stays (ok a) db p = p
  lift-Stays (fail e) db p = p

  pub if-Stays :
      {A : Type 0} (b : Bool) (m n : On S A) → Stays P m → Stays P n → Stays P (if b then m else n)
  if-Stays true m n h k = h
  if-Stays false m n h k = k

  -- Goes on from a value that the store and its rows determine.
  pub lift_bind-Stays :
      {A B : Type 0} (r : Try A) (f : A → On S B)
      → ((a : A) → Stays P (f a))
      → Stays P (lift r >>= f)
  lift_bind-Stays r f h = bind-Stays (lift r) f (lift-Stays r) h

  pub get_bind-Stays :
      {B : Type 0} (f : S → On S B) → ((db : S) → Stays P (f db)) → Stays P (get >>= f)
  unfolding Stays
  get_bind-Stays f h db p = h db db p

  -- As `get_bind-Stays`, for what depends on the property of the store that is read.
  pub get_with-Stays :
      {B : Type 0} (f : S → On S B) → ((db : S) → P db → P (after (f db db))) → Stays P (get >>= f)
  unfolding Stays
  get_with-Stays f h db p = h db p

  pub modify_bind-Stays :
      {B : Type 0} (g : S → S) (m : On S B)
      → ((db : S) → P db → P (g db))
      → Stays P m
      → Stays P (modify g >> m)
  unfolding Stays
  modify_bind-Stays g m h k db p = k (g db) (h db p)

  pub modify-Stays : (g : S → S) → ((db : S) → P db → P (g db)) → Stays P (modify g)
  unfolding Stays
  modify-Stays g h = h

  pub pure-Stays : {A : Type 0} (a : A) → Stays P (pure a)
  unfolding Stays
  pure-Stays a db p = p

  pub throw-Stays : (A : Type 0) (e : Error) → Stays P (throw {A = A} e)
  unfolding Stays
  throw-Stays A e db p = p

  pub then-Stays :
      {B : Type 0} (m : On S (Unit {0})) (k : On S B) → Stays P m → Stays P k → Stays P (m >> k)
  then-Stays m k h j = bind-Stays m (λ _. k) h (λ _. j)

  pub answered-Stays : {A : Type 0} (a : Answer A) → Stays P (answered a)
  unfolding Stays
  answered-Stays (found a) db p = p
  answered-Stays (refused code) db p = p

  pub ruleset staying = (
    get_bind-Stays, lift_bind-Stays, modify_bind-Stays, then-Stays, in_transaction-Stays, if-Stays,
    bind-Stays, pure-Stays, throw-Stays, lift-Stays, answered-Stays,
  )
