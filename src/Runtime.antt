-- ===== src/Runtime.antt =====
-- The world in which a process runs: its transactions, its requests to SQS and the other processes.
-- A transaction commits on success and rolls back when its body raises (the context managers
-- `_session` of app/worker.py and app/ingestor.py, `get_db` of app/api/deps.py and `session_scope` of
-- app/db.py). Before each transaction the other processes may commit anything; every transaction and
-- every request to SQS may fail. `Env` decides all of that, by the number of the call.
use convoscore.Prelude.{
  ◌⊎◌, ℕ, suc, Bool, true, false, Option, List, if◌then◌else◌, ◌≡◌, ap, refl, sym, subst,
  Bool-cases, inl, inr,
}
use convoscore.Text.{Text}
use convoscore.Models.{Uuid, Time, Db}

-- A request that SQS has carried out.
pub data Request : Type 0 where
  delete_message : Text → Request
  change_message_visibility : Text → ℕ → Request
  send_message : Uuid → Request

pub record World : Type 0 where
  pub db : Db
  -- transactions, requests to SQS and provider calls so far
  pub transactions : ℕ
  pub requests : ℕ
  pub scored : ℕ
  -- `SqsQueue._queue_url`
  pub queue_url : Option Text
  -- what SQS has carried out, the newest first
  pub sent : List Request

pub record Env : Type 0 where
  pub now : ℕ → Time
  pub interfere : ℕ → Db → Db
  pub db_fails : ℕ → Bool
  pub sqs_fails : ℕ → Bool
  -- whether SQS has carried out a request whose call raises: its response was lost
  pub arrives : ℕ → Bool
  -- the answer to `get_queue_url`
  pub resolve : ℕ → Option Text

pub data Raised : Type 0 where
  queue_unavailable publish_error database_error integrity_error storage_unavailable unexpected :
      Raised

pub data Result (A : Type 0) : Type 0 where
  ok : A → Result A
  raise : Raised → Result A

abbrev pub M : Type 0 → Type 0
M A = World → Result A × World

infixl 5 ◌>>=◌ ◌>>◌
abbrev pub ◌>>=◌ : {A B : Type 0} → M A → (A → M B) → M B
◌>>=◌ m f w = let (r, w') = m w in elim r [ ok a ↦ f a w' | raise e ↦ (raise e, w') ]

abbrev pub ◌>>◌ : {A B : Type 0} → M A → M B → M B
m >> k = m >>= λ _. k

abbrev pub pure : {A : Type 0} → A → M A
pure a w = (ok a, w)

abbrev pub raising : {A : Type 0} → Raised → M A
raising e w = (raise e, w)

-- The database that the next transaction works on.
abbrev pub seen : Env → World → Db
seen env w = env.interfere w.transactions w.db

-- `with self._session() as session:` around a body that reads the clock and the database.
abbrev pub commit : {A : Type 0} → Result A × Db → Db → Result A × Db
commit (ok a, db') db = (ok a, db')
commit (raise e, db') db = (raise e, db)

unfoldable pub transaction : {A : Type 0} → Env → (Time → Db → Result A × Db) → M A
transaction env body w =
    let before = seen env w in
    let (r, db') = commit (body (env.now w.transactions) before) before in
    if env.db_fails w.transactions
    then (raise database_error, record w { db = before; transactions = suc w.transactions })
    else (r, record w { db = db'; transactions = suc w.transactions })

-- The two ways in which a first step ends.
pub bind_ok :
    {A B : Type 0} (m : M A) (f : A → M B) (w : World) {a : A} {w' : World}
    → m w ≡ (ok a, w')
    → (m >>= f) w ≡ f a w'
bind_ok {A} {B} m f w h =
    ap
      (λ (p : Result A × World).
        let q : Result B × World = elim p.0 [ ok a ↦ f a p.1 | raise e ↦ (raise e, p.1) ] in q)
      h

pub bind_raise :
    {A B : Type 0} (m : M A) (f : A → M B) (w : World) {e : Raised} {w' : World}
    → m w ≡ (raise e, w')
    → (m >>= f) w ≡ (raise e, w')
bind_raise {A} {B} m f w h =
    ap
      (λ (p : Result A × World).
        let q : Result B × World = elim p.0 [ ok a ↦ f a p.1 | raise e ↦ (raise e, p.1) ] in q)
      h

pub transaction_fails :
    {A : Type 0} (env : Env) (body : Time → Db → Result A × Db) (w : World)
    → env.db_fails w.transactions ≡ true
    → transaction env body w
      ≡ (raise database_error, record w { db = seen env w; transactions = suc w.transactions })
unfolding transaction
transaction_fails env body w h = rw h

pub transaction_ok :
    {A : Type 0} (env : Env) (body : Time → Db → Result A × Db) (w : World) (a : A) (db' : Db)
    → env.db_fails w.transactions ≡ false
    → body (env.now w.transactions) (seen env w) ≡ (ok a, db')
    → transaction env body w ≡ (ok a, record w { db = db'; transactions = suc w.transactions })
unfolding transaction
transaction_ok env body w a db' h e = rw (h, e)

-- A transaction commits what its body returned, or raises and leaves what the others left.
pub transaction-cases :
    {A : Type 0} (env : Env) (body : Time → Db → Result A × Db) (w : World)
    → ((a : A) × (db' : Db) × (body (env.now w.transactions) (seen env w) ≡ (ok a, db'))
        × (transaction env body w
            ≡ (ok a, record w { db = db'; transactions = suc w.transactions })))
      ⊎ ((e : Raised) × ((transaction env body w).0 ≡ raise e)
          × ((transaction env body w).1.db ≡ seen env w))
unfolding transaction
transaction-cases {A} env body w =
    go (env.db_fails w.transactions) (body (env.now w.transactions) (seen env w))
  where
    go :
        (b : Bool) (q : Result A × Db)
        → let p = commit q (seen env w) in
          let t : Result A × World =
            if b
            then (
              raise database_error,
              record w { db = seen env w; transactions = suc w.transactions },
            )
            else (p.0, record w { db = p.1; transactions = suc w.transactions }) in
          ((a : A) × (db' : Db) × (q ≡ (ok a, db'))
            × (t ≡ (ok a, record w { db = db'; transactions = suc w.transactions })))
          ⊎ ((e : Raised) × (t.0 ≡ raise e) × (t.1.db ≡ seen env w))
    go true q = inr (database_error, refl, refl)
    go false (ok a, db') = inl (a, db', refl, refl)
    go false (raise e, db') = inr (e, refl, refl)

-- A property of a block that begins with a transaction, from the two ways in which that ends.
pub transaction_ind {κ} :
    {A B : Type 0} (P : Result B × World → Type κ) (env : Env) (body : Time → Db → Result A × Db)
    (f : A → M B) (w : World) (a : A) (db' : Db)
    → body (env.now w.transactions) (seen env w) ≡ (ok a, db')
    → P (raise database_error, record w { db = seen env w; transactions = suc w.transactions })
    → P (f a (record w { db = db'; transactions = suc w.transactions }))
    → P ((transaction env body >>= f) w)
transaction_ind P env body f w a db' e failed worked =
    elim (Bool-cases (env.db_fails w.transactions)) [
      | inl fails ↦
          subst P (sym (bind_raise (transaction env body) f w (transaction_fails env body w fails)))
            failed
      | inr works ↦
          subst P
            (sym (bind_ok (transaction env body) f w (transaction_ok env body w a db' works e)))
            worked
    ]

-- What follows a call does not change the world when it only returns a value.
pub world_of_pure : {A B : Type 0} (m : M A) (b : B) (w : World) → ((m >> pure b) w).1 ≡ (m w).1
world_of_pure {A} {B} m b w = go ((m w).0) refl
  where
    go : (r : Result A) → (m w).0 ≡ r → ((m >> pure b) w).1 ≡ (m w).1
    go (ok a) h =
        ap (λ (p : Result B × World). p.1) (bind_ok m (λ _. pure b) w (ap (λ r. (r, (m w).1)) h))
    go (raise e) h =
        ap (λ (p : Result B × World). p.1) (bind_raise m (λ _. pure b) w (ap (λ r. (r, (m w).1)) h))
