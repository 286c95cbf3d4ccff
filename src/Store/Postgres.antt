-- ===== src/Store/Postgres.antt =====
-- crates/store/src/postgres.rs: the pool and the transactions over it. What the driver answers is an
-- argument; an SQL text goes to it as it stands.
use superquery_node.Common.{
  Result, err, ok, ◌>>=◌, ◌>>◌, map_err, Result-cases, Bytes, String, ℕ, ◌≡◌, refl, ◌⊎◌, inl, inr,
}
use superquery_node.Store.Error
use superquery_node.Store.Error.{StoreError}
use superquery_node.Store.Idents.{validate_ident}
use superquery_node.Config.Db.{DbConfig}

-- What `connect` hands to the pool.
pub record PoolConfig : Type 0 where
  pub host : Bytes
  pub port : ℕ
  pub user : Bytes
  pub password : Bytes
  pub dbname : Bytes

pub record Database (Pool : Type 0) : Type 0 where
  pub pool : Pool
  pub schema : Bytes

module _ {Pool : Type 0} (text : Bytes → String)
    (create_pool : PoolConfig → Result String Pool) where
  unfoldable pub connect : DbConfig → Result StoreError (Database Pool)
  unfolding validate_ident
  connect cfg = do
    validate_ident text cfg.schema
    pool ← map_err Error.pool (
        create_pool (record {
          host = cfg.host;
          port = cfg.port;
          user = cfg.username;
          password = cfg.password;
          dbname = cfg.database;
        }))
    ok (record { pool = pool; schema = cfg.schema })

-- The driver's answers to the calls of a transaction.
pub record Session : Type 0 where
  pub client : Result StoreError (Unit {0})
  pub transaction : Result StoreError (Unit {0})
  pub commit : Result StoreError (Unit {0})

-- On the tables that `f` reads and writes. A transaction that is not committed leaves them, whether
-- its rollback is confirmed or not; that only goes to a log line.
unfoldable pub settle :
    {T A : Type 0} → Session → T → Result StoreError A × T → Result StoreError A × T
settle session tables (err e, after) = (err e, tables)
settle session tables (ok value, after) = elim session.commit [
  | err e ↦ (err e, tables)
  | ok u ↦ (ok value, after)
]

unfoldable pub transaction :
    {T A : Type 0} → Session → (T → Result StoreError A × T) → T → Result StoreError A × T
unfolding settle
transaction session f tables = elim (session.client >>= λ u. session.transaction) [
  | err e ↦ (err e, tables)
  | ok u ↦ settle session tables (f tables)
]

-- All that the transaction did is there, with its own value, or nothing is.
abbrev pub AllOrNone :
    {T A : Type 0} → T → Result StoreError A × T → Result StoreError A × T → Type 0
AllOrNone {A} tables did result =
    ((value : A) × (did.0 ≡ ok value) × (result ≡ did))
    ⊎ ((e : StoreError) × (result ≡ (err e, tables)))

settle-AllOrNone :
    {T A : Type 0} (session : Session) (tables : T) (did : Result StoreError A × T)
    → AllOrNone tables did (settle session tables did)
unfolding settle
settle-AllOrNone session tables (err e, after) = inr (e, refl)
settle-AllOrNone session tables (ok value, after) = elim (Result-cases session.commit) [
  | inl (u, e) ↦ inl (value, refl, rw (e, settle) refl)
  | inr (x, e) ↦ inr (x, rw (e, settle) refl)
]

-- Whatever the database answers and whatever the body of a transaction does: the call returns the
-- body's value and all of its writes are there, or it returns an error and none is.
pub transaction-AllOrNone :
    {T A : Type 0} (session : Session) (f : T → Result StoreError A × T) (tables : T)
    → AllOrNone tables (f tables) (transaction session f tables)
unfolding transaction
transaction-AllOrNone session f tables =
    elim (Result-cases (session.client >>= λ u. session.transaction)) [
      | inr (e, refused) ↦ inr (e, rw (refused, transaction) refl)
      | inl (u, begun) ↦ rw (begun, transaction) (settle-AllOrNone session tables (f tables))
    ]
