-- ===== src/Concurrent.antt =====
-- Transactions side by side. Each takes the row locks of its `SELECT ... FOR UPDATE` before it goes on,
-- keeps what it read under them, and commits in one step. A transaction goes on only while nobody
-- else has a row that it is going to have; a row that is not there cannot be locked, and what follows
-- then happens at once. PostgreSQL makes an insert wait while another transaction has an uncommitted
-- row with its unique key: a delivery has its event's identifier before it locks its order, and a
-- placement its idempotency key after it has locked its pool. The other inserts meet no such row:
-- their keys are new identifiers, or those of a row that the transaction has locked, which holds for
-- the rows that their foreign keys name as well.
pub mod Frames
pub mod Invariant
pub mod Serial
pub mod Reachable
pub mod Able
pub mod Progress
pub mod Drain
use farm_link.Common.{
  ⊤, ℕ, Bool, true, false, not, ◌||◌, Option, none, some, ◌≡◌, ◌≢◌, String, leb, ltb, find, first,
  List, if◌then◌else◌, ◌==◌,
}
use farm_link.Schema.{
  Uuid, Time, Pool, Order, pool_key, order_key, is_pending, is_opened, has_idempotency_key, is_some,
  admit_event, DbError, integrity_error, data_error,
}
use farm_link.Session.{
  State, Result, ok, err, database, Action, raise, gets, ◌>>=◌, attempt, rollback, uuid4,
  insert_event, with_session,
}
use farm_link.Pools.{PoolCreate, close_from}
use farm_link.Contributions.{contribute_from}
use farm_link.Orders.{OrderRequest, place_from}
use farm_link.Orders.Sweep.{expire_from, announce_expiry}
use farm_link.Payments.Values.{Json, null, boolean, number, text, array, object}
use farm_link.Payments.Paystack.{Platform, Bytes, verify_webhook_signature}
use farm_link.Payments.{Incoming, read_body, is_charge_success, settle_order, process_incoming}
use farm_link.Payments.Outcome.{event_of}
use farm_link.History.{Request, creates, waits, delivers, step}

-- A transaction that locks a pool's row.
pub data PoolTask : Type 0 where
  places : OrderRequest → PoolTask
  contributes : (farmer_id pool_id : Uuid) (qty : ℕ) → PoolTask
  closes : (pool_id : Uuid) → PoolTask

abbrev pub pool_id_of : PoolTask → Uuid
pool_id_of (places r) = r.pool_id
pool_id_of (contributes farmer_id pool_id qty) = pool_id
pool_id_of (closes pool_id) = pool_id

-- The rest of the transaction, with the row as the lock found it.
unfoldable pub after_pool : PoolTask → Option Pool → State → State
after_pool (places r) row s = (with_session (place_from r row) s).1
after_pool (contributes farmer_id pool_id qty) row s =
    (with_session (contribute_from farmer_id pool_id qty row) s).1
after_pool (closes pool_id) row s = (with_session (close_from pool_id row) s).1

-- The idempotency key that the rest of the transaction inserts: `none` for one that raises before, or
-- has no key.
unfoldable pub key_of : PoolTask → Pool → Option (Uuid × String)
key_of (places r) row =
    if not (is_opened row.status) || ltb row.available_qty r.qty
    then none
    else (elim r.idempotency_key [ none ↦ none | some key ↦ some (r.buyer_id, key) ])
key_of (contributes farmer_id pool_id qty) row = none
key_of (closes pool_id) row = none

abbrev pub key_known : Uuid × String → List Order → Bool
key_known (buyer_id, key) orders = is_some (first (has_idempotency_key buyer_id key) orders)

-- The sweep's part past its two locks.
unfoldable pub after_release : Order → Option Pool → State → State
after_release order pool s = ((with_session (expire_from order pool) >>= announce_expiry) s).1

-- The checks of the sweep under the first lock.
abbrev pub skips : Order → Time → Bool
skips order cutoff = not (is_pending order.status) || leb cutoff order.created_at

abbrev act_from : Platform → Result ⊤ → Json → Option Order → Action ⊤
act_from p (ok _) charge row = settle_order p charge row
act_from p (err (database integrity_error)) charge row = rollback
act_from p (err (database data_error)) charge row = raise (database data_error)
act_from p (err e) charge row = raise e

-- What the delivery of a charge commits, with the order's row as the lock found it: the event that it
-- inserted before, and what it does past the lock.
unfoldable pub deliver_from : Platform → Incoming → Option Order → Action ⊤
deliver_from p e row = do
  id ← uuid4
  now ← gets (λ s. s.now)
  recorded ← attempt (
      insert_event
        (record { id = id; event_id = e.event_id; reference = e.column; created_at = now }))
  act_from p recorded e.charge row

-- The order that an event is going to lock.
unfoldable pub order_named : Platform → Incoming → Option Uuid
order_named p e =
    if is_charge_success e.event_type
    then (elim e.reference [
      | text s ↦ p.parse_uuid s
      | null ↦ none
      | boolean b ↦ none
      | number n ↦ none
      | array xs ↦ none
      | object fields ↦ none
    ])
    else none

module _ (p : Platform) where
  -- A signed delivery that can be read.
  pub record Delivery : Type 0 where
    pub raw_body : Bytes
    pub signature : String
    pub incoming : Incoming
    pub signed : verify_webhook_signature p raw_body signature ≡ true
    pub read : read_body p raw_body ≡ ok incoming

  -- A delivery that locks no row, as a whole.
  unfoldable pub after_event : Delivery → State → State
  after_event d s = (with_session (process_incoming p d.incoming) s).1

  unfoldable pub after_charge : Delivery → Order → State → State
  after_charge d row s = (with_session (deliver_from p d.incoming (some row)) s).1

  -- Where a worker stands, with what it has read under its locks.
  pub data Pc : Type 0 where
    idle : Pc
    wants_pool : PoolTask → Pc
    has_pool : PoolTask → Pool → Pc
    has_key : PoolTask → Pool → Uuid × String → Pc
    wants_order : (order_id : Uuid) (cutoff : Time) → Pc
    has_order : (order_id : Uuid) (cutoff : Time) → Order → Pc
    has_both : (order_id : Uuid) (cutoff : Time) → Order → Pool → Pc
    wants_event : Delivery → Pc
    has_event : Delivery → Pc
    has_charge : Delivery → (order_id : Uuid) → Order → Pc

  abbrev pub pool_held : Pc → Option Uuid
  pool_held (has_pool t row) = some (pool_id_of t)
  pool_held (has_key t row key) = some (pool_id_of t)
  pool_held (has_both order_id cutoff order pool) = some order.pool_id
  pool_held _ = none

  abbrev pub order_held : Pc → Option Uuid
  order_held (has_order order_id cutoff row) = some order_id
  order_held (has_both order_id cutoff order pool) = some order_id
  order_held (has_charge d order_id row) = some order_id
  order_held _ = none

  -- The unique keys of the rows that are inserted and not committed.
  abbrev pub event_held : Pc → Option String
  event_held (has_event d) = some d.incoming.event_id
  event_held (has_charge d order_id row) = some d.incoming.event_id
  event_held _ = none

  abbrev pub key_held : Pc → Option (Uuid × String)
  key_held (has_key t row key) = some key
  key_held _ = none

  -- Requests that lock no row and insert none with a key that another can have.
  abbrev pub LocksNothing : Request → Type 0
  LocksNothing (creates input) = ⊤
  LocksNothing (waits seconds) = ⊤
  LocksNothing (delivers raw_body signature) =
      (e : Incoming)
      → verify_webhook_signature p raw_body signature ≡ true
      → read_body p raw_body ≢ ok e
  LocksNothing _ = ⊥

  -- One step of one worker, but for the wait for a lock.
  pub data Turn (s : State) : Pc → State → Pc → Type 0 where
    begin_pool : (t : PoolTask) → Turn s idle s (wants_pool t)
    lock_pool :
        {t : PoolTask} {row : Pool}
        → find pool_key (pool_id_of t) s.committed.pools ≡ some row
        → Turn s (wants_pool t) s (has_pool t row)
    miss_pool :
        {t : PoolTask}
        → find pool_key (pool_id_of t) s.committed.pools ≡ none
        → Turn s (wants_pool t) (after_pool t none s) idle
    end_pool :
        {t : PoolTask} {row : Pool}
        → key_of t row ≡ none
        → Turn s (has_pool t row) (after_pool t (some row) s) idle
    insert_key :
        {t : PoolTask} {row : Pool} {key : Uuid × String}
        → key_of t row ≡ some key
        → key_known key s.committed.orders ≡ false
        → Turn s (has_pool t row) s (has_key t row key)
    refuse_key :
        {t : PoolTask} {row : Pool} {key : Uuid × String}
        → key_of t row ≡ some key
        → key_known key s.committed.orders ≡ true
        → Turn s (has_pool t row) (after_pool t (some row) s) idle
    end_key :
        {t : PoolTask} {row : Pool} {key : Uuid × String}
        → Turn s (has_key t row key) (after_pool t (some row) s) idle
    begin_order : (order_id : Uuid) (cutoff : Time) → Turn s idle s (wants_order order_id cutoff)
    lock_order :
        {order_id : Uuid} {cutoff : Time} {row : Order}
        → find order_key order_id s.committed.orders ≡ some row
        → Turn s (wants_order order_id cutoff) s (has_order order_id cutoff row)
    miss_order :
        {order_id : Uuid} {cutoff : Time}
        → find order_key order_id s.committed.orders ≡ none
        → Turn s (wants_order order_id cutoff) s idle
    skip :
        {order_id : Uuid} {cutoff : Time} {row : Order}
        → skips row cutoff ≡ true
        → Turn s (has_order order_id cutoff row) s idle
    lock_second :
        {order_id : Uuid} {cutoff : Time} {row : Order} {pool : Pool}
        → skips row cutoff ≡ false
        → find pool_key row.pool_id s.committed.pools ≡ some pool
        → Turn s (has_order order_id cutoff row) s (has_both order_id cutoff row pool)
    miss_second :
        {order_id : Uuid} {cutoff : Time} {row : Order}
        → skips row cutoff ≡ false
        → find pool_key row.pool_id s.committed.pools ≡ none
        → Turn s (has_order order_id cutoff row) (after_release row none s) idle
    end_release :
        {order_id : Uuid} {cutoff : Time} {row : Order} {pool : Pool}
        → Turn s (has_both order_id cutoff row pool) (after_release row (some pool) s) idle
    begin_event : (d : Delivery) → Turn s idle s (wants_event d)
    record_event :
        {d : Delivery}
        → admit_event s.committed (event_of d.incoming s) ≡ none
        → Turn s (wants_event d) s (has_event d)
    refuse_event :
        {d : Delivery} {e : DbError}
        → admit_event s.committed (event_of d.incoming s) ≡ some e
        → Turn s (wants_event d) (after_event d s) idle
    end_event :
        {d : Delivery}
        → order_named p d.incoming ≡ none
        → Turn s (has_event d) (after_event d s) idle
    lock_charged :
        {d : Delivery} {order_id : Uuid} {row : Order}
        → order_named p d.incoming ≡ some order_id
        → find order_key order_id s.committed.orders ≡ some row
        → Turn s (has_event d) s (has_charge d order_id row)
    miss_charged :
        {d : Delivery} {order_id : Uuid}
        → order_named p d.incoming ≡ some order_id
        → find order_key order_id s.committed.orders ≡ none
        → Turn s (has_event d) (after_event d s) idle
    end_charge :
        {d : Delivery} {order_id : Uuid} {row : Order}
        → Turn s (has_charge d order_id row) (after_charge d row s) idle
    at_once : (r : Request) → LocksNothing r → Turn s idle (step p r s) idle

  -- Nothing is had by both: no locked row, no key of an uncommitted row.
  pub record Apart (a b : Pc) : Type 0 where
    pub pools : (k : Uuid) → pool_held a ≡ some k → pool_held b ≢ some k
    pub orders : (k : Uuid) → order_held a ≡ some k → order_held b ≢ some k
    pub events : (k : String) → event_held a ≡ some k → event_held b ≢ some k
    pub keys : (k : Uuid × String) → key_held a ≡ some k → key_held b ≢ some k

  pub record System : Type 0 where
    pub shared : State
    pub pc : ℕ → Pc

  abbrev pub set : (ℕ → Pc) → ℕ → Pc → ℕ → Pc
  set pc i q j = if j == i then q else pc j

  pub data Step (s : System) : System → Type 0 where
    pick :
        (i : ℕ) {t : State} {q : Pc}
        → Turn s.shared (s.pc i) t q
        → ((j : ℕ) → j ≢ i → Apart q (s.pc j))
        → Step s (record { shared = t; pc = set s.pc i q })

  pub data Reach (start : State) : System → Type 0 where
    at_start : Reach start (record { shared = start; pc = λ i. idle })
    later : {s t : System} → Reach start s → Step s t → Reach start t
