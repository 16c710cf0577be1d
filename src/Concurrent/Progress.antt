-- ===== src/Concurrent/Progress.antt =====
-- Transactions that run side by side do not wait for each other in a circle. A delivery has its event
-- before it wants its order, the sweep has the order before it wants the pool, and a placement has the
-- pool before it wants its idempotency key: whoever has a key can end.
use mathlib.Core.Option.{none-ne-some}
use farm_link.Common.{
  String, ℕ, ◌≡◌, ◌≢◌, ◌⊎◌, inl, inr, sym, ◌∙◌, refl, subst, Bool-cases, Option-cases, Option, some,
  find, arith,
}
use farm_link.Schema.{Uuid, Order, pool_key, order_key, admit_event}
use farm_link.Payments.Paystack.{Platform}
use farm_link.Payments.Outcome.{event_of}
use farm_link.Concurrent.{
  PoolTask, pool_id_of, key_of, key_known, order_named, Delivery, skips, Pc, idle, wants_pool,
  has_pool, has_key, wants_order, has_order, has_both, wants_event, has_event, has_charge,
  pool_held, order_held, event_held, key_held, lock_pool, miss_pool, end_pool, insert_key,
  refuse_key, end_key, lock_order, miss_order, skip, lock_second, miss_second, end_release,
  record_event, refuse_event, end_event, lock_charged, miss_charged, end_charge, Apart, System,
}
use farm_link.Concurrent.Invariant.{idle-Apart}
use farm_link.Concurrent.Reachable.{IsOrderly}
use farm_link.Concurrent.Able.{IsQuietFrom, Goes, go, held_cases, uuid_cases, text_cases, key_cases}

module _ (p : Platform) where
  -- What a worker would have more than before is not had by another.
  abbrev Free : {K : Type 0} → (Pc p → Option K) → System p → ℕ → Pc p → Pc p → Type 0
  Free {K} held s i a q =
      (k : K) → held q ≡ some k → (held a ≡ some k) ⊎ ((j : ℕ) → j ≢ i → held (s.pc j) ≢ some k)

  Apart-gains :
      {s : System p} (i : ℕ) (a q : Pc p)
      → IsOrderly p s
      → s.pc i ≡ a
      → Free (pool_held p) s i a q
      → Free (order_held p) s i a q
      → Free (event_held p) s i a q
      → Free (key_held p) s i a q
      → (j : ℕ) → j ≢ i
      → Apart p q (s.pc j)
  Apart-gains {s} i a q h here pools orders events keys j other = record {
    pools = λ k mine. elim (pools k mine) [
      | inl before ↦ was.pools k before
      | inr nobody ↦ nobody j other
    ];
    orders = λ k mine. elim (orders k mine) [
      | inl before ↦ was.orders k before
      | inr nobody ↦ nobody j other
    ];
    events = λ k mine. elim (events k mine) [
      | inl before ↦ was.events k before
      | inr nobody ↦ nobody j other
    ];
    keys = λ k mine. elim (keys k mine) [
      | inl before ↦ was.keys k before
      | inr nobody ↦ nobody j other
    ];
  }
    where
      was : Apart p a (s.pc j)
      was = subst (λ a. Apart p a (s.pc j)) here (h.apart i j (λ e. other (sym e)))

  -- Nothing more than before, or one key that nobody has.
  same :
      {K : Type 0} (held : Pc p → Option K) (s : System p) (i : ℕ) (a q : Pc p)
      → held q ≡ held a
      → Free held s i a q
  same held s i a q kept k mine = inl (sym kept ∙ mine)

  new :
      {K : Type 0} (held : Pc p → Option K) (s : System p) (i : ℕ) (a q : Pc p) (k : K)
      → held q ≡ some k
      → ((j : ℕ) → held (s.pc j) ≢ some k)
      → Free held s i a q
  new held s i a q k takes nobody x mine =
      inr (λ j other theirs. nobody j (theirs ∙ sym mine ∙ takes))

  gains_pool :
      {s : System p} (i : ℕ) (a q : Pc p) (k : Uuid)
      → IsOrderly p s
      → s.pc i ≡ a
      → pool_held p q ≡ some k
      → order_held p q ≡ order_held p a
      → event_held p q ≡ event_held p a
      → key_held p q ≡ key_held p a
      → ((j : ℕ) → pool_held p (s.pc j) ≢ some k)
      → (j : ℕ) → j ≢ i
      → Apart p q (s.pc j)
  gains_pool {s} i a q k h here takes order event key nobody =
      Apart-gains i a q h here (new (pool_held p) s i a q k takes nobody)
        (same (order_held p) s i a q order) (same (event_held p) s i a q event)
        (same (key_held p) s i a q key)

  gains_order :
      {s : System p} (i : ℕ) (a q : Pc p) (k : Uuid)
      → IsOrderly p s
      → s.pc i ≡ a
      → order_held p q ≡ some k
      → pool_held p q ≡ pool_held p a
      → event_held p q ≡ event_held p a
      → key_held p q ≡ key_held p a
      → ((j : ℕ) → order_held p (s.pc j) ≢ some k)
      → (j : ℕ) → j ≢ i
      → Apart p q (s.pc j)
  gains_order {s} i a q k h here takes pool event key nobody =
      Apart-gains i a q h here (same (pool_held p) s i a q pool)
        (new (order_held p) s i a q k takes nobody) (same (event_held p) s i a q event)
        (same (key_held p) s i a q key)

  gains_event :
      {s : System p} (i : ℕ) (a q : Pc p) (k : String)
      → IsOrderly p s
      → s.pc i ≡ a
      → event_held p q ≡ some k
      → pool_held p q ≡ pool_held p a
      → order_held p q ≡ order_held p a
      → key_held p q ≡ key_held p a
      → ((j : ℕ) → event_held p (s.pc j) ≢ some k)
      → (j : ℕ) → j ≢ i
      → Apart p q (s.pc j)
  gains_event {s} i a q k h here takes pool order key nobody =
      Apart-gains i a q h here (same (pool_held p) s i a q pool) (same (order_held p) s i a q order)
        (new (event_held p) s i a q k takes nobody) (same (key_held p) s i a q key)

  gains_key :
      {s : System p} (i : ℕ) (a q : Pc p) (k : Uuid × String)
      → IsOrderly p s
      → s.pc i ≡ a
      → key_held p q ≡ some k
      → pool_held p q ≡ pool_held p a
      → order_held p q ≡ order_held p a
      → event_held p q ≡ event_held p a
      → ((j : ℕ) → key_held p (s.pc j) ≢ some k)
      → (j : ℕ) → j ≢ i
      → Apart p q (s.pc j)
  gains_key {s} i a q k h here takes pool order event nobody =
      Apart-gains i a q h here (same (pool_held p) s i a q pool) (same (order_held p) s i a q order)
        (same (event_held p) s i a q event) (new (key_held p) s i a q k takes nobody)

  ends : (s : System p) (j : ℕ) → Apart p idle (s.pc j)
  ends s j = idle-Apart p (s.pc j)

  -- Whoever has an uncommitted idempotency key can commit.
  key_holder-Goes :
      {s : System p} (i : ℕ) (k : Uuid × String) (a : Pc p)
      → s.pc i ≡ a
      → key_held p a ≡ some k
      → Goes p s
  key_holder-Goes {s} i k (has_key t row key) here held =
      go p i _ here (λ e. ground arith) end_key (λ j other. ends s j)
  key_holder-Goes i k _ here held = absurd (none-ne-some _ held)

  -- Past the lock on a pool's row: the rest has no key to wait for, or its key is known, or another
  -- has it that can go on, or it is free.
  has_pool-Goes :
      {s : System p} (n i : ℕ) (t : PoolTask) (row : _)
      → IsQuietFrom p n s
      → IsOrderly p s
      → s.pc i ≡ has_pool t row
      → Goes p s
  has_pool-Goes {s} n i t row quiet h here = elim (Option-cases (key_of t row)) [
    | inl keyless ↦ go p i _ here (λ e. ground arith) (end_pool keyless) (λ j other. ends s j)
    | inr (key, keyed) ↦ elim (Bool-cases (key_known key s.shared.committed.orders)) [
      | inl known ↦ go p i _ here (λ e. ground arith) (refuse_key keyed known) (λ j other. ends s j)
      | inr unknown ↦ elim (held_cases p key_cases (key_held p) s key n quiet refl) [
        | inl (j, held) ↦ key_holder-Goes j key (s.pc j) refl held
        | inr nobody ↦
            go p i _ here (λ e. ground arith) (insert_key keyed unknown)
              (gains_key i (has_pool t row) (has_key t row key) key h here refl refl refl refl
                nobody)
      ]
    ]
  ]

  pool_holder-Goes :
      {s : System p} (n i : ℕ) (k : Uuid) (a : Pc p)
      → IsQuietFrom p n s
      → IsOrderly p s
      → s.pc i ≡ a
      → pool_held p a ≡ some k
      → Goes p s
  pool_holder-Goes n i k (has_pool t row) quiet h here held = has_pool-Goes n i t row quiet h here
  pool_holder-Goes n i k (has_key t row key) quiet h here held =
      key_holder-Goes i key (has_key t row key) here refl
  pool_holder-Goes {s} n i k (has_both order_id cutoff order pool) quiet h here held =
      go p i _ here (λ e. ground arith) end_release (λ j other. ends s j)
  pool_holder-Goes n i k _ quiet h here held = absurd (none-ne-some _ held)

  -- A release that is due goes on, or the pool's row is with someone who can.
  release-Goes :
      {s : System p} (n i : ℕ) (order_id : Uuid) (cutoff : ℕ) (row : Order)
      → IsQuietFrom p n s
      → IsOrderly p s
      → s.pc i ≡ has_order order_id cutoff row
      → Goes p s
  release-Goes {s} n i order_id cutoff row quiet h here = elim (Bool-cases (skips row cutoff)) [
    | inl passed ↦ go p i _ here (λ e. ground arith) (skip passed) (λ j other. ends s j)
    | inr due ↦ elim (Option-cases (find pool_key row.pool_id s.shared.committed.pools)) [
      | inl absent ↦
          go p i _ here (λ e. ground arith) (miss_second due absent) (λ j other. ends s j)
      | inr (pool, found) ↦
          elim (held_cases p uuid_cases (pool_held p) s row.pool_id n quiet refl) [
            | inl (j, held) ↦ pool_holder-Goes n j row.pool_id (s.pc j) quiet h refl held
            | inr nobody ↦
                go p i _ here (λ e. ground arith) (lock_second due found)
                  (gains_pool i (has_order order_id cutoff row) (has_both order_id cutoff row pool)
                    row.pool_id h here refl refl refl refl nobody)
          ]
    ]
  ]

  order_holder-Goes :
      {s : System p} (n i : ℕ) (k : Uuid) (a : Pc p)
      → IsQuietFrom p n s
      → IsOrderly p s
      → s.pc i ≡ a
      → order_held p a ≡ some k
      → Goes p s
  order_holder-Goes n i k (has_order order_id cutoff row) quiet h here held =
      release-Goes n i order_id cutoff row quiet h here
  order_holder-Goes {s} n i k (has_both order_id cutoff order pool) quiet h here held =
      go p i _ here (λ e. ground arith) end_release (λ j other. ends s j)
  order_holder-Goes {s} n i k (has_charge d order_id row) quiet h here held =
      go p i _ here (λ e. ground arith) end_charge (λ j other. ends s j)
  order_holder-Goes n i k _ quiet h here held = absurd (none-ne-some _ held)

  -- Past the event: the order that it names, if any, is locked, or with someone who can go on.
  has_event-Goes :
      {s : System p} (n i : ℕ) (d : Delivery p)
      → IsQuietFrom p n s
      → IsOrderly p s
      → s.pc i ≡ has_event d
      → Goes p s
  has_event-Goes {s} n i d quiet h here = elim (Option-cases (order_named p d.incoming)) [
    | inl unnamed ↦ go p i _ here (λ e. ground arith) (end_event unnamed) (λ j other. ends s j)
    | inr (order_id, named) ↦
        elim (Option-cases (find order_key order_id s.shared.committed.orders)) [
          | inl absent ↦
              go p i _ here (λ e. ground arith) (miss_charged named absent) (λ j other. ends s j)
          | inr (row, found) ↦
              elim (held_cases p uuid_cases (order_held p) s order_id n quiet refl) [
                | inl (j, held) ↦ order_holder-Goes n j order_id (s.pc j) quiet h refl held
                | inr nobody ↦
                    go p i _ here (λ e. ground arith) (lock_charged named found)
                      (gains_order i (has_event d) (has_charge d order_id row) order_id h here refl
                        refl refl refl nobody)
              ]
        ]
  ]

  event_holder-Goes :
      {s : System p} (n i : ℕ) (k : String) (a : Pc p)
      → IsQuietFrom p n s
      → IsOrderly p s
      → s.pc i ≡ a
      → event_held p a ≡ some k
      → Goes p s
  event_holder-Goes n i k (has_event d) quiet h here held = has_event-Goes n i d quiet h here
  event_holder-Goes n i k (has_charge d order_id row) quiet h here held =
      order_holder-Goes n i order_id (has_charge d order_id row) quiet h here refl
  event_holder-Goes n i k _ quiet h here held = absurd (none-ne-some _ held)

  wants_event-Goes :
      {s : System p} (n i : ℕ) (d : Delivery p)
      → IsQuietFrom p n s
      → IsOrderly p s
      → s.pc i ≡ wants_event d
      → Goes p s
  wants_event-Goes {s} n i d quiet h here =
      elim (Option-cases (admit_event s.shared.committed (event_of d.incoming s.shared))) [
        | inr (e, refused) ↦
            go p i _ here (λ e. ground arith) (refuse_event refused) (λ j other. ends s j)
        | inl admitted ↦
            elim (held_cases p text_cases (event_held p) s d.incoming.event_id n quiet refl) [
              | inl (j, held) ↦ event_holder-Goes n j d.incoming.event_id (s.pc j) quiet h refl held
              | inr nobody ↦
                  go p i _ here (λ e. ground arith) (record_event admitted)
                    (gains_event i (wants_event d) (has_event d) d.incoming.event_id h here refl
                      refl refl refl nobody)
            ]
      ]

  wants_pool-Goes :
      {s : System p} (n i : ℕ) (t : PoolTask)
      → IsQuietFrom p n s
      → IsOrderly p s
      → s.pc i ≡ wants_pool t
      → Goes p s
  wants_pool-Goes {s} n i t quiet h here =
      elim (Option-cases (find pool_key (pool_id_of t) s.shared.committed.pools)) [
        | inl absent ↦ go p i _ here (λ e. ground arith) (miss_pool absent) (λ j other. ends s j)
        | inr (row, found) ↦
            elim (held_cases p uuid_cases (pool_held p) s (pool_id_of t) n quiet refl) [
              | inl (j, held) ↦ pool_holder-Goes n j (pool_id_of t) (s.pc j) quiet h refl held
              | inr nobody ↦
                  go p i _ here (λ e. ground arith) (lock_pool found)
                    (gains_pool i (wants_pool t) (has_pool t row) (pool_id_of t) h here refl refl
                      refl refl nobody)
            ]
      ]

  wants_order-Goes :
      {s : System p} (n i : ℕ) (order_id : Uuid) (cutoff : ℕ)
      → IsQuietFrom p n s
      → IsOrderly p s
      → s.pc i ≡ wants_order order_id cutoff
      → Goes p s
  wants_order-Goes {s} n i order_id cutoff quiet h here =
      elim (Option-cases (find order_key order_id s.shared.committed.orders)) [
        | inl absent ↦ go p i _ here (λ e. ground arith) (miss_order absent) (λ j other. ends s j)
        | inr (row, found) ↦ elim (held_cases p uuid_cases (order_held p) s order_id n quiet refl) [
          | inl (j, held) ↦ order_holder-Goes n j order_id (s.pc j) quiet h refl held
          | inr nobody ↦
              go p i _ here (λ e. ground arith) (lock_order found)
                (gains_order i (wants_order order_id cutoff) (has_order order_id cutoff row)
                  order_id h here refl refl refl refl nobody)
        ]
      ]

  -- Who is busy can go on, or what it waits for is with someone who can.
  pub busy-Goes :
      {s : System p} (n i : ℕ) (a : Pc p)
      → IsQuietFrom p n s
      → IsOrderly p s
      → s.pc i ≡ a
      → a ≢ idle
      → Goes p s
  busy-Goes n i (wants_pool t) quiet h here busy = wants_pool-Goes n i t quiet h here
  busy-Goes n i (has_pool t row) quiet h here busy = has_pool-Goes n i t row quiet h here
  busy-Goes n i (has_key t row key) quiet h here busy =
      key_holder-Goes i key (has_key t row key) here refl
  busy-Goes n i (wants_order order_id cutoff) quiet h here busy =
      wants_order-Goes n i order_id cutoff quiet h here
  busy-Goes n i (has_order order_id cutoff row) quiet h here busy =
      release-Goes n i order_id cutoff row quiet h here
  busy-Goes n i (has_both order_id cutoff order pool) quiet h here busy =
      order_holder-Goes n i order_id (has_both order_id cutoff order pool) quiet h here refl
  busy-Goes n i (wants_event d) quiet h here busy = wants_event-Goes n i d quiet h here
  busy-Goes n i (has_event d) quiet h here busy = has_event-Goes n i d quiet h here
  busy-Goes n i (has_charge d order_id row) quiet h here busy =
      order_holder-Goes n i order_id (has_charge d order_id row) quiet h here refl
  busy-Goes n i idle quiet h here busy = absurd (busy refl)
