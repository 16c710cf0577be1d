-- ===== src/Concurrent/Reachable.antt =====
-- Whatever the order in which the workers take their turns, the shared state is that of requests that
-- run one after the other.
use farm_link.Common.{
  ℕ, ◌≡◌, ◌≢◌, ◌⊎◌, inl, inr, ap, sym, ◌∙◌, refl, subst, Bool-cases, Option, some, none, List, [],
  ◌∷◌, ◌++◌, find, arith, ◌==◌,
}
use farm_link.Schema.{Pool, Database, pool_key, order_key}
use farm_link.Session.{State}
use farm_link.Payments.Paystack.{Platform}
use farm_link.Stock.{IsStocked}
use farm_link.History.{Request, step, run}
use farm_link.History.Books.{HasLate, run-IsStocked}
use farm_link.Concurrent.{
  Pc, idle, wants_pool, has_pool, has_key, wants_order, has_order, has_both, wants_event, has_event,
  has_charge, pool_id_of, pool_held, order_held, Turn, begin_pool, lock_pool, miss_pool, end_pool,
  insert_key, refuse_key, end_key, begin_order, lock_order, miss_order, skip, lock_second,
  miss_second, end_release, begin_event, record_event, refuse_event, end_event, lock_charged,
  miss_charged, end_charge, at_once, Apart, System, set, Step, pick, Reach, at_start, later,
}
use farm_link.Concurrent.Frames.{Frame}
use farm_link.Concurrent.Invariant.{idle-Apart, Holds, Commits, Turn-Commits, committed_by}

module _ (p : Platform) where
  Turn-Holds :
      {s t : State} {a q : Pc p} → Turn p s a t q → Holds p s.committed a → Holds p t.committed q
  Turn-Holds (begin_pool t) h = tt
  Turn-Holds (lock_pool found) h = found
  Turn-Holds (miss_pool absent) h = tt
  Turn-Holds (end_pool keyless) h = tt
  Turn-Holds (insert_key keyed new) h = h
  Turn-Holds (refuse_key keyed known) h = tt
  Turn-Holds end_key h = tt
  Turn-Holds (begin_order order_id cutoff) h = tt
  Turn-Holds (lock_order found) h = found
  Turn-Holds (miss_order absent) h = tt
  Turn-Holds (skip passed) h = tt
  Turn-Holds (lock_second due found) h = (h, found, due)
  Turn-Holds (miss_second due absent) h = tt
  Turn-Holds end_release h = tt
  Turn-Holds (begin_event d) h = tt
  Turn-Holds (record_event new) h = tt
  Turn-Holds (refuse_event refused) h = tt
  Turn-Holds (end_event unnamed) h = tt
  Turn-Holds (lock_charged named found) h = (found, named)
  Turn-Holds (miss_charged named absent) h = tt
  Turn-Holds end_charge h = tt
  Turn-Holds (at_once r nothing) h = tt

  kept_pool :
      (a b : Pc p) {from to : Database} (k : ℕ) (row : Pool)
      → Frame (pool_held p a) (order_held p a) from to
      → Apart p a b
      → pool_held p b ≡ some k
      → find pool_key k from.pools ≡ some row
      → find pool_key k to.pools ≡ some row
  kept_pool a b k row f apart held there = elim (f.pools k row there) [
    | inl same ↦ absurd (apart.pools k same held)
    | inr kept ↦ kept
  ]

  kept_order :
      (a b : Pc p) {from to : Database} (k : ℕ) (row : _)
      → Frame (pool_held p a) (order_held p a) from to
      → Apart p a b
      → order_held p b ≡ some k
      → find order_key k from.orders ≡ some row
      → find order_key k to.orders ≡ some row
  kept_order a b k row f apart held there = elim (f.orders k row there) [
    | inl same ↦ absurd (apart.orders k same held)
    | inr kept ↦ kept
  ]

  -- A worker's rows stay as they are while another commits.
  Frame-Holds :
      (a b : Pc p) {from to : Database}
      → Frame (pool_held p a) (order_held p a) from to
      → Apart p a b
      → Holds p from b
      → Holds p to b
  Frame-Holds a idle f apart h = tt
  Frame-Holds a (wants_pool t) f apart h = tt
  Frame-Holds a (wants_order order_id cutoff) f apart h = tt
  Frame-Holds a (wants_event d) f apart h = tt
  Frame-Holds a (has_event d) f apart h = tt
  Frame-Holds a (has_pool t row) f apart h =
      kept_pool a (has_pool t row) (pool_id_of t) row f apart refl h
  Frame-Holds a (has_key t row key) f apart h =
      kept_pool a (has_key t row key) (pool_id_of t) row f apart refl h
  Frame-Holds a (has_order order_id cutoff row) f apart h =
      kept_order a (has_order order_id cutoff row) order_id row f apart refl h
  Frame-Holds a (has_charge d order_id row) f apart (there, named) =
      (kept_order a (has_charge d order_id row) order_id row f apart refl there, named)
  Frame-Holds a (has_both order_id cutoff order pool) f apart (there, found, due) = (
    kept_order a (has_both order_id cutoff order pool) order_id order f apart refl there,
    kept_pool a (has_both order_id cutoff order pool) order.pool_id pool f apart refl found,
    due,
  )

  Commits-Holds :
      (s t : State) (o : Option Request) (a b : Pc p)
      → Commits p s o a t
      → Apart p a b
      → Holds p s.committed b
      → Holds p t.committed b
  Commits-Holds s t none a b same apart h = subst (λ t. Holds p t.committed b) (sym same) h
  Commits-Holds s t (some r) a b (same, f) apart h =
      subst (λ t. Holds p t.committed b) (sym same) (Frame-Holds a b f apart h)

  -- No row is locked twice, and what was read under a lock is what the table has.
  pub record IsOrderly (s : System p) : Type 0 where
    pub apart : (i j : ℕ) → i ≢ j → Apart p (s.pc i) (s.pc j)
    pub holds : (i : ℕ) → Holds p s.shared.committed (s.pc i)

  Apart-sym : (a b : Pc p) → Apart p a b → Apart p b a
  Apart-sym a b h = record {
    pools = λ k x y. h.pools k y x;
    orders = λ k x y. h.orders k y x;
    events = λ k x y. h.events k y x;
    keys = λ k x y. h.keys k y x;
  }

  pub set_cases :
      (pc : ℕ → Pc p) (i : ℕ) (q : Pc p) (j : ℕ)
      → ((j ≡ i) × (set p pc i q j ≡ q)) ⊎ ((j ≢ i) × (set p pc i q j ≡ pc j))
  set_cases pc i q j = elim (Bool-cases (j == i)) [
    | inl same ↦ inl (ground arith, rw same refl)
    | inr other ↦ inr (ground arith, rw other refl)
  ]

  pub Step-IsOrderly : {s t : System p} → Step p s t → IsOrderly s → IsOrderly t
  Step-IsOrderly {s} (pick i {t} {q} turn free) h = record { apart = apart; holds = holds }
    where
      holds : (j : ℕ) → Holds p t.committed (set p s.pc i q j)
      holds j = elim (set_cases s.pc i q j) [
        | inl (_, here) ↦ subst (Holds p t.committed) (sym here) (Turn-Holds turn (h.holds i))
        | inr (other, here) ↦ subst (Holds p t.committed) (sym here) (
            Commits-Holds s.shared t (committed_by p turn) (s.pc i) (s.pc j)
              (Turn-Commits p turn (h.holds i)) (h.apart i j (λ e. other (sym e))) (h.holds j))
      ]

      apart : (j k : ℕ) → j ≢ k → Apart p (set p s.pc i q j) (set p s.pc i q k)
      apart j k distinct = elim (set_cases s.pc i q j) [
        | inl (hit, here) ↦ elim (set_cases s.pc i q k) [
          | inl (hit_too, _) ↦ absurd (distinct (hit ∙ sym hit_too))
          | inr (other, there) ↦ rw (here, there) (free k other)
        ]
        | inr (other, here) ↦ elim (set_cases s.pc i q k) [
          | inl (_, there) ↦ rw (here, there) (Apart-sym q (s.pc j) (free j other))
          | inr (_, there) ↦ rw (here, there) (h.apart j k distinct)
        ]
      ]

  pub Reach-IsOrderly : {start : State} {s : System p} → Reach p start s → IsOrderly s
  Reach-IsOrderly at_start = record { apart = λ i j other. idle-Apart p idle; holds = λ i. tt }
  Reach-IsOrderly (later r taken) = Step-IsOrderly taken (Reach-IsOrderly r)

  -- In every reachable state no two workers have locked the same pool or the same order or inserted
  -- the same event or idempotency key, and the rows that each has read under its locks are still the
  -- rows in the tables.
  pub locks_protect :
      {start : State} {s : System p}
      → Reach p start s
      → ((i j : ℕ) → i ≢ j → Apart p (s.pc i) (s.pc j))
        × ((i : ℕ) → Holds p s.shared.committed (s.pc i))
  locks_protect r = let h = Reach-IsOrderly r in (h.apart, h.holds)

  abbrev listed : Option Request → List Request
  listed none = []
  listed (some r) = r ∷ []

  -- The requests that were committed, in the order of their commits.
  unfoldable pub serial : {start : State} {s : System p} → Reach p start s → List Request
  serial at_start = []
  serial (later r (pick i turn free)) = serial r ++ listed (committed_by p turn)

  run-append :
      (rs : List Request) (o : Option Request) (start s t : State) (a : Pc p)
      → s ≡ run p rs start
      → Commits p s o a t
      → t ≡ run p (rs ++ listed o) start
  unfolding run
  run-append [] none start s t a same moved = moved ∙ same
  run-append [] (some r) start s t a same (moved, _) = moved ∙ ap (step p r) same
  run-append (x ∷ rs) o start s t a same moved = run-append rs o (step p x start) s t a same moved

  pub Reach-run :
      {start : State} {s : System p} (r : Reach p start s) → s.shared ≡ run p (serial r) start
  unfolding run serial
  Reach-run at_start = refl
  Reach-run {start} (later {s} r (pick i {t} turn free)) =
      run-append (serial r) (committed_by p turn) start s.shared t (s.pc i) (Reach-run r)
        (Turn-Commits p turn ((Reach-IsOrderly r).holds i))

  -- While transactions run side by side from balanced books, every pool's books balance to the unit,
  -- what is sold included, unless one of the deliveries that were committed paid for an order that had
  -- given its stock back.
  pub Reach-IsStocked :
      {start : State} {s : System p} (r : Reach p start s)
      → IsStocked start.committed
      → IsStocked s.shared.committed ⊎ HasLate p (serial r) start
  Reach-IsStocked {start} r balanced =
      let same = Reach-run r in
      elim (run-IsStocked p (serial r) start balanced) [
        | inl fine ↦ inl (rw same fine)
        | inr late ↦ inr late
      ]
