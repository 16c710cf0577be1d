-- ===== src/Tests/Concurrent.antt =====
-- A placement and a release of an order side by side, for the same pool.
use farm_link.Common.{
  ◌⊎◌, first, [], ◌∷◌, ℕ, ◌≡◌, ◌≢◌, refl, some, arith, find, inl, inr, Bool-cases, ◌==◌,
}
use farm_link.Schema.{has_idempotency_key}
use farm_link.Orders.{OrderRequest}
use farm_link.Stock.{IsStocked}
use farm_link.History.Books.{HasLate}
use farm_link.History.{resumes}
use farm_link.Concurrent.{
  places, wants_pool, wants_order, Pc, idle, has_pool, has_key, has_order, Apart, System, Reach,
  at_start, later, pick, set, begin_pool, lock_pool, insert_key, end_key, begin_order, lock_order,
  after_pool, key_of,
}
use farm_link.Concurrent.Invariant.{idle-Apart, Holds, committed_by}
use farm_link.Concurrent.Reachable.{serial, locks_protect, Reach-IsStocked}
use farm_link.Concurrent.Drain.{Drains, can_rest}
use farm_link.Tests.Market.{market, market-IsStocked, stub_platform, unpaid_yams, yams}

abbrev placing : OrderRequest
placing = record {
  buyer_id = 10;
  buyer_email = "ada@x.ng";
  pool_id = 1;
  qty = 5;
  idempotency_key = some "k2";
}

abbrev Worker : Type 0
Worker = Pc stub_platform

abbrev Market : Type 0
Market = System stub_platform

wants_pool-Apart : (b : Worker) → Apart stub_platform (wants_pool (places placing)) b
wants_pool-Apart b = record {
  pools = λ k x. absurd (ground arith);
  orders = λ k x. absurd (ground arith);
  events = λ k x. absurd (ground arith);
  keys = λ k x. absurd (ground arith);
}

wants_order-Apart : (b : Worker) → Apart stub_platform (wants_order 100 90) b
wants_order-Apart b = record {
  pools = λ k x. absurd (ground arith);
  orders = λ k x. absurd (ground arith);
  events = λ k x. absurd (ground arith);
  keys = λ k x. absurd (ground arith);
}

abbrev all_idle : ℕ → Worker
all_idle i = idle

abbrev by : (ℕ → Worker) → ℕ → Worker → ℕ → Worker
by = set stub_platform

abbrev buyer_waits : ℕ → Worker
buyer_waits = by all_idle 0 (wants_pool (places placing))

abbrev buyer_locks : ℕ → Worker
buyer_locks = by buyer_waits 0 (has_pool (places placing) yams)

abbrev sweep_waits : ℕ → Worker
sweep_waits = by buyer_locks 1 (wants_order 100 90)

-- The buyer's worker has the pool's row, and the sweep's the row of an order of that pool.
abbrev contended : Market
contended = record { shared = market; pc = by sweep_waits 1 (has_order 100 90 unpaid_yams) }

-- The order is inserted, with its key.
abbrev keyed : Market
keyed = record {
  shared = market;
  pc = by contended.pc 0 (has_key (places placing) yams (10, "k2"));
}

-- The order is placed, and the sweep can go on.
abbrev placed : Market
placed = record { shared = after_pool (places placing) (some yams) market; pc = by keyed.pc 0 idle }

lone : (j : ℕ) → j ≢ 0 → Apart stub_platform (has_pool (places placing) yams) (buyer_waits j)
lone j other = elim (Bool-cases (j == 0)) [
  | inl same ↦ absurd (other (ground arith))
  | inr off ↦ rw off (record {
    pools = λ k mine theirs. ground arith;
    orders = λ k mine theirs. ground arith;
    events = λ k mine theirs. ground arith;
    keys = λ k mine theirs. ground arith;
  })
]

second : (j : ℕ) → j ≢ 1 → Apart stub_platform (has_order 100 90 unpaid_yams) (sweep_waits j)
second j other = elim (Bool-cases (j == 1)) [
  | inl same ↦ absurd (other (ground arith))
  | inr off ↦ rw off (elim (Bool-cases (j == 0)) [
    | inl same ↦ rw same (record {
      pools = λ k mine theirs. ground arith;
      orders = λ k mine theirs. ground arith;
      events = λ k mine theirs. ground arith;
      keys = λ k mine theirs. ground arith;
    })
    | inr out ↦ rw out (record {
      pools = λ k mine theirs. ground arith;
      orders = λ k mine theirs. ground arith;
      events = λ k mine theirs. ground arith;
      keys = λ k mine theirs. ground arith;
    })
  ])
]

third :
    (j : ℕ)
    → j ≢ 0
    → Apart stub_platform (has_key (places placing) yams (10, "k2")) (contended.pc j)
third j other = elim (Bool-cases (j == 0)) [
  | inl same ↦ absurd (other (ground arith))
  | inr off ↦ elim (Bool-cases (j == 1)) [
    | inl same ↦ rw same (record {
      pools = λ k mine theirs. ground arith;
      orders = λ k mine theirs. ground arith;
      events = λ k mine theirs. ground arith;
      keys = λ k mine theirs. ground arith;
    })
    | inr out ↦
        rw (off, out)
          (record {
            pools = λ k mine theirs. ground arith;
            orders = λ k mine theirs. ground arith;
            events = λ k mine theirs. ground arith;
            keys = λ k mine theirs. ground arith;
          })
  ]
]

unfoldable to_contended : Reach stub_platform market contended
unfolding find
to_contended =
    later
      (later
        (later
          (later at_start (pick 0 (begin_pool (places placing)) (λ j other. wants_pool-Apart idle)))
          (pick 0 (lock_pool {row = yams} refl) lone))
        (pick 1 (begin_order 100 90) (λ j other. wants_order-Apart (buyer_locks j))))
      (pick 1 (lock_order {row = unpaid_yams} refl) second)

unfoldable to_placed : Reach stub_platform market placed
unfolding key_of has_idempotency_key first
to_placed =
    later (later to_contended (pick 0 (insert_key {key = (10, "k2")} refl refl) third))
      (pick 0 end_key (λ j other. idle-Apart stub_platform (keyed.pc j)))

locks_protect_example :
    ((i j : ℕ) → i ≢ j → Apart stub_platform (contended.pc i) (contended.pc j))
    × ((i : ℕ) → Holds stub_platform market.committed (contended.pc i))
locks_protect_example = locks_protect stub_platform to_contended

serial_test : serial stub_platform to_placed ≡ resumes placing ∷ []
unfolding serial to_contended to_placed committed_by
serial_test = refl

can_rest_example : (t : Market) × Drains stub_platform contended t × ((j : ℕ) → t.pc j ≡ idle)
can_rest_example = can_rest stub_platform to_contended

Reach-IsStocked_example :
    IsStocked placed.shared.committed
    ⊎ HasLate stub_platform (serial stub_platform to_placed) market
Reach-IsStocked_example = Reach-IsStocked stub_platform to_placed market-IsStocked
