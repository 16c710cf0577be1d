-- ===== src/Concurrent/Drain.antt =====
-- Every transaction that has begun can end, without any other that begins.
use farm_link.Common.{
  ℕ, zero, suc, ◌+◌, ◌≤◌, ◌<◌, ◌≡◌, ◌≢◌, ◌⊎◌, inl, inr, ◌∙◌, refl, subst, Bool-cases, arith, false,
  ◌==◌, leb,
}
use farm_link.Session.{State}
use farm_link.Payments.Paystack.{Platform}
use farm_link.Concurrent.{
  Pc, idle, wants_pool, has_pool, has_key, wants_order, has_order, has_both, wants_event, has_event,
  has_charge, System, set, pick, Reach, at_start, later,
}
use farm_link.Concurrent.Reachable.{IsOrderly, Reach-IsOrderly, Step-IsOrderly, set_cases}
use farm_link.Concurrent.Able.{IsQuietFrom, Go, Goes, left, Turn-left}
use farm_link.Concurrent.Progress.{busy-Goes}

module _ (p : Platform) where
  Reach-IsQuietFrom : {start : State} {s : System p} → Reach p start s → (n : ℕ) × IsQuietFrom p n s
  Reach-IsQuietFrom at_start = (0, λ j past. refl)
  Reach-IsQuietFrom (later {s} r (pick i {q = q} turn free)) =
      let (n, quiet) = Reach-IsQuietFrom r in
      (
        n + suc i,
        λ j past. elim (set_cases p s.pc i q j) [
          | inl (same, _) ↦ absurd (omega (arith, same, past))
          | inr (_, here) ↦ here ∙ quiet j (omega (arith, past))
        ],
      )

  -- The turns that are left to the workers below a number.
  unfoldable pub total_left : ℕ → (ℕ → Pc p) → ℕ
  total_left zero pc = 0
  total_left (suc n) pc = total_left n pc + left p (pc n)

  total_left-set_past :
      (n i : ℕ) (q : Pc p) (pc : ℕ → Pc p) → n ≤ i → total_left n (set p pc i q) ≡ total_left n pc
  unfolding total_left
  total_left-set_past zero i q pc past = refl
  total_left-set_past (suc n) i q pc past =
      let other : (n == i) ≡ false = ground arith in
      rw (other, total_left-set_past n i q pc (omega arith)) refl

  total_left-set_lt :
      (n i : ℕ) (q : Pc p) (pc : ℕ → Pc p)
      → i < n
      → left p q < left p (pc i)
      → total_left n (set p pc i q) < total_left n pc
  unfolding total_left
  total_left-set_lt zero i q pc below less = absurd (omega arith)
  total_left-set_lt (suc n) i q pc below less = elim (set_cases p pc i q n) [
    | inl (same, here) ↦
        rw (here, total_left-set_past n i q pc (omega (arith, same)), same) (omega (arith, less))
    | inr (other, here) ↦
        rw here (omega (arith, total_left-set_lt n i q pc (omega (arith, other, below)) less))
  ]

  -- Steps of workers that are not idle: none of them begins a transaction.
  pub data Drains : System p → System p → Type 0 where
    at_rest : {s : System p} → Drains s s
    moves :
        {s t : System p} (i : ℕ)
        → s.pc i ≢ idle
        → (g : Go p s i) → Drains (record { shared = g.state; pc = set p s.pc i g.pc }) t
        → Drains s t

  Pc-cases : (a : Pc p) → (a ≡ idle) ⊎ (a ≢ idle)
  Pc-cases idle = inl refl
  Pc-cases (wants_pool t) = inr (λ e. ground arith)
  Pc-cases (has_pool t row) = inr (λ e. ground arith)
  Pc-cases (has_key t row key) = inr (λ e. ground arith)
  Pc-cases (wants_order order_id cutoff) = inr (λ e. ground arith)
  Pc-cases (has_order order_id cutoff row) = inr (λ e. ground arith)
  Pc-cases (has_both order_id cutoff order pool) = inr (λ e. ground arith)
  Pc-cases (wants_event d) = inr (λ e. ground arith)
  Pc-cases (has_event d) = inr (λ e. ground arith)
  Pc-cases (has_charge d order_id row) = inr (λ e. ground arith)

  -- A worker below a number is not idle, or all of them are.
  idle_cases : (n : ℕ) (pc : ℕ → Pc p) → ((i : ℕ) × (pc i ≢ idle)) ⊎ ((i : ℕ) → i < n → pc i ≡ idle)
  idle_cases zero pc = inr (λ i below. absurd (omega arith))
  idle_cases (suc n) pc = elim (Pc-cases (pc n)) [
    | inr busy ↦ inl (n, busy)
    | inl here ↦ elim (idle_cases n pc) [
      | inl found ↦ inl found
      | inr rest ↦ inr (λ i below. elim (Bool-cases (i == n)) [
        | inl same ↦ subst (λ k. pc k ≡ idle) (ground arith) here
        | inr other ↦ rest i (ground arith)
      ])
    ]
  ]

  abbrev after : (s : System p) → Goes p s → System p
  after s (i, busy, g) = record { shared = g.state; pc = set p s.pc i g.pc }

  busy_below : (n i : ℕ) (s : System p) → IsQuietFrom p n s → s.pc i ≢ idle → i < n
  busy_below n i s quiet busy = elim (Bool-cases (leb n i)) [
    | inl past ↦ absurd (busy (quiet i (ground arith)))
    | inr under ↦ ground arith
  ]

  still : (n : ℕ) (s : System p) → IsQuietFrom p n s → (m : Goes p s) → IsQuietFrom p n (after s m)
  still n s quiet (i, busy, g) j past = elim (set_cases p s.pc i g.pc j) [
    | inl (same, _) ↦ absurd (omega (arith, same, past, busy_below n i s quiet busy))
    | inr (_, here) ↦ here ∙ quiet j past
  ]

  -- A step of a worker that is not idle leaves fewer turns.
  fewer :
      (n : ℕ) (s : System p)
      → IsQuietFrom p n s
      → (m : Goes p s) → total_left n (after s m).pc < total_left n s.pc
  fewer n s quiet (i, busy, g) =
      total_left-set_lt n i g.pc s.pc (busy_below n i s quiet busy) (Turn-left p g.turn busy)

  abbrev CanRest : System p → Type 0
  CanRest s = (t : System p) × Drains s t × ((j : ℕ) → t.pc j ≡ idle)

  resting :
      (n : ℕ) (s : System p) → IsQuietFrom p n s → ((j : ℕ) → j < n → s.pc j ≡ idle) → CanRest s
  resting n s quiet rest = (
    s,
    at_rest,
    λ j. elim (Bool-cases (leb n j)) [
      | inl past ↦ quiet j (ground arith)
      | inr below ↦ rest j (ground arith)
    ],
  )

  next :
      (n : ℕ) (s : System p)
      → IsOrderly p s
      → IsQuietFrom p n s
      → (i : ℕ) → s.pc i ≢ idle
      → Goes p s
  next n s h quiet i busy = busy-Goes p n i (s.pc i) quiet h refl busy

  on : (s : System p) (m : Goes p s) → CanRest (after s m) → CanRest s
  on s (i, busy, g) (t, rest, quiet) = (t, moves i busy g rest, quiet)

  after-IsOrderly : (s : System p) → IsOrderly p s → (m : Goes p s) → IsOrderly p (after s m)
  after-IsOrderly s h (i, busy, g) = Step-IsOrderly p (pick i g.turn g.free) h

  drained :
      (fuel n : ℕ) (s : System p)
      → IsOrderly p s
      → IsQuietFrom p n s
      → total_left n s.pc ≤ fuel
      → CanRest s
  drained zero n s h quiet enough = elim (idle_cases n s.pc) [
    | inr rest ↦ resting n s quiet rest
    | inl (i, busy) ↦
        let less = fewer n s quiet (next n s h quiet i busy) in absurd (omega (arith, less, enough))
  ]
  drained (suc fuel) n s h quiet enough = elim (idle_cases n s.pc) [
    | inr rest ↦ resting n s quiet rest
    | inl (i, busy) ↦
        let m = next n s h quiet i busy in
        on s m (
          drained fuel n (after s m) (after-IsOrderly s h m) (still n s quiet m)
            (omega (arith, fewer n s quiet m, enough)))
  ]

  -- From every state that transactions reach side by side, those that have begun can all end, by
  -- steps of their own and without another that begins: they never wait for each other in a circle,
  -- for a row or for a unique key.
  pub can_rest :
      {start : State} {s : System p}
      → Reach p start s
      → (t : System p) × Drains s t × ((j : ℕ) → t.pc j ≡ idle)
  can_rest {start} {s} r =
      let (n, quiet) = Reach-IsQuietFrom r in
      drained (total_left n s.pc) n s (Reach-IsOrderly p r) quiet (omega arith)
