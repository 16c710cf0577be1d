-- ===== src/Concurrent/Able.antt =====
-- The steps that are left to a worker, and who has a row or a key.
use farm_link.Common.{
  String, ap, str_eq, eq_iff, true, false, leb, ℕ, zero, suc, ◌≤◌, ◌<◌, ◌≡◌, ◌≢◌, ◌⊎◌, inl, inr,
  sym, ◌∙◌, refl, subst, Bool-cases, Option, none, some, arith, ◌==◌,
}
use farm_link.Schema.{Uuid}
use farm_link.Session.{State}
use farm_link.Payments.Paystack.{Platform}
use mathlib.Core.Option.{none-ne-some, some-injective}
use farm_link.Concurrent.{
  Pc, idle, wants_pool, has_pool, has_key, wants_order, has_order, has_both, wants_event, has_event,
  has_charge, Turn, begin_pool, lock_pool, miss_pool, end_pool, insert_key, refuse_key, end_key,
  begin_order, lock_order, miss_order, skip, lock_second, miss_second, end_release, begin_event,
  record_event, refuse_event, end_event, lock_charged, miss_charged, end_charge, at_once, Apart,
  System,
}

-- Whether a key is had, for keys that can be told apart.
abbrev pub Decides : Type 0 → Type 0
Decides K = (o : Option K) (k : K) → (o ≡ some k) ⊎ (o ≢ some k)

-- Identifiers, texts, and idempotency keys can be told apart.
pub uuid_cases : Decides Uuid
uuid_cases none k = inr (λ e. absurd (ground arith))
uuid_cases (some x) k = elim (Bool-cases (x == k)) [
  | inl same ↦ inl (ground arith)
  | inr other ↦ inr (λ e. ground arith)
]

pub text_cases : Decides String
text_cases none k = inr (λ e. absurd (none-ne-some _ e))
text_cases (some x) k = elim (Bool-cases (str_eq x k)) [
  | inl same ↦ inl (ap some ((eq_iff x k).0 same))
  | inr other ↦ inr (λ e. absurd (true_false (sym ((eq_iff x k).1 (some-injective _ _ e)) ∙ other)))
]
  where
    true_false : true ≢ false
    true_false e = cc

pub key_cases : Decides (Uuid × String)
key_cases none k = inr (λ e. absurd (none-ne-some _ e))
key_cases (some (x, a)) (y, b) = elim (uuid_cases (some x) y) [
  | inr other ↦ inr (λ e. other (ap (λ k. some k.0) (some-injective _ _ e)))
  | inl same ↦ elim (text_cases (some a) b) [
    | inr other ↦ inr (λ e. other (ap (λ k. some k.1) (some-injective _ _ e)))
    | inl same_text ↦ inl (λ i. some (some-injective _ _ same i, some-injective _ _ same_text i))
  ]
]

module _ (p : Platform) where
  -- The workers past a number are idle.
  abbrev pub IsQuietFrom : ℕ → System p → Type 0
  IsQuietFrom n s = (j : ℕ) → n ≤ j → s.pc j ≡ idle

  -- A step that a worker can take.
  pub record Go (s : System p) (i : ℕ) : Type 0 where
    pub state : State
    pub pc : Pc p
    pub turn : Turn p s.shared (s.pc i) state pc
    pub free : (j : ℕ) → j ≢ i → Apart p pc (s.pc j)

  -- The turns that are left to a worker before it is done.
  unfoldable pub left : Pc p → ℕ
  left idle = 0
  left (wants_pool t) = 3
  left (has_pool t row) = 2
  left (has_key t row key) = 1
  left (wants_order order_id cutoff) = 3
  left (has_order order_id cutoff row) = 2
  left (has_both order_id cutoff order pool) = 1
  left (wants_event d) = 3
  left (has_event d) = 2
  left (has_charge d order_id row) = 1

  pub Turn-left : {s t : State} {a q : Pc p} → Turn p s a t q → a ≢ idle → left q < left a
  unfolding left
  Turn-left (begin_pool t) busy = absurd (busy refl)
  Turn-left (lock_pool found) busy = omega arith
  Turn-left (miss_pool absent) busy = omega arith
  Turn-left (end_pool keyless) busy = omega arith
  Turn-left (insert_key keyed new) busy = omega arith
  Turn-left (refuse_key keyed known) busy = omega arith
  Turn-left end_key busy = omega arith
  Turn-left (begin_order order_id cutoff) busy = absurd (busy refl)
  Turn-left (lock_order found) busy = omega arith
  Turn-left (miss_order absent) busy = omega arith
  Turn-left (skip passed) busy = omega arith
  Turn-left (lock_second due found) busy = omega arith
  Turn-left (miss_second due absent) busy = omega arith
  Turn-left end_release busy = omega arith
  Turn-left (begin_event d) busy = absurd (busy refl)
  Turn-left (record_event new) busy = omega arith
  Turn-left (refuse_event refused) busy = omega arith
  Turn-left (end_event unnamed) busy = omega arith
  Turn-left (lock_charged named found) busy = omega arith
  Turn-left (miss_charged named absent) busy = omega arith
  Turn-left end_charge busy = omega arith
  Turn-left (at_once r nothing) busy = absurd (busy refl)

  -- Some worker below the bound has it, or none has.
  held_below :
      {K : Type 0} (decide : Decides K) (held : Pc p → Option K) (pc : ℕ → Pc p) (k : K) (n : ℕ)
      → ((j : ℕ) × (held (pc j) ≡ some k)) ⊎ ((j : ℕ) → j < n → held (pc j) ≢ some k)
  held_below decide held pc k zero = inr (λ j below. absurd (omega arith))
  held_below decide held pc k (suc n) = elim (held_below decide held pc k n) [
    | inl found ↦ inl found
    | inr none_below ↦ elim (decide (held (pc n)) k) [
      | inl here ↦ inl (n, here)
      | inr free ↦ inr (λ j below. elim (Bool-cases (j == n)) [
        | inl same ↦ λ e. free (subst (λ (i : ℕ). held (pc i) ≡ some k) (ground arith) e)
        | inr other ↦ none_below j (ground arith)
      ])
    ]
  ]

  pub held_cases :
      {K : Type 0} (decide : Decides K) (held : Pc p → Option K) (s : System p) (k : K) (n : ℕ)
      → IsQuietFrom n s
      → held idle ≡ none
      → ((j : ℕ) × (held (s.pc j) ≡ some k)) ⊎ ((j : ℕ) → held (s.pc j) ≢ some k)
  held_cases decide held s k n quiet nothing = elim (held_below decide held s.pc k n) [
    | inl found ↦ inl found
    | inr none_below ↦ inr (λ j e. elim (Bool-cases (leb n j)) [
      | inl past ↦
          absurd (none-ne-some _ (sym nothing ∙ sym (ap held (quiet j (ground arith))) ∙ e))
      | inr below ↦ none_below j (ground arith) e
    ])
  ]

  -- A worker that is not idle and can take a step.
  abbrev pub Goes : System p → Type 0
  Goes s = (i : ℕ) × (s.pc i ≢ idle) × Go s i

  pub go :
      {s : System p} (i : ℕ) (a : Pc p) {t : State} {q : Pc p}
      → s.pc i ≡ a
      → a ≢ idle
      → Turn p s.shared a t q
      → ((j : ℕ) → j ≢ i → Apart p q (s.pc j))
      → Goes s
  go {s} i a {t} {q} here busy turn free = (
    i,
    (λ e. busy (sym here ∙ e)),
    record {
      state = t;
      pc = q;
      turn = subst (λ a. Turn p s.shared a t q) (sym here) turn;
      free = free;
    },
  )
