-- ===== src/Http/Errors.antt =====
-- What an error leaves of a call.
use farm_link.Common.{
  List, [], ◌∷◌, ◌⊎◌, inl, inr, ap, sym, ◌∙◌, find, ℕ, ◌≡◌, ◌≤◌, refl, subst, String, true, Option,
  none, some, arith, ltb,
}
use farm_link.Schema.{Database, User, UserRole, admin, user_key}
use farm_link.Session.{State, Exn, Result, ok, err, Action, ◌>>=◌, with_session}
use farm_link.Security.{Crypto}
use farm_link.Auth.{UserRegister, register_user, parse_register, approve_user}
use farm_link.Auth.Accounts.{register_user-Outcome}
use farm_link.Auth.Accounts as Accounts
use farm_link.Pools.{create_pool, close_pool}
use farm_link.Pools.Outcome.{Created, create_pool-Created, Closed, close_pool-Closed}
use farm_link.Contributions.{create_contribution}
use farm_link.Contributions.Outcome as Contributing
use farm_link.Orders.{create_order}
use farm_link.Orders.Placement as Placing
use farm_link.Payments.Paystack.{Platform, Bytes}
use farm_link.Payments.{process_webhook_event}
use farm_link.Payments.Outcome as Paying
use farm_link.Payouts.{calculate_and_create_payouts}
use farm_link.Payouts.Outcome as Distributing
use farm_link.Http.Shown.{
  Shows, shown_lem, Answers, catching-Answers, raise_if-Answers, approve_user-Answers,
  set_user_role-Answers, register_user-Answers,
}
use farm_link.Http.Ownership.{guarded_ok}
use farm_link.Http.Status.{guarded, catching, status_code}
use farm_link.Http.Accounts.{
  register, register_body, user_out, approve_user_route, set_role_as, set_user_role_route,
  auth_status,
}
use farm_link.Http.Market.{
  create_pool_route, close_pool_route, create_contribution_route, create_order_route, order_request,
  pool_status, contribution_status, order_status, is_pool,
}
use farm_link.Http.Money.{paystack_webhook, distribute_payouts, payout_status, webhook_status}
use farm_link.Http.Atomic.{
  Atomic, catching-Atomic, guarded-Atomic, raise_if-Atomic, error_raised, approve_user-Atomic,
  set_user_role-Atomic,
}
use farm_link.Http.Calls.{
  Call, registers, approves, sets_role, creates_pool, closes_pool, contributes, orders, distributes,
  notifies, respond, serve,
}

-- An outcome that says that an exception commits nothing.
outcome-Atomic :
    {A : Type 0} (m : Action A) (Outcome : State → Result A × Database → Type 0)
    → ((s : State) → let (r, s') = with_session m s in Outcome s (r, s'.committed))
    → ((s : State) (e : Exn) (db : Database) → Outcome s (err e, db) → db ≡ s.committed)
    → Atomic m
outcome-Atomic m Outcome o raised_same s e raised =
    raised_same s e _ (subst (λ r. Outcome s (r, (with_session m s).1.committed)) raised (o s))

respond-error :
    {A : Type 0} (success : ℕ) (m : Action A) (s : State)
    → Atomic m
    → success ≤ 399
    → 400 ≤ (respond success m s).0
    → (respond success m s).1.committed ≡ s.committed
respond-error success m s h low high =
    let (e, raised) = error_raised success (with_session m s).0 low high in h s e raised

-- What an error leaves of a call: the database as it was, or a 500 for an account whose email is
-- none, after the commit.
abbrev pub Leaves : Crypto → State → ℕ × State → Type 0
Leaves c s (status, s') =
    (s'.committed ≡ s.committed)
    ⊎ ((status ≡ 500)
        × (user : User) × (find user_key user.id s'.committed.users ≡ some user)
        × (c.validate_email user.email ≡ none))

shown-Leaves :
    (c : Crypto) (success : ℕ) (m : Action User) (s : State) (r shown : Result User) (s' : State)
    → Shows c r shown
    → ((e : Exn) → r ≡ err e → s'.committed ≡ s.committed)
    → ((user : User) → r ≡ ok user → find user_key user.id s'.committed.users ≡ some user)
    → success ≤ 399
    → 400 ≤ status_code success shown
    → Leaves c s (status_code success shown, s')
unfolding status_code
shown-Leaves c success m s (ok user) (ok shown) s' _ same found low high = absurd (omega arith)
shown-Leaves c success m s (ok user) (err e) s' (invalid, why) same found low high =
    inr (rw why refl, user, found user refl, invalid)
shown-Leaves c success m s (err e) (ok shown) s' shows same found low high = absurd shows
shown-Leaves c success m s (err e) (err f) s' shows same found low high = inl (same e refl)

respond-shown :
    (c : Crypto) (success : ℕ) (m : Action User) (s : State)
    → Atomic m
    → Answers m
    → success ≤ 399
    → 400 ≤ (respond success (m >>= user_out c) s).0
    → Leaves c s (respond success (m >>= user_out c) s)
respond-shown c success m s h found low high =
    let (shows, same) = shown_lem c m s in
    subst (λ t. Leaves c s (status_code success (with_session (m >>= user_out c) s).0, t))
      (sym same)
      (shown-Leaves c success m s (with_session m s).0 (with_session (m >>= user_out c) s).0
        (with_session m s).1 shows (h s) (found s) low high)

webhook-Atomic :
    (p : Platform) (raw_body : Bytes) (signature : Option String)
    → Atomic (paystack_webhook p raw_body signature)
unfolding with_session paystack_webhook
webhook-Atomic p raw_body none = λ s e raised. refl
webhook-Atomic p raw_body (some signature) =
    catching-Atomic webhook_status (process_webhook_event p raw_body signature) (
      outcome-Atomic (process_webhook_event p raw_body signature)
        (Paying.Outcome p raw_body signature)
        (Paying.process_webhook_event-Outcome p raw_body signature) (λ s e db o. o))

register_body-Atomic :
    (c : Crypto) (salt : String) (input : Option UserRegister) → Atomic (register_body c salt input)
unfolding with_session register_body
register_body-Atomic c salt none s e raised = refl
register_body-Atomic c salt (some body) s e raised =
    catching-Atomic auth_status (register_user c salt body)
      (outcome-Atomic (register_user c salt body) (Accounts.Outcome c salt body)
        (register_user-Outcome c salt body) (λ s e db o. o))
      s e raised

register_body-Answers :
    (c : Crypto) (salt : String) (input : Option UserRegister)
    → Answers (register_body c salt input)
unfolding with_session register_body
register_body-Answers c salt none s user is_ok = cc
register_body-Answers c salt (some body) s user is_ok =
    catching-Answers auth_status (register_user c salt body) (register_user-Answers c salt body) s
      user is_ok

guarded-Answers :
    (c : Crypto) (roles : List UserRole) (token : Option String) (f : User → Action User)
    → ((caller : User) → Answers (f caller))
    → Answers (guarded c roles true token f)
guarded-Answers c roles token f h s user is_ok =
    let (caller, passes, same) = guarded_ok c roles token f s user is_ok in
    subst (λ x. find user_key user.id x.1.committed.users ≡ some user) (sym same)
      (h caller s user (sym (ap (λ x. x.0) same) ∙ is_ok))

-- A response whose status is an error comes with a database that is as it was, but for the 500 of a
-- route that has committed and cannot show the account, whose email is none.
pub serve-error :
    (c : Crypto) (p : Platform) (token : Option String) (call : Call) (s : State)
    → 400 ≤ (serve c p token call s).0
    → Leaves c s (serve c p token call s)
unfolding serve register approve_user_route set_user_role_route set_role_as create_pool_route
    close_pool_route create_contribution_route create_order_route distribute_payouts
serve-error c p token (registers salt input) s high =
    respond-shown c 201 (register_body c salt (parse_register c input)) s
      (register_body-Atomic c salt (parse_register c input))
      (register_body-Answers c salt (parse_register c input)) (omega arith) high
serve-error c p token (approves user_id) s high =
    respond-shown c 200
      (guarded c (admin ∷ []) true token (λ _. catching auth_status (approve_user user_id))) s
      (guarded-Atomic c _ true token _
        (λ u. catching-Atomic auth_status _ (approve_user-Atomic user_id)))
      (guarded-Answers c _ token _
        (λ u. catching-Answers auth_status _ (approve_user-Answers user_id)))
      (omega arith) high
serve-error c p token (sets_role user_id role) s high =
    respond-shown c 200 (guarded c (admin ∷ []) true token (set_role_as user_id role)) s
      (guarded-Atomic c _ true token (set_role_as user_id role) (λ u.
        raise_if-Atomic _ _ _ (catching-Atomic auth_status _ (set_user_role-Atomic user_id role))))
      (guarded-Answers c _ token (set_role_as user_id role) (λ u.
        raise_if-Answers _ _ _
          (catching-Answers auth_status _ (set_user_role-Answers user_id role))))
      (omega arith) high
serve-error c p token (creates_pool input) s high = inl (
    respond-error 201 (create_pool_route c token input) s
      (guarded-Atomic c _ (is_pool input) token _ (λ u.
        outcome-Atomic (create_pool input) (Created input) (create_pool-Created input)
          (λ s e db o. o)))
      (omega arith) high)
serve-error c p token (closes_pool pool_id) s high = inl (
    respond-error 200 (close_pool_route c token pool_id) s
      (guarded-Atomic c _ true token _ (λ u. catching-Atomic pool_status _ (
        outcome-Atomic (close_pool pool_id) (Closed pool_id) (close_pool-Closed pool_id)
          (λ s e db o. o))))
      (omega arith) high)
serve-error c p token (contributes pool_id qty) s high = inl (
    respond-error 201 (create_contribution_route c token pool_id qty) s
      (guarded-Atomic c _ (ltb 0 qty) token _ (λ u. catching-Atomic contribution_status _ (
        outcome-Atomic (create_contribution u.id pool_id qty)
          (Contributing.Outcome u.id pool_id qty)
          (Contributing.create_contribution-Outcome u.id pool_id qty) (λ s e db o. o))))
      (omega arith) high)
serve-error c p token (orders pool_id qty key) s high = inl (
    respond-error 201 (create_order_route c token pool_id qty key) s
      (guarded-Atomic c _ (ltb 0 qty) token _ (λ u. catching-Atomic order_status _ (
        outcome-Atomic (create_order (order_request pool_id qty key u))
          (Placing.Outcome (order_request pool_id qty key u))
          (Placing.create_order-Outcome (order_request pool_id qty key u)) (λ s e db o. o))))
      (omega arith) high)
serve-error c p token (distributes pool_id) s high = inl (
    respond-error 200 (distribute_payouts c token pool_id) s
      (guarded-Atomic c _ true token _ (λ u. catching-Atomic payout_status _ (
        outcome-Atomic (calculate_and_create_payouts pool_id) (Distributing.Outcome pool_id)
          (Distributing.calculate_and_create_payouts-Outcome pool_id) (λ s e db o. o))))
      (omega arith) high)
serve-error c p token (notifies raw_body signature) s high = inl (
    respond-error 200 (paystack_webhook p raw_body signature) s
      (webhook-Atomic p raw_body signature) (omega arith) high)
