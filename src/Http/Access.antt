-- ===== src/Http/Access.antt =====
-- Who may make a call.
use farm_link.Common.{
  ◌∙◌, ◌≡◌, ◌≢◌, ap, subst, not, inl, inr, String, Bool, true, Option, some, List, [], ◌∷◌, ltb,
}
use farm_link.Schema.{UserRole, farmer, buyer, admin, User}
use farm_link.Session.{
  State, Result-cases, Action, raise_if, http_exception, ◌>>◌, ◌>>=◌, bind_err, with_session,
}
use farm_link.Security.{Crypto, require_role}
use farm_link.Security.Access.{Access, Passes, require_role-Access}
use farm_link.Auth.{approve_user}
use farm_link.Pools.{create_pool, close_pool}
use farm_link.Contributions.{create_contribution}
use farm_link.Orders.{create_order}
use farm_link.Payments.Paystack.{Platform}
use farm_link.Payouts.{calculate_and_create_payouts}
use farm_link.Http.Status.{guarded, catching}
use farm_link.Http.Shown.{shown_lem}
use farm_link.Http.Accounts.{
  user_out, approve_user_route, set_role_as, set_user_role_route, auth_status,
}
use farm_link.Http.Market.{
  create_pool_route, close_pool_route, create_contribution_route, create_order_route, order_request,
  pool_status, contribution_status, order_status, is_pool,
}
use farm_link.Http.Money.{distribute_payouts, payout_status}
use farm_link.Http.Atomic.{began, require_role_eq}
use farm_link.Http.Calls.{
  Call, registers, approves, sets_role, creates_pool, closes_pool, contributes, orders, distributes,
  notifies, serve, roles_of,
}

-- A guarded route changes the database only for a caller that passes.
guarded-Passes :
    {A : Type 0} (c : Crypto) (wanted roles : List UserRole) (body_ok : Bool)
    (token : Option String) (f : User → Action A) (s : State)
    → some wanted ≡ some roles
    → (with_session (guarded c wanted body_ok token f) s).1.committed ≢ s.committed
    → (user : User) × Passes c roles token (began s) user
unfolding with_session
guarded-Passes c wanted roles body_ok token f s same changed =
    elim (Result-cases (require_role c wanted token (began s)).0) [
      | inl (x, refused) ↦ absurd (
          changed (
            ap (λ x. x.1.committed)
              (bind_err (require_role c wanted token)
                (λ user. raise_if (not body_ok) (http_exception 422) >> f user) (began s) (began s)
                x (require_role_eq c wanted token (began s) _ refused))))
      | inr (user, passed) ↦ (
        user,
        subst (λ r. Passes c r token (began s) user) (some_eq same)
            (subst (Access c wanted token (began s)) passed
              (require_role-Access c wanted token (began s)).0),
      )
    ]
  where
    some_eq : {A : Type 0} {a b : A} → some a ≡ some b → a ≡ b
    some_eq e = cc

-- An admin's route that shows the account.
shown-Passes :
    (c : Crypto) (roles : List UserRole) (token : Option String) (f : User → Action User)
    (s : State)
    → some (admin ∷ []) ≡ some roles
    → (with_session (guarded c (admin ∷ []) true token f >>= user_out c) s).1.committed
      ≢ s.committed
    → (user : User) × Passes c roles token (began s) user
shown-Passes c roles token f s same changed =
    let (_, kept) = shown_lem c (guarded c (admin ∷ []) true token f) s in
    guarded-Passes c (admin ∷ []) roles true token f s same
      (λ e. changed (ap (λ t. t.committed) kept ∙ e))

-- Apart from registrations and Paystack's deliveries, the database changes only for a caller whose
-- token names an existing user with the call's role, approved or an admin.
pub serve-Passes :
    (c : Crypto) (p : Platform) (token : Option String) (call : Call) (s : State)
    (roles : List UserRole)
    → roles_of call ≡ some roles
    → (serve c p token call s).1.committed ≢ s.committed
    → (user : User) × Passes c roles token (began s) user
unfolding serve approve_user_route set_user_role_route create_pool_route close_pool_route
    create_contribution_route create_order_route distribute_payouts
serve-Passes c p token (registers salt input) s roles e changed = cc
serve-Passes c p token (approves user_id) s roles e changed =
    shown-Passes c roles token (λ _. catching auth_status (approve_user user_id)) s e changed
serve-Passes c p token (sets_role user_id role) s roles e changed =
    shown-Passes c roles token (set_role_as user_id role) s e changed
serve-Passes c p token (creates_pool input) s roles e changed =
    guarded-Passes c (admin ∷ []) roles (is_pool input) token (λ _. create_pool input) s e changed
serve-Passes c p token (closes_pool pool_id) s roles e changed =
    guarded-Passes c (admin ∷ []) roles (true) token
      (λ _. catching pool_status (close_pool pool_id)) s e changed
serve-Passes c p token (contributes pool_id qty) s roles e changed =
    guarded-Passes c (farmer ∷ []) roles (ltb 0 qty) token
      (λ user. catching contribution_status (create_contribution user.id pool_id qty)) s e changed
serve-Passes c p token (orders pool_id qty key) s roles e changed =
    guarded-Passes c (buyer ∷ []) roles (ltb 0 qty) token
      (λ user. catching order_status (create_order (order_request pool_id qty key user))) s e
      changed
serve-Passes c p token (distributes pool_id) s roles e changed =
    guarded-Passes c (admin ∷ []) roles (true) token
      (λ _. catching payout_status (calculate_and_create_payouts pool_id)) s e changed
serve-Passes c p token (notifies raw_body signature) s roles e changed = cc
