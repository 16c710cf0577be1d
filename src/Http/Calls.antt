-- ===== src/Http/Calls.antt =====
-- The calls that can change the database, as requests, and the roles that each asks for.
use farm_link.Common.{ℕ, String, Option, none, some, List, [], ◌∷◌}
use farm_link.Schema.{Uuid, UserRole, farmer, buyer, admin}
use farm_link.Session.{State, Action, with_session}
use farm_link.Security.{Crypto}
use farm_link.Auth.{UserRegister}
use farm_link.Pools.{PoolCreate}
use farm_link.Payments.Paystack.{Platform, Bytes}
use farm_link.Http.Status.{status_code}
use farm_link.Http.Accounts.{register, approve_user_route, set_user_role_route}
use farm_link.Http.Market.{
  create_pool_route, close_pool_route, create_contribution_route, create_order_route,
}
use farm_link.Http.Money.{paystack_webhook, distribute_payouts}

pub data Call : Type 0 where
  registers : (salt : String) (input : UserRegister) → Call
  approves : (user_id : Uuid) → Call
  sets_role : (user_id : Uuid) (role : UserRole) → Call
  creates_pool : (input : PoolCreate) → Call
  closes_pool : (pool_id : Uuid) → Call
  contributes : (pool_id : Uuid) (qty : ℕ) → Call
  orders : (pool_id : Uuid) (qty : ℕ) (idempotency_key : Option String) → Call
  distributes : (pool_id : Uuid) → Call
  notifies : (raw_body : Bytes) (signature : Option String) → Call

-- The response's status, and what the session leaves.
abbrev pub respond : {A : Type 0} → ℕ → Action A → State → ℕ × State
respond success m s = let (r, s') = with_session m s in (status_code success r, s')

unfoldable pub serve : Crypto → Platform → Option String → Call → State → ℕ × State
serve c p token (registers salt input) = respond 201 (register c salt input)
serve c p token (approves user_id) = respond 200 (approve_user_route c token user_id)
serve c p token (sets_role user_id role) = respond 200 (set_user_role_route c token user_id role)
serve c p token (creates_pool input) = respond 201 (create_pool_route c token input)
serve c p token (closes_pool pool_id) = respond 200 (close_pool_route c token pool_id)
serve c p token (contributes pool_id qty) =
    respond 201 (create_contribution_route c token pool_id qty)
serve c p token (orders pool_id qty key) = respond 201 (create_order_route c token pool_id qty key)
serve c p token (distributes pool_id) = respond 200 (distribute_payouts c token pool_id)
serve c p token (notifies raw_body signature) = respond 200 (paystack_webhook p raw_body signature)

-- Who may make a call: a registration and a delivery need no user.
abbrev pub roles_of : Call → Option (List UserRole)
roles_of (registers salt input) = none
roles_of (approves user_id) = some (admin ∷ [])
roles_of (sets_role user_id role) = some (admin ∷ [])
roles_of (creates_pool input) = some (admin ∷ [])
roles_of (closes_pool pool_id) = some (admin ∷ [])
roles_of (contributes pool_id qty) = some (farmer ∷ [])
roles_of (orders pool_id qty key) = some (buyer ∷ [])
roles_of (distributes pool_id) = some (admin ∷ [])
roles_of (notifies raw_body signature) = none
