-- ===== src/Http/Market.antt =====
-- The routers of app/features/pools, contributions and orders.
use Prim.Native.String.{count}
use farm_link.Common.{ℕ, String, Bool, true, not, ◌&&◌, Option, List, [], ◌∷◌, ltb, leb, ◌==◌}
use farm_link.Schema.{Uuid, farmer, buyer, admin, User, PoolStatus, Pool, Contribution, Order}
use farm_link.Session.{
  Exn, pool_not_found, pool_closed, insufficient_stock, pool_already_closed, value_error,
  http_exception, Action, pure, ◌>>=◌, ◌>>◌, raise_if,
}
use farm_link.Security.{Crypto, same_role}
use farm_link.Pools.{PoolCreate, create_pool, list_pools, get_pool, close_pool}
use farm_link.Contributions.{
  ContributorRow, create_contribution, list_contributions_for_pool, get_pool_contributor_summary,
}
use farm_link.Orders.{OrderRequest, create_order, get_order, list_orders_for_buyer}
use farm_link.Http.Status.{catching, guarded}

unfoldable pub pool_status : Exn → Exn
pool_status pool_not_found = http_exception 404
pool_status pool_already_closed = http_exception 409
pool_status e = e

-- `PoolCreate`: a price above zero, and the two texts' lengths.
unfoldable pub is_pool : PoolCreate → Bool
is_pool input =
    leb 1 (count input.product)
    && leb (count input.product) 255
    && ltb 0 input.price
    && leb 1 (count input.unit)
    && leb (count input.unit) 50

unfoldable pub create_pool_route : Crypto → Option String → PoolCreate → Action Pool
create_pool_route c token input =
    guarded c (admin ∷ []) (is_pool input) token (λ _. create_pool input)

unfoldable pub list_pools_route : Option PoolStatus → Action (List Pool)
list_pools_route status = list_pools status

unfoldable pub get_pool_route : Uuid → Action Pool
unfolding pool_status
get_pool_route pool_id = catching pool_status (get_pool pool_id)

unfoldable pub close_pool_route : Crypto → Option String → Uuid → Action Pool
unfolding pool_status
close_pool_route c token pool_id =
    guarded c (admin ∷ []) true token (λ _. catching pool_status (close_pool pool_id))

unfoldable pub contribution_status : Exn → Exn
contribution_status pool_not_found = http_exception 404
contribution_status pool_closed = http_exception 409
contribution_status e = e

unfoldable pub create_contribution_route : Crypto → Option String → Uuid → ℕ → Action Contribution
unfolding contribution_status
create_contribution_route c token pool_id qty =
    guarded c (farmer ∷ []) (ltb 0 qty) token
      (λ user. catching contribution_status (create_contribution user.id pool_id qty))

unfoldable pub list_contributions_route : Uuid → Action (List Contribution)
list_contributions_route pool_id = list_contributions_for_pool pool_id

unfoldable pub contributor_summary_route : Uuid → Action (List ContributorRow)
contributor_summary_route pool_id = get_pool_contributor_summary pool_id

unfoldable pub order_status : Exn → Exn
order_status pool_not_found = http_exception 404
order_status pool_closed = http_exception 409
order_status insufficient_stock = http_exception 409
order_status e = e

-- What the route makes of a request and its caller.
abbrev pub order_request : Uuid → ℕ → Option String → User → OrderRequest
order_request pool_id qty idempotency_key user = record {
  buyer_id = user.id;
  buyer_email = user.email;
  pool_id = pool_id;
  qty = qty;
  idempotency_key = idempotency_key;
}

unfoldable pub create_order_route : Crypto → Option String → Uuid → ℕ → Option String → Action Order
unfolding order_status
create_order_route c token pool_id qty idempotency_key =
    guarded c (buyer ∷ []) (ltb 0 qty) token (λ user.
      catching order_status (create_order (order_request pool_id qty idempotency_key user)))

unfoldable pub list_my_orders : Crypto → Option String → Action (List Order)
list_my_orders c token = guarded c (buyer ∷ []) true token (λ user. list_orders_for_buyer user.id)

abbrev missing_order : Exn → Exn
missing_order value_error = http_exception 404
missing_order e = e

-- A buyer sees its own orders, an admin all.
unfoldable pub order_seen_by : Uuid → User → Action Order
order_seen_by order_id user = do
  order ← catching missing_order (get_order order_id)
  raise_if (same_role user.role buyer && not (order.buyer_id == user.id)) (http_exception 403)
  pure order

unfoldable pub get_order_route : Crypto → Option String → Uuid → Action Order
get_order_route c token order_id =
    guarded c (buyer ∷ admin ∷ []) true token (order_seen_by order_id)
