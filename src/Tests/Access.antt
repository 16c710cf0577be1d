-- ===== src/Tests/Access.antt =====
-- Accounts, tokens and routes at concrete inputs.
use farm_link.Common.{
  ◌≡◌, ◌≢◌, refl, ap, String, Bool, true, false, none, some, [], ◌∷◌, str_eq, if◌then◌else◌, ◌==◌,
  arith, ◌⊎◌, find, first, replace,
}
use Prim.Native.String.{◌++◌ as ◌+++◌}
use farm_link.Schema.{
  Uuid, farmer, buyer, admin, User, opened, Database, user_key, order_key, has_email, is_admin,
  admit_user, admit_pool_update, fits_string, closed,
}
use farm_link.Session.{
  State, ok, with_session, uuid4, insert_user, commit, update_user, update_pool, publish_pool_event,
}
use farm_link.Security.{
  Crypto, hash_password, get_current_user, is_allowed, check_role, require_role,
  decode_access_token, same_role,
}
use farm_link.Security.Access.{Access, Names, Passes, require_role-Access}
use farm_link.Auth.{UserRegister, register_user, approve, approve_user, set_user_role, with_role}
use farm_link.Auth.Accounts as Accounts
use farm_link.Auth.Accounts.{HasAdmin, register_user-Outcome, bootstrap_admin-HasAdmin}
use farm_link.Auth.Roundtrip.{approve_user-Passes}
use farm_link.Http.Login.{register-login}
use farm_link.Http.Errors.{Leaves}
use farm_link.Http.Accounts.{register, register_body, user_out, login}
use farm_link.Auth.{parse_register, is_valid}
use farm_link.Security.{create_access_token}
use farm_link.Orders.{get_order}
use farm_link.Pools.{close_pool, invalidate_pool_cache}
use farm_link.Http.Accounts.{set_role_as, set_user_role_route, auth_status}
use farm_link.Http.Market.{close_pool_route, get_order_route, order_seen_by, pool_status}
use farm_link.Http.Status.{status_code}
use farm_link.Http.Atomic.{began}
use farm_link.Http.Calls.{closes_pool, serve}
use farm_link.Http.Errors.{serve-error}
use farm_link.Http.Access.{serve-Passes}
use farm_link.Http.Ownership.{get_order_route-owned, set_user_role_route-admin_left}
use farm_link.Tests.Market.{ada, market_database, market_with, unpaid_yams, stub_platform}

abbrev amaka : User
amaka = record {
  id = 30;
  email = "amaka@x.ng";
  password_hash = "h";
  role = admin;
  approved = true;
  created_at = 0;
}

abbrev dele : User
dele = record {
  id = 31;
  email = "dele@x.ng";
  password_hash = "h";
  role = buyer;
  approved = false;
  created_at = 0;
}

-- A bearer's token is the user's name here, and its claims say buyer.
abbrev pub stub_crypto : Crypto
stub_crypto = record {
  hashpw = λ password salt. salt +++ password;
  checkpw = λ password hash. str_eq ("s" +++ password) hash;
  encode = λ claims. elim claims.sub [ none ↦ "" | some t ↦ t ];
  decode = λ now t. some (record { sub = some t; role = buyer; exp = 86400 });
  validate_email = λ t.
      if str_eq t "root@localhost"
      then none
      else (if str_eq t "femi@X.NG" then some "femi@x.ng" else some t);
  uuid_text = λ n. if n == 10 then "ada" else (if n == 30 then "amaka" else "dele");
  parse_uuid = λ t.
      if str_eq t "ada"
      then some 10
      else (if str_eq t "amaka" then some 30 else (if str_eq t "dele" then some 31 else none));
}

abbrev office : State
office = market_with (record market_database { users = ada ∷ amaka ∷ dele ∷ [] })

require_role-Access_example :
    let (result, s') = require_role stub_crypto (buyer ∷ []) (some "ada") office in
    Access stub_crypto (buyer ∷ []) (some "ada") office result × (s' ≡ office)
require_role-Access_example = require_role-Access stub_crypto (buyer ∷ []) (some "ada") office

Names-stub_crypto :
    (token : String) (user : User) (s : State) (id : Uuid)
    → stub_crypto.parse_uuid token ≡ some id
    → find user_key id s.working.users ≡ some user
    → Names stub_crypto (some token) s user
Names-stub_crypto token user s id parsed found = record {
  bearer = token;
  claims = record { sub = some token; role = buyer; exp = 86400 };
  subject = token;
  user_id = id;
  given = refl;
  decoded = refl;
  named = refl;
  parsed = parsed;
  found = found;
}

abbrev femi : UserRegister
femi = record { email = "femi@x.ng"; password = "plantain"; role = farmer }

register_user-Outcome_example :
    let (result, s') = with_session (register_user stub_crypto "s" femi) office in
    Accounts.Outcome stub_crypto "s" femi office (result, s'.committed)
register_user-Outcome_example = register_user-Outcome stub_crypto "s" femi office

abbrev femis_account : User
femis_account = record {
  id = 1000;
  email = "femi@x.ng";
  password_hash = "splantain";
  role = farmer;
  approved = false;
  created_at = 86490;
}

-- Femi writes the domain in capitals.
abbrev as_typed : UserRegister
as_typed = record femi { email = "femi@X.NG" }

femi_registered : (with_session (register stub_crypto "s" as_typed) office).0 ≡ ok femis_account
unfolding with_session register register_body parse_register is_valid auth_status user_out
    register_user hash_password uuid4 insert_user commit admit_user find first has_email fits_string
femi_registered = refl

register-login_example :
    let s' = (with_session (register stub_crypto "s" as_typed) office).1 in
    (email : String) × (stub_crypto.validate_email "femi@X.NG" ≡ some email)
    × ((with_session (login stub_crypto email "plantain") s').0
        ≡ ok (create_access_token stub_crypto 1000 farmer s'.now))
register-login_example =
    register-login stub_crypto "s" as_typed office femis_account refl femi_registered

approve_user-Passes_example :
    let s' = (with_session (approve_user 31) office).1 in
    require_role stub_crypto (buyer ∷ []) (some "dele") (began s') ≡ (ok (approve dele), began s')
unfolding find is_allowed
approve_user-Passes_example =
    approve_user-Passes stub_crypto (buyer ∷ []) (some "dele") office dele
      (Names-stub_crypto "dele" dele (began office) 31 refl refl) refl

-- A buyer may not close a pool, and an admin may.
serve-error_example :
    Leaves stub_crypto office (serve stub_crypto stub_platform (some "ada") (closes_pool 1) office)
unfolding serve close_pool_route with_session status_code require_role get_current_user
    decode_access_token check_role is_allowed find
serve-error_example =
    serve-error stub_crypto stub_platform (some "ada") (closes_pool 1) office (omega arith)

abbrev closed_office : Database
closed_office = (serve stub_crypto stub_platform (some "amaka") (closes_pool 1) office).1.committed

is_closed : closed_office ≢ office.committed
unfolding serve close_pool_route with_session require_role get_current_user decode_access_token
    check_role is_allowed find close_pool update_pool commit publish_pool_event
    invalidate_pool_cache replace pool_status admit_pool_update
is_closed e = absurd (status_ne (ap first_status e))
  where
    first_status : Database → Bool
    first_status db = elim db.pools [
      | [] ↦ true
      | p ∷ ps ↦ (elim p.status [ opened ↦ true | closed ↦ false ])
    ]

    status_ne : false ≢ true
    status_ne e = cc

serve-Passes_example :
    (user : User) × Passes stub_crypto (admin ∷ []) (some "amaka") (began office) user
serve-Passes_example =
    serve-Passes stub_crypto stub_platform (some "amaka") (closes_pool 1) office (admin ∷ []) refl
      is_closed

get_order_route-owned_example :
    (user : User) × Passes stub_crypto (buyer ∷ admin ∷ []) (some "ada") (began office) user
    × (find order_key 100 office.committed.orders ≡ some unpaid_yams)
    × ((same_role user.role buyer ≡ false) ⊎ (unpaid_yams.buyer_id ≡ user.id))
unfolding with_session get_order_route order_seen_by get_order require_role get_current_user
    decode_access_token check_role is_allowed find
get_order_route-owned_example =
    get_order_route-owned stub_crypto (some "ada") 100 office unpaid_yams refl

set_user_role_route-admin_left_example :
    let s' = (with_session (set_user_role_route stub_crypto (some "amaka") 31 admin) office).1 in
    (caller : User) × Passes stub_crypto (admin ∷ []) (some "amaka") (began office) caller
    × (left : User) × (find user_key caller.id s'.committed.users ≡ some left)
    × (is_admin left.role ≡ true)
unfolding with_session set_user_role_route user_out set_role_as set_user_role auth_status
    update_user commit require_role get_current_user decode_access_token check_role is_allowed find
set_user_role_route-admin_left_example =
    set_user_role_route-admin_left stub_crypto (some "amaka") 31 admin office (with_role admin dele)
      refl
