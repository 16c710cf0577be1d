-- ===== src/Http/Accounts.antt =====
-- app/features/auth/router.py.
use farm_link.Common.{String, true, not, ◌&&◌, Option, none, some, List, [], ◌∷◌, ◌==◌}
use farm_link.Schema.{Uuid, UserRole, admin, User, is_admin}
use farm_link.Session.{
  Exn, email_already_registered, invalid_credentials, user_not_found, http_exception, Action, pure,
  gets, ◌>>=◌, ◌>>◌, raise_if, raise, or_raise, response_validation_error,
}
use farm_link.Security.{Crypto, create_access_token, get_current_user}
use farm_link.Auth.{
  UserRegister, parse_register, register_user, authenticate_user, get_pending_users, approve_user,
  set_user_role,
}
use farm_link.Http.Status.{catching, guarded}

unfoldable pub auth_status : Exn → Exn
auth_status email_already_registered = http_exception 409
auth_status invalid_credentials = http_exception 401
auth_status user_not_found = http_exception 404
auth_status e = e

-- `response_model=UserOut`, whose email is an `EmailStr` too: what FastAPI makes of the account that a
-- route returns, once the route has run.
unfoldable pub user_out : Crypto → User → Action User
user_out c user = do
  email ← or_raise (c.validate_email user.email) response_validation_error
  pure (record user { email = email })

unfoldable pub users_out : Crypto → List User → Action (List User)
users_out c [] = pure []
users_out c (user ∷ users) =
    user_out c user >>= λ shown. users_out c users >>= λ rest. pure (shown ∷ rest)

-- The route past the validation of its body.
unfoldable pub register_body : Crypto → String → Option UserRegister → Action User
unfolding auth_status
register_body c salt none = raise (http_exception 422)
register_body c salt (some input) = catching auth_status (register_user c salt input)

unfoldable pub register : Crypto → String → UserRegister → Action User
register c salt input = register_body c salt (parse_register c input) >>= user_out c

unfoldable pub login : Crypto → String → String → Action String
unfolding auth_status
login c username password = do
  user ← catching auth_status (authenticate_user c username password)
  now ← gets (λ s. s.now)
  pure (create_access_token c user.id user.role now)

unfoldable pub read_current_user : Crypto → Option String → Action User
read_current_user c token = get_current_user c token >>= user_out c

unfoldable pub list_pending_users : Crypto → Option String → Option UserRole → Action (List User)
list_pending_users c token role =
    guarded c (admin ∷ []) true token (λ _. get_pending_users role) >>= users_out c

unfoldable pub approve_user_route : Crypto → Option String → Uuid → Action User
unfolding auth_status
approve_user_route c token user_id =
    guarded c (admin ∷ []) true token (λ _. catching auth_status (approve_user user_id))
    >>= user_out c

-- An admin cannot take the role from itself.
unfoldable pub set_role_as : Uuid → UserRole → User → Action User
unfolding auth_status
set_role_as user_id role caller =
    raise_if (user_id == caller.id && not (is_admin role)) (http_exception 400)
    >> catching auth_status (set_user_role user_id role)

unfoldable pub set_user_role_route : Crypto → Option String → Uuid → UserRole → Action User
set_user_role_route c token user_id role =
    guarded c (admin ∷ []) true token (set_role_as user_id role) >>= user_out c
