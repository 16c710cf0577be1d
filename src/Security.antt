-- ===== src/Security.antt =====
-- app/core/security.py: passwords, tokens, and the dependencies of every protected route.
pub mod Access
use Prim.Native.String.{len}
use farm_link.Common.{
  ⊤, ℕ, ◌+◌, ◌*◌, String, Bool, true, false, not, ◌&&◌, ◌||◌, Option, none, some, List, [], ◌∷◌,
  ltb, if◌then◌else◌, find,
}
use farm_link.Schema.{Uuid, Time, UserRole, farmer, buyer, admin, User, is_admin, user_key}
use farm_link.Session.{
  State, value_error, http_exception, Result, ok, err, Action, pure, raise, gets, ◌>>=◌, ◌>>◌,
  raise_if, or_raise,
}

-- The payload of a token: `sub`, `role` and `exp`.
pub record Claims : Type 0 where
  pub sub : Option String
  pub role : UserRole
  pub exp : Time

-- What the repository does not hold: bcrypt, `jose.jwt` under the settings' secret, UUIDs' text, and
-- email-validator.
pub record Crypto : Type 0 where
  -- `bcrypt.hashpw` of a password and what `gensalt` returned, `bcrypt.checkpw`
  pub hashpw : String → String → String
  pub checkpw : String → String → Bool
  -- `jwt.encode`; `jwt.decode` at a time, where `none` is a `JWTError`
  pub encode : Claims → String
  pub decode : Time → String → Option Claims
  pub uuid_text : Uuid → String
  pub parse_uuid : String → Option Uuid
  -- `validate_email`, as `EmailStr` has it: the address in its normal form, or `none`
  pub validate_email : String → Option String

abbrev pub bcrypt_max_bytes : ℕ
bcrypt_max_bytes = 72

unfoldable pub hash_password : Crypto → String → String → Result String
hash_password c salt password =
    if ltb bcrypt_max_bytes (len password) then err value_error else ok (c.hashpw password salt)

unfoldable pub verify_password : Crypto → String → String → Bool
verify_password c password password_hash =
    if ltb bcrypt_max_bytes (len password) then false else c.checkpw password password_hash

-- `Settings.jwt_expire_minutes`
abbrev pub jwt_expire_minutes : ℕ
jwt_expire_minutes = 60 * 24

unfoldable pub create_access_token : Crypto → Uuid → UserRole → Time → String
create_access_token c user_id role now =
    c.encode (record {
      sub = some (c.uuid_text user_id);
      role = role;
      exp = now + jwt_expire_minutes * 60;
    })

unfoldable pub decode_access_token : Crypto → Time → String → Option Claims
decode_access_token c now token = c.decode now token

abbrev credentials_error : ℕ
credentials_error = 401

-- `payload.get("sub")`, where a token that does not decode and one without it are alike.
abbrev subject_of : Option Claims → Option String
subject_of none = none
subject_of (some claims) = claims.sub

-- `get_current_user`: `none` is a request without a bearer token, which `OAuth2PasswordBearer`
-- refuses.
unfoldable pub get_current_user : Crypto → Option String → Action User
unfolding decode_access_token
get_current_user c none = raise (http_exception credentials_error)
get_current_user c (some token) = do
  now ← gets (λ s. s.now)
  subject ←
      or_raise (subject_of (decode_access_token c now token)) (http_exception credentials_error)
  user_id ← or_raise (c.parse_uuid subject) value_error
  row ← gets (λ s. find user_key user_id s.working.users)
  or_raise row (http_exception credentials_error)

abbrev pub same_role : UserRole → UserRole → Bool
same_role farmer farmer = true
same_role buyer buyer = true
same_role admin admin = true
same_role _ _ = false

-- `user.role in allowed_roles`
unfoldable pub is_allowed : UserRole → List UserRole → Bool
is_allowed role [] = false
is_allowed role (r ∷ roles) = same_role role r || is_allowed role roles

-- The checks of `require_role` on the user.
unfoldable pub check_role : List UserRole → User → Action User
check_role allowed_roles user = do
  raise_if (not (is_allowed user.role allowed_roles)) (http_exception 403)
  raise_if (not user.approved && not (is_admin user.role)) (http_exception 403)
  pure user

unfoldable pub require_role : Crypto → List UserRole → Option String → Action User
require_role c allowed_roles token = get_current_user c token >>= check_role allowed_roles
