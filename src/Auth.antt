-- ===== src/Auth.antt =====
-- app/features/auth/service.py: accounts, their approval and their roles.
pub mod Roundtrip
pub mod Accounts
use Prim.Native.String.{count}
use farm_link.Common.{
  ⊤, ℕ, ◌≡◌, String, Bool, true, false, not, ◌&&◌, Option, none, some, List, [], ◌∷◌, leb,
  if◌then◌else◌, first, find, select, sort, ascending,
}
use farm_link.Schema.{
  Uuid, Time, UserRole, admin, User, is_admin, user_key, has_email, integrity_error, data_error,
}
use farm_link.Session.{
  State, Exn, email_already_registered, invalid_credentials, user_not_found, database, Result, ok,
  err, Action, pure, raise, gets, ◌>>=◌, ◌>>◌, branch, attempt, abort, or_raise, commit, uuid4,
  insert_user, update_user,
}
use farm_link.Security.{Crypto, hash_password, verify_password, same_role}

-- A registration. `is_valid` is what its password and `no_self_serve_admin` ask; `parse_register` has
-- the email by `EmailStr` as well, and puts it in its normal form.
pub record UserRegister : Type 0 where
  pub email : String
  pub password : String
  pub role : UserRole

unfoldable pub is_valid : UserRegister → Bool
is_valid r = leb 8 (count r.password) && leb (count r.password) 72 && not (is_admin r.role)

unfoldable pub parse_register : Crypto → UserRegister → Option UserRegister
parse_register c input = elim (c.validate_email input.email) [
  | none ↦ none
  | some email ↦ if is_valid input then some (record input { email = email }) else none
]

abbrev pub lift : {A : Type 0} → Result A → Action A
lift r s = (r, s)

abbrev pub new_user : String → String → UserRole → Bool → Uuid → Time → User
new_user email password_hash role approved id now = record {
  id = id;
  email = email;
  password_hash = password_hash;
  role = role;
  approved = approved;
  created_at = now;
}

-- After the flush: the commit, or the handler of an `IntegrityError`.
abbrev settle_registration : Result ⊤ → User → Action User
settle_registration (ok _) user = do commit; pure user
settle_registration (err (database integrity_error)) user = abort email_already_registered
settle_registration (err (database data_error)) user = raise (database data_error)
settle_registration (err e) user = raise e

-- `register_user`, where `salt` is what `gensalt` returns.
unfoldable pub register_user : Crypto → String → UserRegister → Action User
register_user c salt input = do
  password_hash ← lift (hash_password c salt input.password)
  id ← uuid4
  now ← gets (λ s. s.now)
  let user = new_user input.email password_hash input.role false id now
  flushed ← attempt (insert_user user)
  settle_registration flushed user

-- An absent user and a wrong password are refused alike.
unfoldable pub check_credentials : Crypto → Option User → String → Action User
check_credentials c none password = raise invalid_credentials
check_credentials c (some user) password =
    branch (not (verify_password c password user.password_hash)) (raise invalid_credentials)
      (pure user)

abbrev select_by_email : String → Action (Option User)
select_by_email email = gets (λ s. first (has_email email) s.working.users)

unfoldable pub authenticate_user : Crypto → String → String → Action User
unfolding check_credentials
authenticate_user c email password = do
  row ← select_by_email email
  check_credentials c row password

abbrev is_pending_user : Option UserRole → User → Bool
is_pending_user none u = not u.approved
is_pending_user (some role) u = not u.approved && same_role u.role role

unfoldable pub get_pending_users : Option UserRole → Action (List User)
get_pending_users role =
    gets λ s. sort (ascending (λ u. u.created_at)) (select (is_pending_user role) s.working.users)

abbrev pub approve : User → User
approve user = record user { approved = true }

unfoldable pub approve_user : Uuid → Action User
approve_user user_id = do
  row ← gets (λ s. find user_key user_id s.working.users)
  user ← or_raise row user_not_found
  update_user (approve user)
  commit
  pure (approve user)

abbrev pub with_role : UserRole → User → User
with_role role user = record user { role = role }

unfoldable pub set_user_role : Uuid → UserRole → Action User
set_user_role user_id role = do
  row ← gets (λ s. find user_key user_id s.working.users)
  user ← or_raise row user_not_found
  update_user (with_role role user)
  commit
  pure (with_role role user)

abbrev pub promoted : User → User
promoted user = record user { role = admin; approved = true }

-- The first admin: created, or promoted if the email is registered.
unfoldable pub ensure_admin : Crypto → String → String → String → Option User → Action ⊤
ensure_admin c salt email password none = do
  password_hash ← lift (hash_password c salt password)
  id ← uuid4
  now ← gets (λ s. s.now)
  insert_user (new_user email password_hash admin true id now)
  commit
ensure_admin c salt email password (some user) = do update_user (promoted user); commit

unfoldable pub bootstrap_admin : Crypto → String → String → String → Action ⊤
bootstrap_admin c salt email password = do
  row ← select_by_email email
  ensure_admin c salt email password row
