-- ===== src/Http/Login.antt =====
-- From a registration to a login, through the routes.
use farm_link.Common.{
  ◌≡◌, sym, refl, subst, String, true, Option, none, some, arith, Option-cases, Bool-cases, inl,
  inr, first,
}
use farm_link.Schema.{User, has_email}
use farm_link.Session.{State, ok, ◌>>=◌, with_session}
use farm_link.Security.{Crypto, create_access_token, verify_password}
use farm_link.Auth.{
  UserRegister, is_valid, parse_register, register_user, authenticate_user, check_credentials,
}
use farm_link.Auth.Accounts.{Outcome, register_user-Outcome}
use farm_link.Auth.Roundtrip.{login_after, began}
use farm_link.Http.Accounts.{register, register_body, user_out, login, auth_status}
use farm_link.Http.Shown.{shown_lem, shown_ok, shown_user, answered}

-- What a registration that is answered has made of a body.
abbrev Makes : Crypto → String → State → User → State → UserRegister → Type 0
Makes c salt s user s' body =
    (made : User) × ((with_session (register_user c salt body) s).0 ≡ ok made)
    × (user.id ≡ made.id)
    × (user.role ≡ made.role)
    × (s' ≡ (with_session (register_user c salt body) s).1)

from_body :
    (c : Crypto) (salt : String) (s : State) (user : User) (o : Option UserRegister)
    → (with_session (register_body c salt o >>= user_out c) s).0 ≡ ok user
    → (body : UserRegister) × (o ≡ some body)
      × Makes c salt s user (with_session (register_body c salt o >>= user_out c) s).1 body
unfolding with_session register_body
from_body c salt s user none is_ok = cc
from_body c salt s user (some body) is_ok =
    let (shows, state) = shown_lem c (register_body c salt (some body)) s in
    let (made, went) = shown_ok c _ _ user shows is_ok in
    let (same_id, same_role) = shown_user c _ _ made user shows went is_ok in
    (body, refl, (made, answered auth_status _ made went, same_id, same_role, state))

parsed_lem :
    (c : Crypto) (input body : UserRegister)
    → parse_register c input ≡ some body
    → (email : String) × (c.validate_email input.email ≡ some email)
      × (body ≡ record input { email = email })
unfolding parse_register
parsed_lem c input body parsed = elim (Option-cases (c.validate_email input.email)) [
  | inl invalid ↦ absurd (ground arith)
  | inr (email, valid) ↦ elim (Bool-cases (is_valid input)) [
    | inl fine ↦ (email, valid, ground arith)
    | inr bad ↦ absurd (ground arith)
  ]
]

login_ok :
    (c : Crypto) (email password : String) (user : User) (s : State)
    → with_session (authenticate_user c email password) s ≡ (ok user, began s)
    → (with_session (login c email password) s).0
      ≡ ok (create_access_token c user.id user.role s.now)
unfolding with_session login authenticate_user check_credentials
login_ok c email password user s known =
    elim (Option-cases (first (has_email email) s.committed.users)) [
      | inl absent ↦ absurd (ground (arith, known))
      | inr (row, there) ↦ elim (Bool-cases (verify_password c password row.password_hash)) [
        | inl right ↦
            let who : row ≡ user = ground (arith, known) in
            subst
              (λ (u : User).
                (with_session (login c email password) s).0
                ≡ ok (create_access_token c u.id u.role s.now))
              who (ground (arith, there, right))
        | inr wrong ↦ absurd (ground (arith, known))
      ]
    ]

-- With the email of a registration that was answered, in the normal form in which it is kept, and the
-- password, a login answers a token for the account, if bcrypt accepts a password against its own
-- hash.
pub register-login :
    (c : Crypto) (salt : String) (input : UserRegister) (s : State) (user : User)
    → c.checkpw input.password (c.hashpw input.password salt) ≡ true
    → (with_session (register c salt input) s).0 ≡ ok user
    → let s' = (with_session (register c salt input) s).1 in
      (email : String) × (c.validate_email input.email ≡ some email)
      × ((with_session (login c email input.password) s').0
          ≡ ok (create_access_token c user.id user.role s'.now))
unfolding register
register-login c salt input s user checks is_ok =
    let (body, parsed, (made, went, same_id, same_role, state)) =
      from_body c salt s user (parse_register c input) is_ok in
    let (email, valid, is_body) = parsed_lem c input body parsed in
    let s' = (with_session (register_body c salt (parse_register c input) >>= user_out c) s).1 in
    let known : with_session (authenticate_user c body.email body.password) s'
        ≡ (ok made, began s') =
      login_after c salt body s _ made s'
        (subst (λ (b : UserRegister). c.checkpw b.password (c.hashpw b.password salt) ≡ true)
          (sym is_body) checks)
        (subst
          (λ (t : State).
            Outcome c salt body s ((with_session (register_user c salt body) s).0, t.committed))
          (sym state) (register_user-Outcome c salt body s))
        went in
    (
      email,
      valid,
      subst
          (λ (b : UserRegister).
            (with_session (login c b.email b.password) s').0
            ≡ ok (create_access_token c user.id user.role s'.now))
          is_body (rw (same_id, same_role) (login_ok c body.email body.password made s' known)),
    )
