-- ===== src/Security/Access.antt =====
-- Whom `require_role` lets through.
use farm_link.Common.{
  ◌≡◌, refl, ◌⊎◌, inl, inr, subst, sym, ◌∙◌, String, true, false, not, ◌&&◌, Option, none, some,
  List, find, Bool-cases, Option-cases,
}
use farm_link.Schema.{Uuid, UserRole, User, is_admin, user_key}
use farm_link.Session.{State, Exn, http_exception, value_error, Result, ok, err, bind_ok, bind_err}
use farm_link.Security.{
  Crypto, Claims, get_current_user, is_allowed, require_role, check_role, decode_access_token,
}

-- The user whom a token names in a state.
pub record Names (c : Crypto) (token : Option String) (s : State) (user : User) : Type 0 where
  pub bearer : String
  pub claims : Claims
  pub subject : String
  pub user_id : Uuid
  pub given : token ≡ some bearer
  pub decoded : c.decode s.now bearer ≡ some claims
  pub named : claims.sub ≡ some subject
  pub parsed : c.parse_uuid subject ≡ some user_id
  pub found : find user_key user_id s.working.users ≡ some user

-- What lets a user through: one of the roles, and an approval, which an admin needs not.
pub record Passes (c : Crypto) (roles : List UserRole) (token : Option String) (s : State)
    (user : User) : Type 0 where
  pub names : Names c token s user
  pub role_allowed : is_allowed user.role roles ≡ true
  pub may_act : (not user.approved && not (is_admin user.role)) ≡ false

abbrev pub Access : Crypto → List UserRole → Option String → State → Result User → Type 0
Access c roles token s (ok user) = Passes c roles token s user
Access c roles token s (err e) =
    (e ≡ http_exception 401) ⊎ (e ≡ http_exception 403) ⊎ (e ≡ value_error)

checked_Access :
    (c : Crypto) (roles : List UserRole) (token : Option String) (s : State) (user : User)
    → Names c token s user
    → let (result, s') = check_role roles user s in Access c roles token s result × (s' ≡ s)
unfolding check_role
checked_Access c roles token s user n = elim (Bool-cases (is_allowed user.role roles)) [
  | inr other ↦ rw other (inr (inl refl), refl)
  | inl role_ok ↦ elim (Bool-cases (not user.approved && not (is_admin user.role))) [
    | inl waiting ↦ rw (role_ok, waiting) (inr (inl refl), refl)
    | inr fine ↦
        rw (role_ok, fine) (record { names = n; role_allowed = role_ok; may_act = fine }, refl)
  ]
]

named_Access :
    (c : Crypto) (roles : List UserRole) (token : Option String) (s : State) (user : User)
    → get_current_user c token s ≡ (ok user, s)
    → Names c token s user
    → let (result, s') = require_role c roles token s in Access c roles token s result × (s' ≡ s)
unfolding require_role
named_Access c roles token s user is_user n =
    subst (λ x. Access c roles token s x.0 × (x.1 ≡ s))
      (sym (bind_ok (get_current_user c token) (check_role roles) s s user is_user))
      (checked_Access c roles token s user n)

unnamed_Access :
    (c : Crypto) (roles : List UserRole) (token : Option String) (s : State) (e : Exn)
    → get_current_user c token s ≡ (err e, s)
    → (e ≡ http_exception 401) ⊎ (e ≡ value_error)
    → let (result, s') = require_role c roles token s in Access c roles token s result × (s' ≡ s)
unfolding require_role
unnamed_Access c roles token s e no_user why =
    subst (λ x. Access c roles token s x.0 × (x.1 ≡ s))
      (sym (bind_err (get_current_user c token) (check_role roles) s s e no_user))
      (elim why [ inl none_named ↦ inl none_named | inr garbled ↦ inr (inr garbled) ], refl)

-- A protected route runs for a caller only if the token it brings decodes now, names a user that
-- exists now, and that user has an allowed role and is approved or an admin. Nothing is changed.
pub require_role-Access :
    (c : Crypto) (roles : List UserRole) (token : Option String) (s : State)
    → let (result, s') = require_role c roles token s in Access c roles token s result × (s' ≡ s)
unfolding get_current_user decode_access_token
require_role-Access c roles none s = unnamed_Access c roles none s _ refl (inl refl)
require_role-Access c roles (some bearer) s = elim (Option-cases (c.decode s.now bearer)) [
  | inl bad ↦ unnamed_Access c roles _ s (http_exception 401) (rw bad refl) (inl refl)
  | inr (claims, decoded) ↦ elim (Option-cases claims.sub) [
    | inl nobody ↦
        unnamed_Access c roles _ s (http_exception 401) (rw (decoded, nobody) refl) (inl refl)
    | inr (subject, named) ↦ elim (Option-cases (c.parse_uuid subject)) [
      | inl garbled ↦
          unnamed_Access c roles _ s value_error (rw (decoded, named, garbled) refl) (inr refl)
      | inr (user_id, parsed) ↦ elim (Option-cases (find user_key user_id s.working.users)) [
        | inl gone ↦
            unnamed_Access c roles _ s (http_exception 401) (rw (decoded, named, parsed, gone) refl)
              (inl refl)
        | inr (user, found) ↦
            named_Access c roles _ s user (rw (decoded, named, parsed, found) refl) (record {
              bearer = bearer;
              claims = claims;
              subject = subject;
              user_id = user_id;
              given = refl;
              decoded = decoded;
              named = named;
              parsed = parsed;
              found = found;
            })
      ]
    ]
  ]
]

Names-user :
    (c : Crypto) (token : Option String) (s : State) (user : User)
    → Names c token s user
    → get_current_user c token s ≡ (ok user, s)
unfolding get_current_user decode_access_token
Names-user c token s user n = rw (n.given, n.decoded, n.named, n.parsed, n.found) refl

-- Whoever has a token that names an existing user with an allowed role, approved or an admin, is let
-- through.
pub require_role-Passes :
    (c : Crypto) (roles : List UserRole) (token : Option String) (s : State) (user : User)
    → Passes c roles token s user
    → require_role c roles token s ≡ (ok user, s)
unfolding require_role check_role
require_role-Passes c roles token s user p =
    bind_ok (get_current_user c token) (check_role roles) s s user
      (Names-user c token s user p.names)
    ∙ rw (p.role_allowed, p.may_act) refl
