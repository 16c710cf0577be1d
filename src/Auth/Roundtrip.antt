-- ===== src/Auth/Roundtrip.antt =====
-- From a registration to a request with the token of a login.
use farm_link.Common.{
  ◌+◌, ◌*◌, ◌≡◌, ap, refl, subst, sym, String, true, Option, some, List, [], ◌∷◌, ◌++◌, find,
  find_key, first, arith, find-replace_self,
}
use farm_link.Schema.{Time, UserRole, User, user_key, has_email}
use farm_link.Session.{State, Result, ok, err, with_session, commit, update_user}
use farm_link.Security.{
  Crypto, Claims, jwt_expire_minutes, hash_password, verify_password, create_access_token,
  is_allowed, require_role,
}
use farm_link.Security.Access.{Names, require_role-Passes}
use farm_link.Auth.{UserRegister, approve, approve_user, authenticate_user, check_credentials}
use farm_link.Auth.Accounts.{Outcome, admit_user-new_email, new_account_found}

-- A session that begins.
abbrev pub began : State → State
began s = record s { working = s.committed }

-- What an approved or unapproved user's token says, at the time of a login.
abbrev pub login_claims : Crypto → User → Time → Claims
login_claims c user now = record {
  sub = some (c.uuid_text user.id);
  role = user.role;
  exp = now + jwt_expire_minutes * 60;
}

-- The token of a login names its user, in every later state where it has not expired and the user
-- exists.
pub create_access_token-Names :
    (c : Crypto) (user : User) (now : Time) (s : State)
    → c.decode s.now (c.encode (login_claims c user now)) ≡ some (login_claims c user now)
    → c.parse_uuid (c.uuid_text user.id) ≡ some user.id
    → find user_key user.id s.working.users ≡ some user
    → Names c (some (create_access_token c user.id user.role now)) s user
unfolding create_access_token
create_access_token-Names c user now s decoded parsed found = record {
  bearer = create_access_token c user.id user.role now;
  claims = login_claims c user now;
  subject = c.uuid_text user.id;
  user_id = user.id;
  given = refl;
  decoded = decoded;
  named = refl;
  parsed = parsed;
  found = found;
}

-- An approval takes effect on the account's next request, with the token it has.
pub approve_user-Passes :
    (c : Crypto) (roles : List UserRole) (token : Option String) (s : State) (user : User)
    → Names c token (began s) user
    → is_allowed user.role roles ≡ true
    → let s' = (with_session (approve_user user.id) s).1 in
      require_role c roles token (began s') ≡ (ok (approve user), began s')
unfolding with_session approve_user update_user commit
approve_user-Passes c roles token s user n role_ok =
    let same_id = find_key user_key n.user_id s.committed.users user n.found in
    let there : find user_key user.id s.committed.users ≡ some user =
      subst (λ k. find user_key k s.committed.users ≡ some user) (sym same_id) n.found in
    require_role-Passes c roles token _ (approve user) (record {
      names = record {
        bearer = n.bearer;
        claims = n.claims;
        subject = n.subject;
        user_id = n.user_id;
        given = n.given;
        decoded = rw there n.decoded;
        named = n.named;
        parsed = n.parsed;
        found = ground (arith, find-replace_self user_key (approve user) s.committed.users user);
      };
      role_allowed = role_ok;
      may_act = refl;
    })

hashed_verifies :
    (c : Crypto) (salt password h : String)
    → c.checkpw password (c.hashpw password salt) ≡ true
    → hash_password c salt password ≡ ok h
    → verify_password c password h ≡ true
unfolding hash_password verify_password
hashed_verifies c salt password h checks hashed = ground arith

pub login_after :
    (c : Crypto) (salt : String) (r : UserRegister) (s : State) (result : Result User) (user : User)
    (s' : State)
    → c.checkpw r.password (c.hashpw r.password salt) ≡ true
    → Outcome c salt r s (result, s'.committed)
    → result ≡ ok user
    → with_session (authenticate_user c r.email r.password) s' ≡ (ok user, began s')
unfolding with_session authenticate_user check_credentials
login_after c salt r s (err e) user s' checks o is_ok = cc
login_after c salt r s (ok made) user s' checks (h, hashed, same, admitted, db) is_ok =
    let known : first (has_email r.email) s'.committed.users ≡ some made = rw db (
      subst (λ m. first (has_email m) (s.committed.users ++ made ∷ []) ≡ some made)
        (ap (λ u. u.email) same)
        (new_account_found made s.committed.users
          (admit_user-new_email s.committed made admitted))) in
    let good : verify_password c r.password made.password_hash ≡ true =
      subst (λ m. verify_password c r.password m ≡ true) (sym (ap (λ u. u.password_hash) same))
        (hashed_verifies c salt r.password h checks hashed) in
    rw (known, good) (ap (λ x. (x, began s')) is_ok)
