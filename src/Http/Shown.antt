-- ===== src/Http/Shown.antt =====
-- What the response model of an account, `UserOut`, makes of a route: it changes no state, and refuses
-- an account whose email is none.
use farm_link.Common.{
  ◌≡◌, inl, inr, ap, sym, ◌∙◌, refl, subst, String, Bool, true, false, none, some, [], ◌∷◌, ◌++◌,
  arith, Option-cases, find, find_key, find-append_none, find-replace_self, ==_iff,
}
use farm_link.Schema.{Uuid, UserRole, User, Database, user_key, admit_user}
use farm_link.Session.{
  State, Exn, response_validation_error, Result, ok, err, Action, raise_if, ◌>>=◌, ◌>>◌,
  with_session, update_user, commit,
}
use farm_link.Security.{Crypto}
use farm_link.Auth.{UserRegister, register_user, approve_user, set_user_role}
use farm_link.Auth.Accounts as Accounts
use farm_link.Auth.Accounts.{register_user-Outcome}
use farm_link.Http.Status.{catching}
use farm_link.Http.Accounts.{user_out}

module _ (c : Crypto) where
  finish : Result User × State → Result User × State
  finish (ok user, s) = user_out c user s
  finish (err e, s) = (err e, s)

  finish_eq :
      (x : Result User × State)
      → (elim x.0 [ ok a ↦ user_out c a x.1 | err e ↦ (err e, x.1) ]) ≡ finish x
  unfolding finish
  finish_eq (ok user, s) = refl
  finish_eq (err e, s) = refl

  -- What a route that shows an account answers, by what it answers without.
  abbrev pub Shows : Result User → Result User → Type 0
  Shows (ok user) (ok shown) =
      (email : String) × (c.validate_email user.email ≡ some email)
      × (shown ≡ record user { email = email })
  Shows (ok user) (err e) = (c.validate_email user.email ≡ none) × (e ≡ response_validation_error)
  Shows (err e) (ok shown) = ⊥
  Shows (err e) (err f) = f ≡ e

  finish-Shows : (x : Result User × State) → Shows x.0 (finish x).0 × ((finish x).1 ≡ x.1)
  unfolding finish user_out
  finish-Shows (err e, s) = (refl, refl)
  finish-Shows (ok user, s) = elim (Option-cases (c.validate_email user.email)) [
    | inl invalid ↦ rw invalid ((invalid, refl), refl)
    | inr (email, valid) ↦ rw valid ((email, valid, refl), refl)
  ]

  pub shown_lem :
      (m : Action User) (s : State)
      → Shows (with_session m s).0 (with_session (m >>= user_out c) s).0
        × ((with_session (m >>= user_out c) s).1 ≡ (with_session m s).1)
  unfolding with_session
  shown_lem m s =
      let x = m (record s { working = s.committed }) in
      let (shows, same) = finish-Shows x in
      rw (finish_eq x) (shows, ap (λ (t : State). record t { working = t.committed }) same)

  pub shown_ok :
      (r shown : Result User) (user : User)
      → Shows r shown
      → shown ≡ ok user
      → (u : User) × (r ≡ ok u)
  shown_ok (ok u) shown user shows is_ok = (u, refl)
  shown_ok (err e) (ok shown) user shows is_ok = absurd shows
  shown_ok (err e) (err f) user shows is_ok = cc

  pub shown_user :
      (r shown : Result User) (u user : User)
      → Shows r shown
      → r ≡ ok u
      → shown ≡ ok user
      → (user.id ≡ u.id) × (user.role ≡ u.role)
  shown_user (ok a) (ok b) u user (email, _, same) is_u is_user =
      let a_u : a ≡ u = cc in
      let b_user : b ≡ user = cc in
      (
        sym (ap (λ x. x.id) b_user) ∙ ap (λ x. x.id) same ∙ ap (λ x. x.id) a_u,
        sym (ap (λ x. x.role) b_user) ∙ ap (λ x. x.role) same ∙ ap (λ x. x.role) a_u,
      )
  shown_user (ok a) (err e) u user shows is_u is_user = cc
  shown_user (err e) shown u user shows is_u is_user = cc

-- A route that answers an account of the database.
abbrev pub Answers : Action User → Type 0
Answers m =
    (s : State) (user : User)
    → (with_session m s).0 ≡ ok user
    → find user_key user.id (with_session m s).1.committed.users ≡ some user

pub answered :
    (f : Exn → Exn) (r : Result User) (user : User)
    → (elim r [ ok a ↦ ok a | err e ↦ err (f e) ]) ≡ ok user
    → r ≡ ok user
answered f (ok a) user is_ok = is_ok
answered f (err e) user is_ok = cc

pub catching-Answers : (f : Exn → Exn) (m : Action User) → Answers m → Answers (catching f m)
unfolding with_session
catching-Answers f m h s user is_ok =
    h s user (answered f (m (record s { working = s.committed })).0 user is_ok)

pub raise_if-Answers :
    (b : Bool) (e : Exn) (m : Action User) → Answers m → Answers (raise_if b e >> m)
unfolding with_session
raise_if-Answers true e m h s user is_ok = cc
raise_if-Answers false e m h s user is_ok = h s user is_ok

pub approve_user-Answers : (user_id : Uuid) → Answers (approve_user user_id)
unfolding with_session approve_user update_user commit
approve_user-Answers user_id s user is_ok =
    elim (Option-cases (find user_key user_id s.committed.users)) [
      | inl absent ↦ absurd (ground arith)
      | inr (old, there) ↦ ground (
        arith,
        find_key user_key user_id s.committed.users old there,
        find-replace_self user_key (record old { approved = true }) s.committed.users old,
      )
    ]

pub set_user_role-Answers :
    (user_id : Uuid) (role : UserRole) → Answers (set_user_role user_id role)
unfolding with_session set_user_role update_user commit
set_user_role-Answers user_id role s user is_ok =
    elim (Option-cases (find user_key user_id s.committed.users)) [
      | inl absent ↦ absurd (ground arith)
      | inr (old, there) ↦ ground (
        arith,
        find_key user_key user_id s.committed.users old there,
        find-replace_self user_key (record old { role = role }) s.committed.users old,
      )
    ]

new_id :
    (db : Database) (user : User)
    → admit_user db user ≡ none
    → find user_key user.id db.users ≡ none
unfolding admit_user
new_id db user admitted = elim (Option-cases (find user_key user.id db.users)) [
  | inl fresh ↦ fresh
  | inr (other, taken) ↦ ground arith
]

registered :
    (c : Crypto) (salt : String) (r : UserRegister) (s : State) (result : Result User)
    (db : Database) (user : User)
    → Accounts.Outcome c salt r s (result, db)
    → result ≡ ok user
    → find user_key user.id db.users ≡ some user
registered c salt r s (err e) db user o is_ok = cc
registered c salt r s (ok made) db user (_, _, _, admitted, same) is_ok =
    let found : find user_key made.id (s.committed.users ++ made ∷ []) ≡ some made =
      find-append_none user_key made.id s.committed.users made (new_id s.committed made admitted)
      ∙ rw ((==_iff made.id made.id).1 refl) refl in
    let who : made ≡ user = cc in
    rw same (subst (λ u. find user_key u.id (s.committed.users ++ made ∷ []) ≡ some u) who found)

pub register_user-Answers :
    (c : Crypto) (salt : String) (r : UserRegister) → Answers (register_user c salt r)
register_user-Answers c salt r s user is_ok =
    registered c salt r s _ _ user (register_user-Outcome c salt r s) is_ok
