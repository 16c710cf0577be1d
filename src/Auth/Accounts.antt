-- ===== src/Auth/Accounts.antt =====
-- What registration, approval and a change of role do to the accounts.
use text.Mathlib.TextPositions.{eq_refl}
use farm_link.Common.{
  ◌≡◌, refl, inl, inr, ◌∙◌, String, true, false, none, some, List, [], ◌∷◌, ◌++◌, first, arith,
  Option-cases, first-append_none, first-replace, first_sound,
}
use farm_link.Schema.{admin, User, Database, user_key, has_email, admit_user}
use farm_link.Session.{
  State, Result, ok, err, Result-cases, with_session, commit, uuid4, insert_user, update_user,
}
use farm_link.Security.{Crypto, hash_password}
use farm_link.Auth.{UserRegister, new_user, register_user, promoted, ensure_admin, bootstrap_admin}

-- The account that a registration makes.
abbrev pub account_of : UserRegister → String → State → User
account_of r password_hash s = new_user r.email password_hash r.role false (s.uuids s.drawn) s.now

abbrev pub with_user : User → Database → Database
with_user user db = record db { users = db.users ++ user ∷ [] }

abbrev pub Outcome : Crypto → String → UserRegister → State → Result User × Database → Type 0
Outcome c salt r s (ok user, db) =
    (password_hash : String) × (hash_password c salt r.password ≡ ok password_hash)
    × (user ≡ account_of r password_hash s)
    × (admit_user s.committed user ≡ none)
    × (db ≡ with_user user s.committed)
Outcome c salt r s (err e, db) = db ≡ s.committed

-- A registration adds one account that is not approved yet, with the role asked for and an email that
-- no other account has, or it raises and changes nothing.
pub register_user-Outcome :
    (c : Crypto) (salt : String) (r : UserRegister) (s : State)
    → let (result, s') = with_session (register_user c salt r) s in
      Outcome c salt r s (result, s'.committed)
unfolding with_session register_user uuid4 insert_user commit
register_user-Outcome c salt r s = elim (Result-cases (hash_password c salt r.password)) [
  | inl (e, bad) ↦ rw bad refl
  | inr (h, hashed) ↦ elim (Option-cases (admit_user s.committed (account_of r h s))) [
    | inl fine ↦ rw (hashed, fine) (h, hashed, refl, fine, refl)
    | inr (e, refused) ↦ ground arith
  ]
]

-- An admitted account has a new email, and is found by it.
pub admit_user-new_email :
    (db : Database) (user : User)
    → admit_user db user ≡ none
    → first (has_email user.email) db.users ≡ none
unfolding admit_user
admit_user-new_email db user admitted =
    elim (Option-cases (first (has_email user.email) db.users)) [
      | inl fresh ↦ fresh
      | inr (other, taken) ↦ ground arith
    ]

pub new_account_found :
    (user : User) (users : List User)
    → first (has_email user.email) users ≡ none
    → first (has_email user.email) (users ++ user ∷ []) ≡ some user
unfolding has_email first
new_account_found user users fresh =
    first-append_none (has_email user.email) users (user ∷ []) fresh ∙ rw (eq_refl user.email) refl

-- What a bootstrap has done: its email's account is an approved admin.
abbrev pub HasAdmin : String → Database → Type 0
HasAdmin email db =
    (user : User) × (first (has_email email) db.users ≡ some user)
    × (user.role ≡ admin)
    × (user.approved ≡ true)

-- A bootstrap that goes through leaves an approved admin under its email.
pub bootstrap_admin-HasAdmin :
    (c : Crypto) (salt email password : String) (s : State)
    → (with_session (bootstrap_admin c salt email password) s).0 ≡ ok tt
    → HasAdmin email (with_session (bootstrap_admin c salt email password) s).1.committed
unfolding with_session bootstrap_admin ensure_admin update_user insert_user uuid4 commit has_email
bootstrap_admin-HasAdmin c salt email password s done =
    elim (Option-cases (first (has_email email) s.committed.users)) [
      | inr (user, there) ↦ rw there (
        promoted user,
        first-replace user_key (has_email email) (promoted user) user s.committed.users there refl
            (first_sound (has_email email) s.committed.users user there),
        refl,
        refl,
      )
      | inl absent ↦ elim (Result-cases (hash_password c salt password)) [
        | inl (e, bad) ↦ ground arith
        | inr (h, hashed) ↦
            let user = new_user email h admin true (s.uuids s.drawn) s.now in
            elim (Option-cases (admit_user s.committed user)) [
              | inr (e, refused) ↦ ground arith
              | inl fine ↦
                  let db : (with_session (bootstrap_admin c salt email password) s).1.committed
                      ≡ with_user user s.committed =
                    ground arith in
                  (user, rw db (new_account_found user s.committed.users absent), refl, refl)
            ]
      ]
    ]
