-- ===== src/Http/Atomic.antt =====
-- A response that is an error has committed nothing.
use farm_link.Common.{
  ℕ, ◌≡◌, ◌≤◌, refl, ap, sym, ◌∙◌, inl, inr, String, Bool, true, false, not, Option, List, arith,
  Bool-cases, Option-cases, find,
}
use farm_link.Schema.{Uuid, UserRole, User, user_key}
use farm_link.Session.{
  State, Exn, http_exception, Result, ok, err, Result-cases, Action, raise_if, ◌>>◌, bind_ok,
  bind_err, with_session, update_user, commit,
}
use farm_link.Security.{Crypto, require_role}
use farm_link.Security.Access.{require_role-Access}
use farm_link.Auth.{approve_user, set_user_role}
use farm_link.Http.Status.{catching, guarded, status_code}

-- What raises in a session of its own leaves the committed database as it was.
abbrev pub Atomic : {A : Type 0} → Action A → Type 0
Atomic m =
    (s : State) (e : Exn)
    → (with_session m s).0 ≡ err e
    → (with_session m s).1.committed ≡ s.committed

abbrev pub began : State → State
began s = record s { working = s.committed }

pub require_role_eq :
    (c : Crypto) (roles : List UserRole) (token : Option String) (s : State) (r : Result User)
    → (require_role c roles token s).0 ≡ r
    → require_role c roles token s ≡ (r, s)
require_role_eq c roles token s r is_r =
    let (_, same) = require_role-Access c roles token s in λ i. (is_r i, same i)

module _ {A : Type 0} where
  caught :
      (f : Exn → Exn) (r : Result A) (e : Exn)
      → elim r [ ok a ↦ ok a | err x ↦ err (f x) ] ≡ err e
      → (x : Exn) × (r ≡ err x)
  caught f (ok a) e raised = cc
  caught f (err x) e raised = (x, refl)

  pub catching-Atomic : (f : Exn → Exn) (m : Action A) → Atomic m → Atomic (catching f m)
  unfolding with_session
  catching-Atomic f m h s e raised = let (x, why) = caught f (m (began s)).0 e raised in h s x why

  pub guarded-Atomic :
      (c : Crypto) (roles : List UserRole) (body_ok : Bool) (token : Option String)
      (f : User → Action A)
      → ((user : User) → Atomic (f user))
      → Atomic (guarded c roles body_ok token f)
  unfolding with_session
  guarded-Atomic c roles body_ok token f h s e raised =
      let checked = λ (user : User). raise_if (not body_ok) (http_exception 422) >> f user in
      elim (Result-cases (require_role c roles token (began s)).0) [
        | inl (x, refused) ↦
            ap (λ x. x.1.committed)
              (bind_err (require_role c roles token) checked (began s) (began s) x
                (require_role_eq c roles token (began s) _ refused))
        | inr (user, passed) ↦
            let there =
              bind_ok (require_role c roles token) checked (began s) (began s) user
                (require_role_eq c roles token (began s) _ passed) in
            elim (Bool-cases body_ok) [
              | inr bad ↦
                  let refused : checked user (began s) ≡ (err (http_exception 422), began s) =
                    rw bad refl in
                  ap (λ x. x.1.committed) (there ∙ refused)
              | inl good ↦
                  let run : checked user (began s) ≡ f user (began s) = rw good refl in
                  ap (λ x. x.1.committed) (there ∙ run)
                  ∙ h user s e (sym (ap (λ x. x.0) (there ∙ run)) ∙ raised)
            ]
      ]

  pub raise_if-Atomic : (b : Bool) (e : Exn) (m : Action A) → Atomic m → Atomic (raise_if b e >> m)
  unfolding with_session
  raise_if-Atomic true e m h s x raised = refl
  raise_if-Atomic false e m h s x raised = h s x raised

  -- A route's status is an error only where it raised.
  pub error_raised :
      (success : ℕ) (r : Result A)
      → success ≤ 399
      → 400 ≤ status_code success r
      → (e : Exn) × (r ≡ err e)
  unfolding status_code
  error_raised success (ok a) low high = absurd (omega arith)
  error_raised success (err e) low high = (e, refl)

pub approve_user-Atomic : (user_id : Uuid) → Atomic (approve_user user_id)
unfolding with_session approve_user update_user commit
approve_user-Atomic user_id s e raised =
    elim (Option-cases (find user_key user_id s.committed.users)) [
      | inl absent ↦ ground arith
      | inr (user, there) ↦ ground arith
    ]

pub set_user_role-Atomic : (user_id : Uuid) (role : UserRole) → Atomic (set_user_role user_id role)
unfolding with_session set_user_role update_user commit
set_user_role-Atomic user_id role s e raised =
    elim (Option-cases (find user_key user_id s.committed.users)) [
      | inl absent ↦ ground arith
      | inr (user, there) ↦ ground arith
    ]
