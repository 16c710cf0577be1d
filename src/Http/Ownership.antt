-- ===== src/Http/Ownership.antt =====
-- What a route checks beyond the role of its caller.
use farm_link.Common.{
  ◌≡◌, ◌≢◌, ap, sym, ◌∙◌, subst, inl, inr, ◌⊎◌, String, true, false, Option, some, List, [], ◌∷◌,
  arith, Bool-cases, Option-cases, find, find_key, replace, find-replace_self, find-replace_ne,
  ◌==◌, ==_iff,
}
use farm_link.Schema.{Uuid, UserRole, buyer, admin, User, Order, is_admin, user_key, order_key}
use farm_link.Session.{
  State, Exn, ok, err, Result-cases, Action, raise_if, http_exception, ◌>>◌, bind_ok, bind_err,
  with_session, update_user, commit,
}
use farm_link.Security.{Crypto, require_role, is_allowed, same_role}
use farm_link.Security.Access.{Access, Passes, require_role-Access}
use farm_link.Auth.{with_role, set_user_role}
use farm_link.Orders.{get_order}
use farm_link.Http.Status.{guarded}
use farm_link.Http.Accounts.{set_role_as, set_user_role_route}
use farm_link.Http.Shown.{shown_lem, shown_ok}
use farm_link.Http.Market.{order_seen_by, get_order_route}
use farm_link.Http.Atomic.{began, require_role_eq}

-- A guarded route that answers has run its body for a caller that passes.
pub guarded_ok :
    {A : Type 0} (c : Crypto) (roles : List UserRole) (token : Option String) (f : User → Action A)
    (s : State) (a : A)
    → (with_session (guarded c roles true token f) s).0 ≡ ok a
    → (user : User) × Passes c roles token (began s) user
      × (with_session (guarded c roles true token f) s ≡ with_session (f user) s)
unfolding with_session
guarded_ok c roles token f s a answered =
    let checked = λ (user : User). raise_if false (http_exception 422) >> f user in
    elim (Result-cases (require_role c roles token (began s)).0) [
      | inl (x, refused) ↦
          let raised =
            bind_err (require_role c roles token) checked (began s) (began s) x
              (require_role_eq c roles token (began s) _ refused) in
          absurd (err_ok x a (sym (ap (λ x. x.0) raised) ∙ answered))
      | inr (user, passed) ↦
          let there =
            bind_ok (require_role c roles token) checked (began s) (began s) user
              (require_role_eq c roles token (began s) _ passed) in
          (
            user,
            subst (Access c roles token (began s)) passed
                (require_role-Access c roles token (began s)).0,
            ap (λ x. (x.0, record x.1 { working = x.1.committed })) there,
          )
    ]
  where
    err_ok : {A : Type 0} (x : Exn) (a : A) → err x ≢ ok a
    err_ok x a e = cc

seen_by_owner :
    (order_id : Uuid) (user : User) (s : State) (order : Order)
    → (with_session (order_seen_by order_id user) s).0 ≡ ok order
    → (find order_key order_id s.committed.orders ≡ some order)
      × ((same_role user.role buyer ≡ false) ⊎ (order.buyer_id ≡ user.id))
unfolding with_session order_seen_by get_order
seen_by_owner order_id user s order answered =
    elim (Option-cases (find order_key order_id s.committed.orders)) [
      | inl absent ↦ ground arith
      | inr (found, there) ↦ elim (Bool-cases (same_role user.role buyer)) [
        | inr other ↦ ground arith
        | inl a_buyer ↦ elim (Bool-cases (found.buyer_id == user.id)) [
          | inl own ↦ ground (arith, ==_iff found.buyer_id user.id)
          | inr foreign ↦ ground arith
        ]
      ]
    ]

-- An order is shown only to a caller that passes as a buyer or an admin, and to a buyer only if the
-- buyer placed it.
pub get_order_route-owned :
    (c : Crypto) (token : Option String) (order_id : Uuid) (s : State) (order : Order)
    → (with_session (get_order_route c token order_id) s).0 ≡ ok order
    → (user : User) × Passes c (buyer ∷ admin ∷ []) token (began s) user
      × (find order_key order_id s.committed.orders ≡ some order)
      × ((same_role user.role buyer ≡ false) ⊎ (order.buyer_id ≡ user.id))
unfolding get_order_route
get_order_route-owned c token order_id s order answered =
    let (user, passes, same) =
      guarded_ok c (buyer ∷ admin ∷ []) token (order_seen_by order_id) s order answered in
    let (there, own) = seen_by_owner order_id user s order (sym (ap (λ x. x.0) same) ∙ answered) in
    (user, passes, there, own)

admin_left :
    (user_id : Uuid) (role : UserRole) (caller user : User) (s : State)
    → find user_key caller.id s.committed.users ≡ some caller
    → is_admin caller.role ≡ true
    → (with_session (set_role_as user_id role caller) s).0 ≡ ok user
    → (left : User) × (find user_key caller.id
          (with_session (set_role_as user_id role caller) s).1.committed.users
        ≡ some left)
      × (is_admin left.role ≡ true)
unfolding with_session set_role_as set_user_role update_user commit
admin_left user_id role caller user s there an_admin answered =
    elim (Option-cases (find user_key user_id s.committed.users)) [
      | inl absent ↦ absurd (ground arith)
      | inr (old, found) ↦
          let old_id = find_key user_key user_id s.committed.users old found in
          let after = replace user_key (with_role role old) s.committed.users in
          elim (Bool-cases (user_id == caller.id)) [
            | inr other ↦
                let apart : caller.id ≢ old.id = ground (arith, old_id) in
                let users : (with_session (set_role_as user_id role caller) s).1.committed.users
                    ≡ after =
                  ground arith in
                (
                  caller,
                  rw users (
                      find-replace_ne user_key caller.id (with_role role old) s.committed.users
                        apart
                      ∙ there),
                  an_admin,
                )
            | inl own ↦ elim (Bool-cases (is_admin role)) [
              | inr demoted ↦ absurd (ground arith)
              | inl kept ↦
                  let same_id : old.id ≡ caller.id = ground (arith, old_id) in
                  let old_found : find user_key old.id s.committed.users ≡ some old =
                    subst (λ k. find user_key k s.committed.users ≡ some old) (sym old_id) found in
                  let users : (with_session (set_role_as user_id role caller) s).1.committed.users
                      ≡ after =
                    ground arith in
                  (
                    with_role role old,
                    rw users (
                        subst (λ k. find user_key k after ≡ some (with_role role old)) same_id
                          (find-replace_self user_key (with_role role old) s.committed.users old
                            old_found)),
                    kept,
                  )
            ]
          ]
    ]

allowed_admin : (role : UserRole) → is_allowed role (admin ∷ []) ≡ true → is_admin role ≡ true
unfolding is_allowed
allowed_admin role h = ground arith

-- After a change of role that goes through alone, the caller, who passed as an admin, still is one.
pub set_user_role_route-admin_left :
    (c : Crypto) (token : Option String) (user_id : Uuid) (role : UserRole) (s : State)
    (user : User)
    → (with_session (set_user_role_route c token user_id role) s).0 ≡ ok user
    → let s' = (with_session (set_user_role_route c token user_id role) s).1 in
      (caller : User) × Passes c (admin ∷ []) token (began s) caller
      × (left : User) × (find user_key caller.id s'.committed.users ≡ some left)
      × (is_admin left.role ≡ true)
unfolding set_user_role_route
set_user_role_route-admin_left c token user_id role s user answered =
    let route = guarded c (admin ∷ []) true token (set_role_as user_id role) in
    let (shows, kept) = shown_lem c route s in
    let (u, went) = shown_ok c (with_session route s).0 _ user shows answered in
    let (caller, passes, same) =
      guarded_ok c (admin ∷ []) token (set_role_as user_id role) s u went in
    let n = passes.names in
    let id = find_key user_key n.user_id s.committed.users caller n.found in
    let there : find user_key caller.id s.committed.users ≡ some caller =
      subst (λ k. find user_key k s.committed.users ≡ some caller) (sym id) n.found in
    let (left, found, an_admin) =
      admin_left user_id role caller u s there (allowed_admin caller.role passes.role_allowed)
        (sym (ap (λ x. x.0) same) ∙ went) in
    (
      caller,
      passes,
      left,
      subst (λ t. find user_key caller.id t.committed.users ≡ some left)
          (sym (kept ∙ ap (λ x. x.1) same)) found,
      an_admin,
    )
