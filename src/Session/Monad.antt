-- ===== src/Session/Monad.antt =====
-- A service function: state and exceptions. A raise keeps the state that it meets, so that what
-- was written but not rolled back is still there, and atomicity has to be proved.
use farm_link.Common.{⊤, ◌≡◌, refl, ap, ◌∙◌, ◌⊎◌, inl, inr, Bool, Option, none, some, if◌then◌else◌}
use farm_link.Schema.{DbError}
use farm_link.Session.Types.{State, Exn, database, Result, ok, err}

abbrev pub Action {ℓ} : Type ℓ → Type ℓ
Action A = State → Result A × State

module _ {A : Type 0} where
  abbrev pub pure : A → Action A
  pure a s = (ok a, s)

  abbrev pub raise : Exn → Action A
  raise e s = (err e, s)

  abbrev pub gets : (State → A) → Action A
  gets f s = (ok (f s), s)

infixl 5 ◌>>=◌ ◌>>◌
abbrev pub ◌>>=◌ : {A B : Type 0} → Action A → (A → Action B) → Action B
◌>>=◌ m f s = let (r, s') = m s in elim r [ ok a ↦ f a s' | err e ↦ (err e, s') ]

abbrev pub ◌>>◌ : {A B : Type 0} → Action A → Action B → Action B
m >> k = m >>= λ _. k

abbrev pub modify : (State → State) → Action ⊤
modify f s = (ok tt, f s)

-- `try`: what was raised, as a value.
abbrev pub attempt : {A : Type 0} → Action A → Action (Result A)
attempt m s = let (r, s') = m s in (ok r, s')

-- `if b: m else: k`
abbrev pub branch : {A : Type 0} → Bool → Action A → Action A → Action A
branch b m k s = if b then m s else k s

-- `await db.commit()` and `await db.rollback()`
unfoldable pub commit : Action ⊤
commit s = (ok tt, record s { committed = s.working })

unfoldable pub rollback : Action ⊤
rollback s = (ok tt, record s { working = s.committed })

-- `await db.rollback()` before a `raise`
abbrev pub abort : {A : Type 0} → Exn → Action A
abort e s = (err e, record s { working = s.committed })

abbrev pub abort_if : Bool → Exn → Action ⊤
abort_if c e s = if c then (err e, record s { working = s.committed }) else (ok tt, s)

-- `scalar_one_or_none()`, with the rollback and the raise on `None`
abbrev pub or_abort : {A : Type 0} → Option A → Exn → Action A
or_abort none e = abort e
or_abort (some a) e = pure a

abbrev pub or_raise : {A : Type 0} → Option A → Exn → Action A
or_raise none e = raise e
or_raise (some a) e = pure a

abbrev pub raise_if : Bool → Exn → Action ⊤
raise_if c e s = (if c then err e else ok tt, s)

-- A statement that the database checks first.
abbrev pub admitted : Option DbError → Action ⊤
admitted none = pure tt
admitted (some e) = raise (database e)

-- `async with AsyncSessionLocal() as db` and `get_db`: a session begins at what is committed, and
-- what it has not committed is gone when it closes, also after an exception.
unfoldable pub with_session : {A : Type 0} → Action A → Action A
with_session m s =
    let (r, s') = m (record s { working = s.committed }) in
    (r, record s' { working = s'.committed })

-- To split on a result and keep the equation.
pub Result-cases {ℓ} :
    {A : Type ℓ} (r : Result A) → ((e : Exn) × (r ≡ err e)) ⊎ ((a : A) × (r ≡ ok a))
Result-cases (err e) = inl (e, refl)
Result-cases (ok a) = inr (a, refl)

-- A step that is known to return, or to raise.
module _ {A B : Type 0} (m : Action A) (f : A → Action B) (s s' : State) where
  next : Result A × State → Result B × State
  next (ok a, t) = f a t
  next (err e, t) = (err e, t)

  next_eq : (x : Result A × State) → (elim x.0 [ ok a ↦ f a x.1 | err e ↦ (err e, x.1) ]) ≡ next x
  unfolding next
  next_eq (ok a, t) = refl
  next_eq (err e, t) = refl

  pub bind_ok : (a : A) → m s ≡ (ok a, s') → (m >>= f) s ≡ f a s'
  unfolding next
  bind_ok a is_ok = next_eq (m s) ∙ ap next is_ok

  pub bind_err : (e : Exn) → m s ≡ (err e, s') → (m >>= f) s ≡ (err e, s')
  unfolding next
  bind_err e is_err = next_eq (m s) ∙ ap next is_err
