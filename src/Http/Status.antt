-- ===== src/Http/Status.antt =====
-- How a route runs a service: who may call it, what its body must satisfy, and the status of its
-- response, with the 500 of app/middleware/request_context.py for an exception that no route catches.
use farm_link.Common.{ℕ, String, Bool, not, Option, List}
use farm_link.Schema.{UserRole, User}
use farm_link.Session.{Exn, http_exception, Result, ok, err, Action, ◌>>=◌, ◌>>◌, raise_if}
use farm_link.Security.{Crypto, require_role}

-- `except service.X: raise HTTPException(...)`
abbrev pub catching : {A : Type 0} → (Exn → Exn) → Action A → Action A
catching f m s = let (r, s') = m s in (elim r [ ok a ↦ ok a | err e ↦ err (f e) ], s')

-- A route behind `require_role`, with what its body must satisfy.
abbrev pub guarded :
    {A : Type 0} → Crypto → List UserRole → Bool → Option String → (User → Action A) → Action A
guarded c roles body_ok token f =
    require_role c roles token >>= λ user. raise_if (not body_ok) (http_exception 422) >> f user

-- The status of a response.
unfoldable pub status_code : {A : Type 0} → ℕ → Result A → ℕ
status_code success (ok a) = success
status_code success (err (http_exception code)) = code
status_code success (err e) = 500
