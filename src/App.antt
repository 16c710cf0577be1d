-- ===== src/App.antt =====
-- app/main.py: what happens when the process starts and stops, and the middleware about the routes, with
-- app/middleware/request_context.py. Starlette runs first what was added last: the rate limiter,
-- then the request context, then the routes.
pub mod Start
use farm_link.Common.{
  ⊤, ℕ, ◌+◌, Bool, true, false, not, String, str_eq, Option, none, some, List, [], ◌∷◌, ◌++◌,
  if◌then◌else◌,
}
use farm_link.Session.{
  State, Exn, http_exception, Result, ok, err, Action, pure, ◌>>=◌, ◌>>◌, with_session,
}
use farm_link.Security.{Crypto}
use farm_link.Auth.{bootstrap_admin}
use farm_link.RateLimit.{Middleware, Buckets, Verdict, passed, too_many_requests, dispatch}
use farm_link.Config.{Settings}
use farm_link.Worker.{is_set}

-- A job of the scheduler, with its interval in minutes.
pub record ScheduledJob : Type 0 where
  pub id : String
  pub minutes : ℕ

-- What `lifespan` holds for the process.
pub record Process : Type 0 where
  pub scheduled : List ScheduledJob
  pub running : Bool
  pub redis_open : Bool

abbrev pub text_or_empty : Option String → String
text_or_empty none = ""
text_or_empty (some text) = text

-- The first admin, where both settings are there.
unfoldable pub bootstrap : Crypto → String → Settings → Action ⊤
bootstrap c salt settings =
    if is_set settings.admin_bootstrap_email
    then (if is_set settings.admin_bootstrap_password
        then with_session (
            bootstrap_admin c salt (text_or_empty settings.admin_bootstrap_email)
              (text_or_empty settings.admin_bootstrap_password))
        else pure tt)
    else pure tt

unfoldable pub schedule : Settings → Process → Process
schedule settings process = if settings.disable_scheduler then process else record process {
  scheduled =
      process.scheduled
      ++ record { id = "sweep_expired_orders"; minutes = settings.sweep_interval_minutes } ∷ [];
  running = true;
}

-- `lifespan` before its `yield`: an exception of the bootstrap keeps the process from starting.
unfoldable pub start : Crypto → String → Settings → Process → Action Process
start c salt settings process = do bootstrap c salt settings; pure (schedule settings process)

-- `lifespan` after its `yield`
unfoldable pub stop : Process → Process
stop process = record (if process.running then record process { running = false } else process) {
  redis_open = false;
}

-- A response: its status, and the headers that the middleware sets.
pub record Response : Type 0 where
  pub status_code : ℕ
  pub retry_after : Option ℕ
  pub request_id : Option String

-- The lines of the two loggers.
pub data Line : Type 0 where
  unhandled : Exn → (request_id : String) → Line
  answered : (status_code : ℕ) (request_id : String) → Line

-- `request.headers.get("X-Request-ID", str(uuid.uuid4()))`
abbrev pub id_of : Option String → String → String
id_of none generated = generated
id_of (some supplied) generated = supplied

abbrev with_id : String → Response → Response
with_id id response = record response { request_id = some id }

-- FastAPI turns an `HTTPException` into its response, below the middleware. Any other exception
-- reaches the `except` of `RequestContextMiddleware.dispatch`.
abbrev pub plain : ℕ → Response
plain code = record { status_code = code; retry_after = none; request_id = none }

abbrev pub answer : ℕ → Result ⊤ → Result Response
answer success (ok _) = ok (plain success)
answer success (err (http_exception code)) = ok (plain code)
answer success (err e) = err e

abbrev pub finished : String → Result Response → Response × List Line
finished id (ok response) = (with_id id response, answered response.status_code id ∷ [])
finished id (err e) = (with_id id (plain 500), unhandled e id ∷ answered 500 id ∷ [])

-- `RequestContextMiddleware.dispatch`
unfoldable pub request_context :
    Option String → String → ℕ → Action ⊤ → State → Response × List Line × State
request_context supplied generated success call_next s =
    let (result, s') = call_next s in
    let (response, lines) = finished (id_of supplied generated) (answer success result) in
    (response, lines, s')

-- A request: the path, the client's address, and the id that it brings.
pub record HttpRequest : Type 0 where
  pub path : String
  pub client : Option String
  pub x_request_id : Option String

-- The program, seen from outside: the state of the services, the rate limiter's buckets, and the log.
pub record Program : Type 0 where
  pub state : State
  pub buckets : Buckets
  pub log : List Line

abbrev pub on_verdict :
    Verdict → HttpRequest → String → ℕ → Action ⊤ → Buckets → Program → Response × Program
on_verdict (too_many_requests seconds) r generated success route buckets p = (
  record { status_code = 429; retry_after = some seconds; request_id = none },
  record p { buckets = buckets },
)
on_verdict passed r generated success route buckets p =
    let (response, lines, s) = request_context r.x_request_id generated success route p.state in
    (response, record { state = s; buckets = buckets; log = p.log ++ lines })

-- A request through the middleware to its route, which answers `success` if it returns.
unfoldable pub handle :
    Middleware → ℕ → HttpRequest → String → ℕ → Action ⊤ → Program → Response × Program
handle m now r generated success route p =
    let (verdict, buckets) = dispatch m r.path r.client now p.buckets in
    on_verdict verdict r generated success route buckets p

-- `health`
unfoldable pub health : Settings → String × String
health settings = ("ok", settings.environment)
