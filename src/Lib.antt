-- ===== src/Lib.antt =====
-- FarmLink: farmers pool produce, buyers order from the pools and pay through Paystack, and the
-- revenue of a closed pool is shared out among its farmers.
--
-- The program is a FastAPI service over PostgreSQL and Redis. A request opens a session, calls one
-- function of a feature's service.py and answers; the webhook of Paystack confirms payments, and a
-- timer runs the sweep that gives the stock of unpaid orders back. A pool's row carries what is
-- available: contributions add to it, orders take from it, the sweep gives it back.
--
-- Which file models what (paths from the repository's root):
--   Schema         the rows of app/features/*/models.py over the mixins of app/core/database.py, and
--                  what the tables of alembic/versions refuse: ranges, keys and unique constraints
--   Session        the state that a service function sees and the monad that it runs in: a session
--                  has the database as committed and as its own writes have it (app/core/database.py),
--                  the cache, the queue of app/core/jobs.py and the messages of app/core/realtime.py
--   Cache          app/core/cache.py
--   Pools          app/features/pools/service.py
--   Contributions  app/features/contributions/service.py
--   Orders         app/features/orders/service.py; Orders/Sweep has its sweep
--   Payments       app/features/payments/service.py, and paystack_client.py in Payments/Paystack
--   Payouts        app/features/payouts/service.py; Payouts/Split has the split of the revenue
--   Security       app/core/security.py
--   Auth           app/features/auth/service.py and schemas.py
--   Http           app/features/*/router.py: roles, bodies and status codes, with the 500 of
--                  app/middleware/request_context.py for what no route catches
--   RateLimit      app/middleware/rate_limit.py
--   Migrations     alembic/versions, up and down, and the tables that the models declare
--   Stock          the abstract view: what a pool was given, has, owes and has sold
--   History        requests, deliveries and sweeps one after another
--   Concurrent     transactions side by side, with the row locks of the services and unique keys
--   Config         app/core/config.py
--   Feed           the live stream: subscribe of app/core/realtime.py, app/features/feed/router.py
--   Worker         app/worker.py with the jobs' bodies: tasks.py of app/features/orders and of
--                  app/features/payments, and app/features/feed/firestore_client.py
--   App            app/main.py, and app/middleware/request_context.py
--   Common, Tests  shared helpers, and examples
--
-- An operation is a function of a state into a result and a state. A raise keeps the state it meets,
-- and closing the session drops what was not committed, so that atomicity has to be proved. In all but
-- Concurrent, SELECT FOR UPDATE is a read, and requests run one after the other, each in a session of
-- its own. Concurrent runs transactions side by side: a worker locks the rows of its SELECT FOR
-- UPDATE, keeps what it read, and commits in one step what it has written, which no other transaction
-- can see before. An insert waits while another transaction has an uncommitted row with its unique
-- key: a delivery has its event before it locks its order, a placement inserts its idempotency key
-- under the pool's lock. A distribution of payouts is not among them, since it reads orders and
-- contributions that it does not lock.
--
-- Choices. A UUID is a number, and `uuid4` draws the next of an arbitrary stream: that it does not
-- repeat itself is a hypothesis where it matters, or the primary key refuses the row. Money is in
-- kobo, the unit of Numeric(12, 2); a time is a number of seconds. `scalar_one_or_none` finds the
-- first match of a column that a constraint keeps unique. Rows with the same sort key come in table
-- order. A cache key is a constructor for its text, and a cached value stands for its JSON. Redis does
-- not fail, and has the program's clock; the rate limiter's floating point is taken as exact. The
-- exceptions of several services that share a name share a constructor. Paystack, HMAC, JSON parsing,
-- UUID parsing and the text of a value are the fields of `Platform`, a parameter with no law, and
-- bcrypt, the JWT library and email-validator those of `Crypto`, whose round trips are hypotheses
-- where a login rests on them; JSON numbers are natural. Decimal has 28 digits, which is exact to the
-- kobo for revenues below 10^13 kobo and quantities below 2^31. A migration is a list of statements on
-- a catalogue of tables with their columns, keys, indexes and rows, each refused as PostgreSQL refuses
-- it; between two migrations the rows are any. RQ forks a process for each job, so that a module's
-- globals last for one job. No loop needs fuel: the sweep and the payouts recur on a list.
--
-- Not modelled: a distribution of payouts beside other transactions, readers that fill the cache
-- beside a writer (an entry can then be old until it expires), the JSON of the log lines, the
-- mounting of the routers and the CORS headers, which are FastAPI's, and alembic/env.py, which only
-- calls alembic.
pub mod Common
pub mod Schema
pub mod Cache
pub mod Session
pub mod Pools
pub mod Contributions
pub mod Orders
pub mod Payments
pub mod Payouts
pub mod Security
pub mod Auth
pub mod Http
pub mod RateLimit
pub mod Config
pub mod Migrations
pub mod Stock
pub mod History
pub mod Concurrent
pub mod Feed
pub mod Worker
pub mod App
pub mod Tests
