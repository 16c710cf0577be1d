-- ===== src/Worker/Unconfigured.antt =====
-- Without a Firestore project: every job that has an event says so, and goes on.
use farm_link.Common.{
  suc, length, length-map, map, ap, ℕ, ◌+◌, ◌≡◌, refl, sym, subst, Bool, true, false, List, [], ◌∷◌,
  ◌++◌, arith,
}
use farm_link.Schema.{Uuid, Time}
use farm_link.Session.{
  State, FeedEvent, Job, write_pool_feed_event, send_order_confirmation_email,
  notify_admin_of_new_order, send_payment_confirmation_email,
}
use farm_link.Payments.Paystack.{Platform}
use farm_link.History.{Request, run}
use farm_link.History.Effects.{feed_jobs}
use farm_link.History.Mirror.{sent, run-IsMirrored}
use farm_link.Worker.{
  FirestoreSettings, Sdk, Line, order_confirmed, new_order, payment_received,
  firestore_unconfigured, Worker, is_set, get_client, write_event, run_job, kept_if_failed, forked,
  say, work, new_worker,
}

-- How often the log says that Firestore is not set up.
unfoldable pub warnings : List Line → ℕ
warnings [] = 0
warnings (firestore_unconfigured ∷ lines) = 1 + warnings lines
warnings (order_confirmed buyer_email order_id qty total ∷ lines) = warnings lines
warnings (new_order order_id pool_id buyer_email qty ∷ lines) = warnings lines
warnings (payment_received buyer_email order_id amount ∷ lines) = warnings lines

warnings-append : (xs ys : List Line) → warnings (xs ++ ys) ≡ warnings xs + warnings ys
unfolding warnings
warnings-append [] ys = omega arith
warnings-append (firestore_unconfigured ∷ xs) ys = omega (arith, warnings-append xs ys)
warnings-append (order_confirmed buyer_email order_id qty total ∷ xs) ys = warnings-append xs ys
warnings-append (new_order order_id pool_id buyer_email qty ∷ xs) ys = warnings-append xs ys
warnings-append (payment_received buyer_email order_id amount ∷ xs) ys = warnings-append xs ys

module _ (settings : FirestoreSettings) (sdk : Sdk) where
  abbrev Warns : List Job → Worker → Worker → Type 0
  Warns jobs w w' =
      (w'.documents ≡ w.documents)
      × (w'.failed ≡ w.failed)
      × (warnings w'.log ≡ warnings w.log + length (feed_jobs jobs))

  -- A process that has said it.
  abbrev told : Worker → Worker
  told w = record w { warned_unconfigured = true; log = w.log ++ firestore_unconfigured ∷ [] }

  write_event-tells :
      (now : Time) (pool_id : Uuid) (event : FeedEvent) (w : Worker)
      → is_set settings.firestore_project_id ≡ false
      → write_event settings sdk now pool_id event (forked w) ≡ (true, told (forked w))
  unfolding write_event get_client
  write_event-tells now pool_id event w off = ground arith

  told-Warns :
      (job : Job) (jobs : List Job) (w w' : Worker)
      → length (feed_jobs (job ∷ jobs)) ≡ suc (length (feed_jobs jobs))
      → Warns jobs (told (forked w)) w'
      → Warns (job ∷ jobs) w w'
  unfolding warnings
  told-Warns job jobs w w' event (docs, fails, count) = (
    docs,
    fails,
    omega (arith, count, event, warnings-append w.log (firestore_unconfigured ∷ [])),
  )

  say-Warns :
      (jobs : List Job) (line : Line) (w w' : Worker)
      → warnings (line ∷ []) ≡ 0
      → Warns jobs (say line (forked w)) w'
      → Warns jobs w w'
  say-Warns jobs line w w' plain (docs, fails, count) =
      (docs, fails, omega (arith, count, plain, warnings-append w.log (line ∷ [])))

  work-Warns :
      (clock : ℕ → Time) (i : ℕ) (jobs : List Job) (w : Worker)
      → is_set settings.firestore_project_id ≡ false
      → Warns jobs w (work settings sdk clock i jobs w)
  unfolding work feed_jobs run_job warnings write_event get_client
  work-Warns clock i [] w off = (refl, refl, omega arith)
  work-Warns clock i (send_order_confirmation_email buyer_email order_id qty total ∷ jobs) w off =
      say-Warns jobs (order_confirmed buyer_email order_id qty total) w
        (work settings sdk clock (i + 1) jobs
          (say (order_confirmed buyer_email order_id qty total) (forked w)))
        refl (work-Warns clock (i + 1) jobs _ off)
  work-Warns clock i (notify_admin_of_new_order order_id pool_id buyer_email qty ∷ jobs) w off =
      say-Warns jobs (new_order order_id pool_id buyer_email qty) w
        (work settings sdk clock (i + 1) jobs
          (say (new_order order_id pool_id buyer_email qty) (forked w)))
        refl (work-Warns clock (i + 1) jobs _ off)
  work-Warns clock i (send_payment_confirmation_email buyer_email order_id amount ∷ jobs) w off =
      say-Warns jobs (payment_received buyer_email order_id amount) w
        (work settings sdk clock (i + 1) jobs
          (say (payment_received buyer_email order_id amount) (forked w)))
        refl (work-Warns clock (i + 1) jobs _ off)
  work-Warns clock i (write_pool_feed_event pool_id event ∷ jobs) w off =
      subst (after) (sym (write_event-tells (clock i) pool_id event w off)) (
        told-Warns (write_pool_feed_event pool_id event) jobs w
          (work settings sdk clock (i + 1) jobs (told (forked w))) refl
          (work-Warns clock (i + 1) jobs (told (forked w)) off))
    where
      after : Bool × Worker → Type 0
      after x = Warns (write_pool_feed_event pool_id event ∷ jobs) w (
          work settings sdk clock (i + 1) jobs
            (kept_if_failed (write_pool_feed_event pool_id event) x))

  -- Without a project, the worker that runs the queue of any history writes no document and no job
  -- fails; every event of the live feeds has its warning in the log, since each job has a process of
  -- its own.
  pub work-unconfigured :
      (p : Platform) (rs : List Request) (s : State) (clock : ℕ → Time)
      → is_set settings.firestore_project_id ≡ false
      → s.jobs ≡ []
      → s.feed ≡ []
      → let t = run p rs s in
        let w = work settings sdk clock 0 t.jobs new_worker in
        (w.documents ≡ []) × (w.failed ≡ []) × (warnings w.log ≡ length t.feed)
  unfolding warnings feed_jobs
  work-unconfigured p rs s clock off no_jobs no_feed =
      let t = run p rs s in
      let (docs, fails, count) = work-Warns clock 0 t.jobs new_worker off in
      let start : feed_jobs s.jobs ≡ map sent s.feed = rw (no_jobs, no_feed) refl in
      (
        docs,
        fails,
        omega (arith, count, ap length (run-IsMirrored p rs s start), length-map sent t.feed),
      )
