-- ===== src/Worker/Copies.antt =====
-- What the worker leaves behind of the events in its queue.
use farm_link.Common.{
  ℕ, ◌+◌, ◌≡◌, refl, ap, sym, subst, ◌∙◌, Bool, true, false, Option, none, some, List, [], ◌∷◌,
  ◌++◌, map,
}
use mathlib.Core.List.{map-append, append-nil, append_assoc}
use farm_link.Schema.{Uuid, Time}
use farm_link.Session.{
  State, FeedEvent, Job, write_pool_feed_event, send_order_confirmation_email,
  notify_admin_of_new_order, send_payment_confirmation_email,
}
use farm_link.Payments.Paystack.{Platform}
use farm_link.History.{Request, run}
use farm_link.History.Effects.{feed_jobs}
use farm_link.History.Mirror.{sent, run-IsMirrored}
use farm_link.Worker.{
  FirestoreSettings, Client, Document, Sdk, Worker, is_set, client_of, get_client, write_event,
  run_job, kept_if_failed, forked, work, new_worker,
}

abbrev pub copied : Document → Uuid × FeedEvent
copied d = (d.pool_id, d.event)

-- A project is set, and Google takes everything.
pub record IsServed (settings : FirestoreSettings) (sdk : Sdk) : Type 0 where
  pub has_project : is_set settings.firestore_project_id ≡ true
  pub connects : (c : Client) → sdk.connects c ≡ true
  pub takes : (c : Client) (d : Document) → sdk.takes c d ≡ true

kept_eq : (job : Job) (x : Bool × Worker) → x.0 ≡ true → kept_if_failed job x ≡ x.1
kept_eq job (true, w) went = refl
kept_eq job (false, w) went = cc

module _ (settings : FirestoreSettings) (sdk : Sdk) where
  -- One document more, and no failure.
  abbrev Writes : Uuid → FeedEvent → Time → Worker → Bool × Worker → Type 0
  Writes pool_id event now w (went, w') =
      (went ≡ true)
      × (w'.documents
          ≡ w.documents ++ record { pool_id = pool_id; event = event; created_at = now } ∷ [])
      × (w'.failed ≡ w.failed)

  write_event-Writes :
      (now : Time) (pool_id : Uuid) (event : FeedEvent) (w : Worker)
      → IsServed settings sdk
      → Writes pool_id event now w (write_event settings sdk now pool_id event w)
  unfolding write_event get_client
  write_event-Writes now pool_id event w served = with_client w.client refl
    where
      document : Document
      document = record { pool_id = pool_id; event = event; created_at = now }

      with_client :
          (c : Option Client)
          → w.client ≡ c
          → Writes pool_id event now w (write_event settings sdk now pool_id event w)
      with_client none fresh =
          rw
            (
              served.has_project,
              fresh,
              served.connects (client_of settings),
              served.takes (client_of settings) document,
            )
            (refl, refl, refl)
      with_client (some c) made =
          rw (served.has_project, made, served.takes c document) (refl, refl, refl)

  abbrev Copies : List Job → Worker → Worker → Type 0
  Copies jobs w w' =
      (map copied w'.documents ≡ map copied w.documents ++ feed_jobs jobs) × (w'.failed ≡ w.failed)

  work-Copies :
      (clock : ℕ → Time) (i : ℕ) (jobs : List Job) (w : Worker)
      → IsServed settings sdk
      → Copies jobs w (work settings sdk clock i jobs w)
  unfolding work feed_jobs run_job
  work-Copies clock i [] w served = (sym (append-nil _), refl)
  work-Copies clock i (send_order_confirmation_email buyer_email order_id qty total ∷ jobs) w
        served =
      work-Copies clock (i + 1) jobs _ served
  work-Copies clock i (notify_admin_of_new_order order_id pool_id buyer_email qty ∷ jobs) w served =
      work-Copies clock (i + 1) jobs _ served
  work-Copies clock i (send_payment_confirmation_email buyer_email order_id amount ∷ jobs) w
        served =
      work-Copies clock (i + 1) jobs _ served
  work-Copies clock i (write_pool_feed_event pool_id event ∷ jobs) w served =
      let (went, wrote, failed) = write_event-Writes (clock i) pool_id event (forked w) served in
      let w' = (write_event settings sdk (clock i) pool_id event (forked w)).1 in
      let (docs, fails) = work-Copies clock (i + 1) jobs w' served in
      subst
        (λ u.
          Copies (write_pool_feed_event pool_id event ∷ jobs) w
            (work settings sdk clock (i + 1) jobs u))
        (sym (kept_eq _ (write_event settings sdk (clock i) pool_id event (forked w)) went))
        (
          docs
              ∙ ap (λ ds. map copied ds ++ feed_jobs jobs) wrote
              ∙ ap (λ ds. ds ++ feed_jobs jobs) (map-append copied w.documents _)
              ∙ append_assoc (map copied w.documents) _ (feed_jobs jobs),
          fails ∙ failed,
        )

  -- Where Firestore is set up and takes every document, the worker that runs the queue of any history
  -- writes exactly the events of the live feeds, in their order, and no job fails.
  pub run-Copies :
      (p : Platform) (rs : List Request) (s : State) (clock : ℕ → Time)
      → IsServed settings sdk
      → s.jobs ≡ []
      → s.feed ≡ []
      → let t = run p rs s in
        let w = work settings sdk clock 0 t.jobs new_worker in
        (map copied w.documents ≡ map sent t.feed) × (w.failed ≡ [])
  unfolding feed_jobs
  run-Copies p rs s clock served no_jobs no_feed =
      let (docs, fails) = work-Copies clock 0 (run p rs s).jobs new_worker served in
      (docs ∙ run-IsMirrored p rs s start, fails)
    where
      start : feed_jobs s.jobs ≡ map sent s.feed
      start = rw (no_jobs, no_feed) refl
