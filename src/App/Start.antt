-- ===== src/App/Start.antt =====
-- What a start of the process leaves.
use farm_link.Common.{
  ◌⊎◌, sym, ap, ◌∙◌, subst, ◌≡◌, refl, String, true, false, [], ◌∷◌, ◌++◌, Bool-cases, inl, inr,
  arith,
}
use farm_link.Session.{State, Result-cases, bind_ok, pure, ok, with_session}
use farm_link.Security.{Crypto}
use farm_link.Auth.{bootstrap_admin}
use farm_link.Auth.Accounts.{HasAdmin, bootstrap_admin-HasAdmin}
use farm_link.Config.{Settings}
use farm_link.Worker.{is_set}
use farm_link.App.{Process, text_or_empty, bootstrap, schedule, start}

-- The scheduler runs the sweep, unless the settings turn it off.
abbrev pub Scheduled : Settings → Process → Process → Type 0
Scheduled settings before after =
    ((settings.disable_scheduler ≡ true) × (after ≡ before))
    ⊎ ((settings.disable_scheduler ≡ false)
        × (after.running ≡ true)
        × (after.scheduled
            ≡ before.scheduled
              ++ record { id = "sweep_expired_orders"; minutes = settings.sweep_interval_minutes }
                ∷ []))

schedule-Scheduled :
    (settings : Settings) (process : Process)
    → Scheduled settings process (schedule settings process)
unfolding schedule
schedule-Scheduled settings process = elim (Bool-cases settings.disable_scheduler) [
  | inl off ↦ inl (off, rw off refl)
  | inr on ↦ inr (on, rw on refl, rw on refl)
]

module _ (c : Crypto) (salt : String) (settings : Settings) (before : Process) (s : State) where
  bootstrap-HasAdmin :
      is_set settings.admin_bootstrap_email ≡ true
      → is_set settings.admin_bootstrap_password ≡ true
      → (bootstrap c salt settings s).0 ≡ ok tt
      → HasAdmin
          (text_or_empty settings.admin_bootstrap_email)
          (bootstrap c salt settings s).1.committed
  unfolding bootstrap
  bootstrap-HasAdmin email password done =
      let address = text_or_empty settings.admin_bootstrap_email in
      let run =
        with_session
          (bootstrap_admin c salt address (text_or_empty settings.admin_bootstrap_password)) s in
      let same : bootstrap c salt settings s ≡ run = rw (email, password) refl in
      subst (λ x. HasAdmin address x.1.committed) (sym same)
        (bootstrap_admin-HasAdmin c salt address (text_or_empty settings.admin_bootstrap_password) s
          (sym (ap (λ x. x.0) same) ∙ done))

  -- A process that starts where both bootstrap settings are there has an approved admin under that
  -- email, and a scheduler that runs the sweep at its interval, unless the settings turn it off.
  pub start-HasAdmin :
      (after : Process)
      → is_set settings.admin_bootstrap_email ≡ true
      → is_set settings.admin_bootstrap_password ≡ true
      → (start c salt settings before s).0 ≡ ok after
      → HasAdmin
          (text_or_empty settings.admin_bootstrap_email)
          (start c salt settings before s).1.committed
        × Scheduled settings before after
  unfolding start
  start-HasAdmin after email password done = elim (Result-cases (bootstrap c salt settings s).0) [
    | inl (e, bad) ↦ absurd (ground (arith, bad, done))
    | inr (tt, went) ↦
        let ran : start c salt settings before s
            ≡ (ok (schedule settings before), (bootstrap c salt settings s).1) =
          bind_ok (bootstrap c salt settings) (λ _. pure (schedule settings before)) s
            (bootstrap c salt settings s).1 tt (λ i. (went i, (bootstrap c salt settings s).1)) in
        let same : schedule settings before ≡ after = ground (arith, done, ap (λ x. x.0) ran) in
        (
          subst (HasAdmin (text_or_empty settings.admin_bootstrap_email))
              (sym (ap (λ x. x.1.committed) ran)) (bootstrap-HasAdmin email password went),
          subst (Scheduled settings before) same (schedule-Scheduled settings before),
        )
  ]
