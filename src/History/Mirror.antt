-- ===== src/History/Mirror.antt =====
-- The live feed and its durable copy.
use farm_link.Common.{◌≡◌, ap, ◌∙◌, List, [], ◌∷◌, ◌++◌, map, sym}
use mathlib.Core.List.{map-append}
use farm_link.Schema.{Uuid}
use farm_link.Session.{State, Published, FeedEvent}
use farm_link.Payments.Paystack.{Platform}
use farm_link.History.{Request, step, run}
use farm_link.History.Effects.{feed_jobs, message}
use farm_link.History.Steps.{step-Shown}
use farm_link.History.Shows.{Shows, silent, announced, created, filled, Shown, nothing, and_then}

abbrev pub sent : Published → Uuid × FeedEvent
sent m = (m.pool_id, m.event)

-- The queue has had the events of the live feed, in their order.
abbrev pub IsMirrored : State → Type 0
IsMirrored s = feed_jobs s.jobs ≡ map sent s.feed

Shows-IsMirrored : (s t : State) → Shows s t → IsMirrored s → IsMirrored t
Shows-IsMirrored s t (silent _ (_, jobs, feed)) h = jobs ∙ h ∙ ap (map sent) (sym feed)
Shows-IsMirrored s t (announced pool_id rows (cache, event, jobs, feed)) h =
    jobs
    ∙ ap (λ xs. xs ++ (pool_id, event) ∷ []) h
    ∙ sym (map-append sent s.feed (message pool_id event s ∷ []))
    ∙ ap (map sent) (sym feed)
Shows-IsMirrored s t (created pool pools cache jobs feed) h = jobs ∙ h ∙ ap (map sent) (sym feed)
Shows-IsMirrored s t (filled key value agrees pools cache jobs feed) h =
    jobs ∙ h ∙ ap (map sent) (sym feed)

Shown-IsMirrored : (s t : State) → Shown s t → IsMirrored s → IsMirrored t
Shown-IsMirrored s t nothing h = h
Shown-IsMirrored s u (and_then {t = t} before last) h =
    Shows-IsMirrored t u last (Shown-IsMirrored s t before h)

pub run-IsMirrored :
    (p : Platform) (rs : List Request) (s : State) → IsMirrored s → IsMirrored (run p rs s)
unfolding run
run-IsMirrored p [] s h = h
run-IsMirrored p (r ∷ rs) s h =
    run-IsMirrored p rs (step p r s) (Shown-IsMirrored s _ (step-Shown p r s) h)
