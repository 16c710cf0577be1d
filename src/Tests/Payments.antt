-- ===== src/Tests/Payments.antt =====
-- Webhook deliveries at concrete inputs.
use farm_link.Common.{String, ℕ, ◌≡◌, refl, some, [], ◌∷◌, find, first, replace, ◌+◌}
use farm_link.Schema.{order_key, admit_event, admit_payment}
use farm_link.Session.{ok, err, with_session}
use farm_link.Payments.Values.{text, get, field_or, truthy}
use farm_link.Payments.Paystack.{verify_webhook_signature}
use farm_link.Payments.{
  Incoming, read_body, reference_column, event_id_of, is_charge_success, amount_of, charged_amount,
  process_webhook_event,
}
use farm_link.Payments.Effect.{payment_of, paid_database}
use farm_link.Payments.Outcome.{event_of, with_event, Outcome, process_webhook_event-Outcome}
use farm_link.Payments.Redelivery.{process_webhook_event-redelivered}
use farm_link.Payments.Settlement.{Charges, Answers, paying_state, process_webhook_event-pays}
use farm_link.Payouts.{pool_revenue, already_paid_out, calculate_and_create_payouts}
use farm_link.Payouts.Late.{late_revenue_undistributed}
use farm_link.Session.{pool_already_paid_out}
use farm_link.Stock.{waiting, sold}
use farm_link.Stock.Late.{late_payment_oversells}
use farm_link.Tests.Market.{
  market, stub_platform, unpaid_yams, unpaid_maize, maize, charge_data, paid_market, paid_yams,
  expired_market, expired_yams, restocked_yams, expired_market-IsStocked, shared_market,
}

-- What is read from the two bodies of the market's platform.
abbrev event_for : String → ℕ → Incoming
event_for reference id = record {
  event_type = text "charge.success";
  charge = charge_data reference id;
  reference = text reference;
  event_id = "7";
  column = reference;
}

yams_charged : Charges stub_platform (0 ∷ []) "good" market (event_for "100" 7) 100 unpaid_yams 5000
unfolding verify_webhook_signature read_body field_or get truthy reference_column event_id_of
    admit_event event_of is_charge_success charged_amount amount_of find first
yams_charged = record {
  signed = refl;
  read = refl;
  new = refl;
  success = refl;
  id_text = "100";
  refers = refl;
  parsed = refl;
  found = refl;
  amounts = refl;
}

process_webhook_event-Outcome_example :
    let (result, s') = with_session (process_webhook_event stub_platform (0 ∷ []) "good") market in
    Outcome stub_platform (0 ∷ []) "good" market (result, s'.committed)
process_webhook_event-Outcome_example =
    process_webhook_event-Outcome stub_platform (0 ∷ []) "good" market

process_webhook_event-pays_example :
    let (result, s') = with_session (process_webhook_event stub_platform (0 ∷ []) "good") market in
    Answers (result, s') (paid_database unpaid_yams 5000 (with_event (event_for "100" 7) market))
unfolding paying_state payment_of admit_payment with_event event_of replace find first
process_webhook_event-pays_example =
    process_webhook_event-pays stub_platform (0 ∷ []) "good" market (event_for "100" 7) 100
      unpaid_yams 5000 yams_charged refl refl

-- The first delivery pays for the yams, and the second does nothing.
process_webhook_event-redelivered_example :
    let s' = (with_session (process_webhook_event stub_platform (0 ∷ []) "good") market).1 in
    with_session (process_webhook_event stub_platform (0 ∷ []) "good") s'
    ≡ (ok tt, record s' { working = s'.committed; drawn = s'.drawn + 1 })
unfolding paying_state payment_of admit_payment with_event event_of replace find first
process_webhook_event-redelivered_example =
    process_webhook_event-redelivered stub_platform (0 ∷ []) "good" market refl
      (process_webhook_event-pays stub_platform (0 ∷ []) "good" market (event_for "100" 7) 100
        unpaid_yams 5000 yams_charged refl refl).0

paid_yams_charged :
    Charges stub_platform (0 ∷ []) "good" paid_market (event_for "100" 7) 100 paid_yams 5000
unfolding verify_webhook_signature read_body field_or get truthy reference_column event_id_of
    admit_event event_of is_charge_success charged_amount amount_of find first
paid_yams_charged = record {
  signed = refl;
  read = refl;
  new = refl;
  success = refl;
  id_text = "100";
  refers = refl;
  parsed = refl;
  found = refl;
  amounts = refl;
}

expired_yams_charged :
    Charges stub_platform (0 ∷ []) "good" expired_market (event_for "100" 7) 100 expired_yams 5000
unfolding verify_webhook_signature read_body field_or get truthy reference_column event_id_of
    admit_event event_of is_charge_success charged_amount amount_of find first
expired_yams_charged = record {
  signed = refl;
  read = refl;
  new = refl;
  success = refl;
  id_text = "100";
  refers = refl;
  parsed = refl;
  found = refl;
  amounts = refl;
}

-- All 50 yams are on offer, and 10 of them are sold.
late_payment_oversells_example :
    let s' =
      (with_session (process_webhook_event stub_platform (0 ∷ []) "good") expired_market).1 in
    (find order_key 100 s'.committed.orders ≡ some paid_yams)
    × (50 + waiting 1 s'.committed.orders + sold 1 s'.committed.orders ≡ 60)
unfolding paying_state payment_of admit_payment with_event event_of replace find first
late_payment_oversells_example =
    let (_, is_paid_now, _, over) =
      late_payment_oversells stub_platform (0 ∷ []) "good" expired_market (event_for "100" 7) 100
        expired_yams 5000 restocked_yams expired_yams_charged refl refl expired_market-IsStocked
        refl in
    (is_paid_now, over)

maize_charged :
    Charges stub_platform
      (0 ∷ 0 ∷ [])
      "good"
      shared_market
      (event_for "202" 8)
      202
      unpaid_maize
      5000
unfolding verify_webhook_signature read_body field_or get truthy reference_column event_id_of
    admit_event event_of is_charge_success charged_amount amount_of find first
maize_charged = record {
  signed = refl;
  read = refl;
  new = refl;
  success = refl;
  id_text = "202";
  refers = refl;
  parsed = refl;
  found = refl;
  amounts = refl;
}

late_revenue_undistributed_example :
    let s' =
      (with_session (process_webhook_event stub_platform (0 ∷ 0 ∷ []) "good") shared_market).1 in
    (pool_revenue 2 s'.committed.orders ≡ pool_revenue 2 shared_market.committed.orders + 500)
    × (s'.committed.payouts ≡ shared_market.committed.payouts)
    × (with_session (calculate_and_create_payouts 2) s'
        ≡ (err pool_already_paid_out, record s' { working = s'.committed }))
unfolding paying_state payment_of admit_payment with_event event_of replace find first
    already_paid_out
late_revenue_undistributed_example =
    late_revenue_undistributed stub_platform (0 ∷ 0 ∷ []) "good" shared_market (event_for "202" 8)
      202 unpaid_maize 5000 maize maize_charged refl refl refl refl refl
