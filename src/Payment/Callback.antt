-- ===== src/Payment/Callback.antt =====
-- What the provider's callback does, on every branch and when it is repeated: `handle_callback` of
-- app/services/payment/payment_service.py.
use mathlib.Core.Path.{subst}
use store_evix.Common.{
  ◌≡◌, refl, ap, ◌∙◌, inl, inr, Bool, true, false, some, String, str_eq, Bool-cases, Option-cases,
}
use store_evix.Common.Table.{find}
use store_evix.Common.Session.{Result, ok, err, run_request}
use store_evix.Models.Order.{Order}
use store_evix.Models.Payment.{Payment}
use store_evix.Models.Db.{Db}
use store_evix.Order.{
  illegal_transition, waybill_cancel_failed, order_not_found, Surroundings, order_key, truthy,
  get_novapost, waybill_of,
}
use store_evix.Payment.Defs.{
  PaymentError, order_refused, Callback, Gateway, is_terminal, get_by_pay_id, is_open, settle,
  on_payment, handle_callback, card_payment_disabled, payment_not_found, refund_not_allowed,
  maib_failed,
}
use store_evix.Payment.Settling.{
  IsSettled, HasWaybill, Settles, apply_paid-Settles, apply_failed-Canceled, stuck_run,
}

-- Signed, for a payment that is known and has no final state yet, of an order that is there.
abbrev pub IsDue : Gateway → Callback → Db → String → Payment → Order → Type 0
IsDue gateway c db id p o =
    (gateway.verifies c ≡ true)
    × (truthy c.pay_id ≡ some id)
    × (get_by_pay_id id db.payments ≡ some p)
    × (is_terminal p.status ≡ false)
    × (find order_key p.order_id db.orders ≡ some o)

-- Accepted: the callback is signed and its payment is final. Rejected: nothing is changed. Failed:
-- nothing is changed, and the order of a payment that is due has a waybill.
abbrev pub Answered : Gateway → Callback → Db → Result PaymentError Bool × Db → Type 0
Answered gateway c db (ok true, db') =
    (gateway.verifies c ≡ true)
    × (id : String) × (truthy c.pay_id ≡ some id)
    × IsSettled id db'.payments
Answered gateway c db (ok false, db') = db' ≡ db
Answered gateway c db (err (order_refused waybill_cancel_failed), db') =
    (db' ≡ db)
    × (id : String) × (p : Payment) × (o : Order) × IsDue gateway c db id p o
    × HasWaybill o db
Answered gateway c db (err _, db') = ⊥

module _ (gateway : Gateway) (env : Surroundings) (c : Callback) (db : Db) where
  Settles-Answered :
      (id : String) (p : Payment) (o : Order) (r : Result PaymentError Bool × Db)
      → IsDue gateway c db id p o
      → Settles id o db r
      → Answered gateway c db r
  Settles-Answered id p o (ok true, db') due h = (due.0, id, due.1, h)
  Settles-Answered id p o (ok false, db') due h = absurd h
  Settles-Answered id p o (err (order_refused waybill_cancel_failed), db') due h =
      (h.0, id, p, o, due, h.1)
  Settles-Answered id p o (err (order_refused illegal_transition), db') due h = absurd h
  Settles-Answered id p o (err (order_refused order_not_found), db') due h = absurd h
  Settles-Answered id p o (err card_payment_disabled, db') due h = absurd h
  Settles-Answered id p o (err payment_not_found, db') due h = absurd h
  Settles-Answered id p o (err refund_not_allowed, db') due h = absurd h
  Settles-Answered id p o (err maib_failed, db') due h = absurd h

  settle-Answered :
      (id : String) (p : Payment) (o : Order)
      → IsDue gateway c db id p o
      → Answered gateway c db (run_request (settle gateway env c p (some o)) db)
  settle-Answered id p o due = elim (Bool-cases (str_eq (gateway.upper c.status) "OK")) [
    | inl e ↦
        rw e
          (Settles-Answered id p o _ due (apply_paid-Settles id env p db due.2 o.payment_status o))
    | inr e ↦ rw e (
        Settles-Answered id p o _ due (
          apply_failed-Canceled id env p db due.2 o.status o env.effect_runs
            (waybill_of (get_novapost o.id db.carriers)) refl))
  ]

  on_payment-Answered :
      (id : String) (p : Payment)
      → gateway.verifies c ≡ true
      → truthy c.pay_id ≡ some id
      → get_by_pay_id id db.payments ≡ some p
      → Answered gateway c db (run_request (on_payment gateway env c (some p)) db)
  on_payment-Answered id p v named found = elim (Bool-cases (is_terminal p.status)) [
    | inl t ↦ rw t (v, id, named, (p, found, t))
    | inr t ↦ elim (Option-cases (find order_key p.order_id db.orders)) [
      | inl gone ↦ rw (t, gone) refl
      | inr (o, there) ↦ rw (t, there) (settle-Answered id p o (v, named, found, t, there))
    ]
  ]

  -- A callback is accepted only if it is signed and its payment is known, and that payment is then
  -- final; a rejected one changes nothing; and it fails only where the order of a payment that is
  -- still due has a waybill, again with nothing changed.
  pub handle_callback-Answered :
      Answered gateway c db (run_request (handle_callback gateway env c) db)
  unfolding handle_callback
  handle_callback-Answered = elim (Bool-cases (gateway.verifies c)) [
    | inr v ↦ rw v refl
    | inl v ↦ elim (Option-cases (truthy c.pay_id)) [
      | inl n ↦ rw (v, n) refl
      | inr (id, n) ↦ elim (Option-cases (get_by_pay_id id db.payments)) [
        | inl gone ↦ rw (v, n, gone) refl
        | inr (p, found) ↦ rw (v, n, found) (on_payment-Answered id p v n found)
      ]
    ]
  ]

-- A signed callback for a payment that is final is accepted and changes nothing.
settled_again :
    (gateway : Gateway) (env : Surroundings) (c : Callback) (db : Db) (id : String)
    → gateway.verifies c ≡ true
    → truthy c.pay_id ≡ some id
    → IsSettled id db.payments
    → run_request (handle_callback gateway env c) db ≡ (ok true, db)
unfolding handle_callback
settled_again gateway env c db id v named (p, found, final) = rw (v, named, found, final) refl

-- Once a callback is accepted, every later one for the same payment, whatever it says, is accepted
-- where it is signed and changes nothing.
pub handle_callback_idempotent :
    (gateway : Gateway) (env env' : Surroundings) (c c' : Callback) (db db' : Db)
    → run_request (handle_callback gateway env c) db ≡ (ok true, db')
    → gateway.verifies c' ≡ true
    → c'.pay_id ≡ c.pay_id
    → run_request (handle_callback gateway env' c') db' ≡ (ok true, db')
handle_callback_idempotent gateway env env' c c' db db' e v same =
    let (signed, id, named, final) =
      subst (Answered gateway c db) e (handle_callback-Answered gateway env c db) in
    settled_again gateway env' c' db' id v (ap truthy same ∙ named) final

-- The effects of a callback that is due.
module _ (gateway : Gateway) (env : Surroundings) (c : Callback) (db : Db) (id : String)
    (p : Payment) (o : Order) (due : IsDue gateway c db id p o) where
  pub due_run :
      run_request (handle_callback gateway env c) db
      ≡ run_request (settle gateway env c p (some o)) db
  unfolding handle_callback
  due_run = rw (due.0, due.1, due.2, due.3, due.4) refl

  -- Any other status, for an open order that has a waybill: the callback fails and nothing is
  -- changed, also where the integration is on and the carrier would cancel the shipment.
  pub handle_callback_stuck :
      str_eq (gateway.upper c.status) "OK" ≡ false
      → is_open o.status ≡ true
      → HasWaybill o db
      → run_request (handle_callback gateway env c) db
        ≡ (err (order_refused waybill_cancel_failed), db)
  handle_callback_stuck says is_still_open has =
      elim (Option-cases (waybill_of (get_novapost o.id db.carriers))) [
        | inl none_there ↦ cc
        | inr (w, there) ↦ due_run ∙ rw says (stuck_run env p o db o.status w is_still_open there)
      ]
