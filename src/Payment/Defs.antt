-- ===== src/Payment/Defs.antt =====
-- The operations of the payment service.
use store_evix.Common.{
  ℕ, Bool, true, false, not, Option, none, some, List, [], ◌∷◌, ◌++◌, String, if◌then◌else◌, str_eq,
  leb, ◌==◌,
}
use store_evix.Common.Table.{find, modify}
use store_evix.Common.Session.{
  Result, ok, err, Session, Action, pure, raise, gets, raise_if, write, commit, ◌>>=◌, ◌>>◌,
}
use store_evix.Models.Order.{
  OrderStatus, new, confirmed, done, canceled, PaymentStatus, paid, refunded, PaymentMethod, card,
  Order,
}
use store_evix.Models.Payment.{PaymentState, Payment}
use store_evix.Models.Db.{Db}
use store_evix.Order.{
  OrderError, illegal_transition, Surroundings, OrderAction, order_key, transition, truthy,
}

-- The leaves of the class PaymentError, a failure of the provider, and what the order refuses.
pub data PaymentError : Type 0 where
  card_payment_disabled payment_not_found refund_not_allowed maib_failed : PaymentError
  order_refused : OrderError → PaymentError

abbrev pub PaymentAction : Type 0 → Type 0
PaymentAction = Action Db PaymentError

-- What the provider's webhook sends.
pub record Callback : Type 0 where
  pub pay_id : Option String
  pub status : String
  pub signature : String

-- The provider: the id of a payment that it creates, whether it refunds, its signature check.
pub record Gateway : Type 0 where
  pub enabled : Bool
  pub currency : String
  pub create_payment : Order → Option String
  pub refunds : String → Option ℕ → Bool
  pub verifies : Callback → Bool
  pub upper : String → String

abbrev pub payment_key : Payment → ℕ
payment_key p = p.id

abbrev pub is_terminal : PaymentState → Bool
is_terminal PaymentState.pending = false
is_terminal PaymentState.ok = true
is_terminal PaymentState.failed = true
is_terminal PaymentState.refunded = true

abbrev pub text_is : String → Option String → Bool
text_is t none = false
text_is t (some s) = str_eq s t

unfoldable pub get_by_pay_id : String → List Payment → Option Payment
get_by_pay_id pay_id [] = none
get_by_pay_id pay_id (p ∷ ps) = if text_is pay_id p.pay_id then some p else get_by_pay_id pay_id ps

-- The row with the greatest key.
abbrev pub newest : Payment → Option Payment → Payment
newest p none = p
newest p (some q) = if leb p.id q.id then q else p

unfoldable pub get_by_order_id : ℕ → List Payment → Option Payment
get_by_order_id order_id [] = none
get_by_order_id order_id (p ∷ ps) =
    let rest = get_by_order_id order_id ps in
    if p.order_id == order_id then some (newest p rest) else rest

abbrev pub set_payment : ℕ → (Payment → Payment) → Db → Db
set_payment id f db = record db { payments = modify payment_key id f db.payments }

abbrev pub mark : PaymentState → Payment → Payment
mark s p = record p { status = s }

abbrev pub new_payment : Gateway → ℕ → Order → Payment
new_payment gateway id o = record {
  id = id;
  order_id = o.id;
  pay_id = none;
  status = PaymentState.pending;
  amount = o.total;
  currency = gateway.currency;
}

-- The pending row is committed also where the provider fails.
abbrev pub record_answer : ℕ → Option String → PaymentAction String
record_answer id none = do commit; raise maib_failed
record_answer id (some pay_id) = do
  write (set_payment id (λ p. record p { pay_id = some pay_id }))
  commit
  pure pay_id

-- The result stands for the address of the payment page.
unfoldable pub initiate_card_payment : Gateway → ℕ → Order → PaymentAction String
initiate_card_payment gateway id o = do
  raise_if (not gateway.enabled) card_payment_disabled
  write (λ db. record db { payments = db.payments ++ new_payment gateway id o ∷ [] })
  record_answer id (gateway.create_payment o)

-- An action of the order service inside the payment service.
abbrev pub refused :
    {A : Type 0} → Result OrderError A × Session Db → Result PaymentError A × Session Db
refused (ok a, s) = (ok a, s)
refused (err e, s) = (err (order_refused e), s)

abbrev pub of_order : {A : Type 0} → OrderAction A → PaymentAction A
of_order m s = refused (m s)

-- The state machine is bound without Redis, so the carrier's integration is not available to it.
abbrev pub without_redis : Surroundings → Surroundings
without_redis env = record env { integration = false }

abbrev pub settle_order : Surroundings → Order → PaymentStatus → PaymentAction Bool
settle_order env o PaymentStatus.pending = do
  notified ← of_order (transition (without_redis env) o none (some paid) "maib")
  pure true
settle_order env o paid = do commit; pure true
settle_order env o refunded = do commit; pure true

unfoldable pub apply_paid : Surroundings → Order → Payment → PaymentAction Bool
unfolding transition
apply_paid env o p = do
  write (set_payment p.id (mark PaymentState.ok))
  settle_order env o o.payment_status

-- `except IllegalTransitionError: commit`
abbrev pub or_commit :
    Result OrderError (List ℕ) × Session Db → Result PaymentError Bool × Session Db
or_commit (ok _, s) = (ok true, s)
or_commit (err illegal_transition, s) = (ok true, record s { committed = s.work })
or_commit (err e, s) = (err (order_refused e), s)

abbrev pub is_open : OrderStatus → Bool
is_open new = true
is_open confirmed = true
is_open done = false
is_open canceled = false

abbrev pub cancel_order : Bool → Surroundings → Order → PaymentAction Bool
cancel_order true env o =
    λ s. or_commit (transition (without_redis env) o (some canceled) none "maib" s)
cancel_order false env o = do commit; pure true

unfoldable pub apply_failed : Surroundings → Order → Payment → PaymentAction Bool
unfolding transition
apply_failed env o p = do
  write (set_payment p.id (mark PaymentState.failed))
  cancel_order (is_open o.status) env o

abbrev pub settle : Gateway → Surroundings → Callback → Payment → Option Order → PaymentAction Bool
settle gateway env c p none = pure false
settle gateway env c p (some o) =
    if str_eq (gateway.upper c.status) "OK" then apply_paid env o p else apply_failed env o p

abbrev pub on_payment : Gateway → Surroundings → Callback → Option Payment → PaymentAction Bool
on_payment gateway env c none = pure false
on_payment gateway env c (some p) =
    if is_terminal p.status
    then pure true
    else gets (λ db. find order_key p.order_id db.orders) >>= settle gateway env c p

abbrev pub on_pay_id : Gateway → Surroundings → Callback → Option String → PaymentAction Bool
on_pay_id gateway env c none = pure false
on_pay_id gateway env c (some id) =
    gets (λ db. get_by_pay_id id db.payments) >>= on_payment gateway env c

unfoldable pub handle_callback : Gateway → Surroundings → Callback → PaymentAction Bool
unfolding apply_paid apply_failed get_by_pay_id
handle_callback gateway env c =
    if gateway.verifies c then on_pay_id gateway env c (truthy c.pay_id) else pure false

abbrev pub is_paid_card : PaymentMethod → PaymentStatus → Bool
is_paid_card card paid = true
is_paid_card _ _ = false

abbrev pub refund_of :
    Gateway → Surroundings → Order → Option ℕ → Option Payment → PaymentAction (List ℕ)
refund_of gateway env o amount none = raise payment_not_found
refund_of gateway env o amount (some p) = elim p.pay_id [
  | none ↦ raise payment_not_found
  | some pay_id ↦ do
    raise_if (not (gateway.refunds pay_id amount)) maib_failed
    write (set_payment p.id (mark PaymentState.refunded))
    of_order (transition (without_redis env) o none (some refunded) "admin")
]

unfoldable pub refund : Gateway → Surroundings → Order → Option ℕ → PaymentAction (List ℕ)
unfolding transition get_by_order_id
refund gateway env o amount = do
  raise_if (not (is_paid_card o.payment_method o.payment_status)) refund_not_allowed
  found ← gets (λ db. get_by_order_id o.id db.payments)
  refund_of gateway env o amount found
