-- ===== src/Checkout/Totals.antt =====
-- The delivery rules and the totals of `_quote_from_lines` in app/services/checkout_service.py.
use store_evix.Common.{
  ℕ, ◌+◌, ◌-◌, ◌≤◌, ◌≡◌, refl, ◌↔◌, ◌≢◌, ◌⊎◌, inl, inr, Bool, true, false, ◌||◌, Option, none, some,
  List, [], ◌∷◌, map, ◌*◌, arith, is_some, if◌then◌else◌,
}
use store_evix.Common.Int.{pos}
use store_evix.Common.Session.{Result, ok, err}
use store_evix.Models.Order.{
  DeliveryType, DeliveryService, pickup, courier, branch, postomat, own, novapost,
}
use store_evix.Checkout.Choice.{
  CheckoutError, delivery_address_required, delivery_quote_unavailable, Settings, CarrierQuote,
  DeliveryChoice, PricedLine, Totals, subtotal_of, delivery_cost, carrier_cost,
  free_delivery_threshold, priced_by_carrier, reaches, or_else, courier_cost, totals_with,
  shipping_cost, with_cost, quote_from_lines,
}

-- The payable amount reaches the threshold, if there is one.
abbrev pub IsFree : Option ℕ → ℕ → Type 0
IsFree none payable = ⊥
IsFree (some threshold) payable = threshold ≤ payable

-- What shipping may cost: pickup nothing; our courier, to an address, the flat rate below the
-- threshold and nothing from it on; the carrier what it asks for below its threshold.
abbrev pub ShipsByUs : Settings → DeliveryType → Bool → ℕ → ℕ → Type 0
ShipsByUs settings pickup has_address payable cost = cost ≡ 0
ShipsByUs settings _ has_address payable cost =
    (has_address ≡ true)
    × ((IsFree settings.free_delivery_from payable × (cost ≡ 0))
        ⊎ ((¬ IsFree settings.free_delivery_from payable) × (cost ≡ settings.courier_rate)))

-- The carrier's own threshold goes before the store-wide one.
abbrev pub IsCarriedFree : Option ℕ → Option ℕ → ℕ → Type 0
IsCarriedFree none general payable = IsFree general payable
IsCarriedFree (some threshold) general payable = threshold ≤ payable

-- Each line weighs its unit weight times its quantity.
abbrev pub Weigh : List PricedLine → List ℕ → Type 0
Weigh [] [] = Unit
Weigh [] (_ ∷ _) = ⊥
Weigh (_ ∷ _) [] = ⊥
Weigh (l ∷ ls) (w ∷ ws) = (w ≡ l.weight_g * l.qty) × Weigh ls ws

-- What the carrier answers for these lines.
abbrev pub CarrierSays : CarrierQuote → List PricedLine → DeliveryChoice → Option ℕ → Type 0
CarrierSays quote lines c answer =
    (weights : List ℕ) × Weigh lines weights × (quote c weights ≡ answer)

abbrev pub has_address : DeliveryChoice → Bool
has_address c = is_some c.address_id || is_some c.address

abbrev pub ShipsBy :
    Settings → CarrierQuote → List PricedLine → DeliveryChoice → DeliveryService → ℕ → ℕ → Type 0
ShipsBy settings quote lines c own payable cost =
    ShipsByUs settings c.delivery_type (has_address c) payable cost
ShipsBy settings quote lines c novapost payable cost =
    (IsCarriedFree settings.novapost_free_delivery_from settings.free_delivery_from payable
      × (cost ≡ 0))
    ⊎ ((¬ IsCarriedFree settings.novapost_free_delivery_from settings.free_delivery_from payable)
        × CarrierSays quote lines c (some cost))

-- The totals that a quote of these lines must show.
abbrev pub Priced : Settings → CarrierQuote → List PricedLine → DeliveryChoice → ℕ → Totals → Type 0
Priced settings quote lines c discount t =
    (t.subtotal ≡ subtotal_of lines)
    × (t.discount_total ≡ discount)
    × (discount ≤ subtotal_of lines
        → t.total ≡ pos (subtotal_of lines - discount + t.delivery_cost))
    × ShipsBy settings quote lines c c.service (subtotal_of lines - discount) t.delivery_cost

-- Pricing fails only for our courier without an address, or for a carrier that gives no price to a
-- shipment below the threshold.
abbrev pub Quoted :
    Settings
    → CarrierQuote
    → List PricedLine
    → DeliveryChoice
    → ℕ
    → Result CheckoutError Totals
    → Type 0
Quoted settings quote lines c discount (ok t) = Priced settings quote lines c discount t
Quoted settings quote lines c discount (err delivery_address_required) =
    (c.service ≡ own) × (c.delivery_type ≢ pickup) × (has_address c ≡ false)
Quoted settings quote lines c discount (err delivery_quote_unavailable) =
    (c.service ≡ novapost)
    × (¬ IsCarriedFree settings.novapost_free_delivery_from settings.free_delivery_from
        (subtotal_of lines - discount))
    × CarrierSays quote lines c none
Quoted settings quote lines c discount (err _) = ⊥

reaches_iff : (o : Option ℕ) (payable : ℕ) → (reaches o payable ≡ true) ↔ IsFree o payable
reaches_iff none payable = ground arith
reaches_iff (some t) payable = ground arith

carried_iff :
    (carrier general : Option ℕ) (payable : ℕ)
    → (reaches (or_else carrier general) payable ≡ true) ↔ IsCarriedFree carrier general payable
carried_iff none general payable = reaches_iff general payable
carried_iff (some t) general payable = ground arith

weighs : (ls : List PricedLine) → Weigh ls (map (λ l. l.weight_g * l.qty) ls)
weighs [] = tt
weighs (l ∷ ls) = (refl, weighs ls)

module _ (settings : Settings) (quote : CarrierQuote) (lines : List PricedLine) (discount : ℕ)
    (c : DeliveryChoice) where
  abbrev charged : ℕ
  charged = subtotal_of lines - discount

  total_when :
      (cost : ℕ)
      → discount ≤ subtotal_of lines
      → (totals_with lines c discount cost).total ≡ pos (subtotal_of lines - discount + cost)
  total_when cost h = ground arith

  Quoted-totals_with :
      (cost : ℕ)
      → ShipsBy settings quote lines c c.service charged cost
      → Quoted settings quote lines c discount (ok (totals_with lines c discount cost))
  Quoted-totals_with cost h = (refl, refl, total_when cost, h)

-- What an answer of `shipping_cost` says.
abbrev Shipping :
    Settings → CarrierQuote → List PricedLine → DeliveryChoice → ℕ → Result CheckoutError ℕ → Type 0
Shipping settings quote lines c payable (ok cost) =
    ShipsBy settings quote lines c c.service payable cost
Shipping settings quote lines c payable (err delivery_address_required) =
    (c.service ≡ own) × (c.delivery_type ≢ pickup) × (has_address c ≡ false)
Shipping settings quote lines c payable (err delivery_quote_unavailable) =
    (c.service ≡ novapost)
    × (¬ IsCarriedFree settings.novapost_free_delivery_from settings.free_delivery_from payable)
    × CarrierSays quote lines c none
Shipping settings quote lines c payable (err _) = ⊥

module _ (settings : Settings) (quote : CarrierQuote) (lines : List PricedLine) (payable : ℕ) where
  abbrev Holds : DeliveryChoice → Type 0
  Holds c = Shipping settings quote lines c payable (shipping_cost settings quote lines c payable)

  by_courier :
      (c : DeliveryChoice) (kind : DeliveryType)
      → kind ≢ pickup
      → let c' = record c { service = own; delivery_type = kind } in
        Shipping settings quote lines c' payable (courier_cost settings payable (has_address c))
  by_courier c pickup t = absurd (t refl)
  by_courier c courier t = ground (arith, reaches_iff settings.free_delivery_from payable, t)
  by_courier c branch t = ground (arith, reaches_iff settings.free_delivery_from payable, t)
  by_courier c postomat t = ground (arith, reaches_iff settings.free_delivery_from payable, t)

  by_carrier :
      (c : DeliveryChoice) (o : Option ℕ)
      → let c' = record c { service = novapost } in
        quote c' (map (λ l. l.weight_g * l.qty) lines) ≡ o
        → ¬ IsCarriedFree settings.novapost_free_delivery_from settings.free_delivery_from payable
        → Shipping settings quote lines c' payable (priced_by_carrier o)
  by_carrier c none e n = (refl, n, (_, weighs lines, e))
  by_carrier c (some cost) e n = inr (n, (_, weighs lines, e))

  by_threshold :
      (c : DeliveryChoice) (b : Bool)
      → reaches (free_delivery_threshold settings novapost) payable ≡ b
      → let c' = record c { service = novapost } in
        Shipping settings quote lines c' payable (if b then ok 0 else carrier_cost quote lines c')
  unfolding carrier_cost free_delivery_threshold
  by_threshold c true e = inl (
    (carried_iff settings.novapost_free_delivery_from settings.free_delivery_from payable).0 e,
    refl,
  )
  by_threshold c false e = by_carrier c _ refl (λ free.
      let says =
        (carried_iff settings.novapost_free_delivery_from settings.free_delivery_from payable).1
          free in
      cc (says, e))

  shipping_cost-Shipping :
      (s : DeliveryService) (t : DeliveryType) (c : DeliveryChoice)
      → Holds (record c { service = s; delivery_type = t })
  unfolding delivery_cost
  shipping_cost-Shipping own pickup c = refl
  shipping_cost-Shipping own courier c = by_courier c courier (λ e. cc)
  shipping_cost-Shipping own branch c = by_courier c branch (λ e. cc)
  shipping_cost-Shipping own postomat c = by_courier c postomat (λ e. cc)
  shipping_cost-Shipping novapost t c =
      by_threshold (record c { delivery_type = t })
        (reaches (free_delivery_threshold settings novapost) payable) refl

Shipping-Quoted :
    (settings : Settings) (quote : CarrierQuote) (lines : List PricedLine) (discount : ℕ)
    (c : DeliveryChoice) (r : Result CheckoutError ℕ)
    → Shipping settings quote lines c (subtotal_of lines - discount) r
    → Quoted settings quote lines c discount (with_cost r lines c discount)
Shipping-Quoted settings quote lines discount c (ok cost) h =
    Quoted-totals_with settings quote lines discount c cost h
Shipping-Quoted settings quote lines discount c (err delivery_address_required) h = h
Shipping-Quoted settings quote lines discount c (err delivery_quote_unavailable) h = h
Shipping-Quoted settings quote lines discount c (err e) h = absurd h

-- A quote shows the lines' subtotal, the discount, a delivery cost by the rules of `ShipsBy`, and,
-- where the discount is at most the subtotal, their sum as the total. There is no quote only for our
-- courier without an address, and for a carrier that, asked with what the lines weigh, prices no
-- shipment below its threshold, which is the store-wide one where it has none.
pub quote_from_lines-Quoted :
    (settings : Settings) (quote : CarrierQuote) (lines : List PricedLine) (discount : ℕ)
    (c : DeliveryChoice)
    → Quoted settings quote lines c discount (quote_from_lines settings quote lines c discount)
unfolding quote_from_lines
quote_from_lines-Quoted settings quote lines discount c =
    Shipping-Quoted settings quote lines discount c _ (
      shipping_cost-Shipping settings quote lines (subtotal_of lines - discount) c.service
        c.delivery_type c)
