-- ===== src/Examples/Tests.antt =====
-- A shipment that commits, and a delivery of an order that was not shipped.
use ironstate.Prelude.{◌≡◌, refl, false, [], ◌∷◌, ok}
use ironstate.Aggregate.{Aggregate, from_state}
use ironstate.Testkit.{legal_hop}
use ironstate.Examples.Fixtures.{Entropy, ctx_entropy, ctx_at}
use ironstate.Examples.Outbox.{
  Store, order, placed, placed_phase, delivered, delivered_phase, deliver_command, decide,
  transition,
}
use ironstate.Examples.Shipping.{IsAtomic, ship-IsAtomic}

abbrev nothing_stored : Store
nothing_stored = record { records = []; read_model = []; outbox = [] }

abbrev first_order : Aggregate (order Entropy)
first_order = from_state placed

ship-IsAtomic_example :
    IsAtomic ctx_entropy nothing_stored "order-1" first_order "order-1" "Royal Mail"
      (ctx_at 4)
      false
ship-IsAtomic_example =
    ship-IsAtomic ctx_entropy nothing_stored "order-1" first_order "order-1" "Royal Mail" (ctx_at 4)
      false

-- A delivery is decided for a placed order, although its phase machine has no such hop.
delivers_unshipped : decide placed deliver_command ≡ ok (delivered ∷ [])
unfolding decide
delivers_unshipped = refl

no_such_hop : legal_hop (order Entropy) placed_phase delivered_phase ≡ false
unfolding legal_hop transition
no_such_hop = refl
