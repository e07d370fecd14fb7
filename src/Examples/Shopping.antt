-- ===== src/Examples/Shopping.antt =====
-- Checkouts of the demo shop: two that run at the same time, and one alone.
use infra_replay.Common.{ℕ, ◌+◌, ◌≤◌, String, ◌≡◌, refl, none, some, [], ◌∷◌, map}
use infra_replay.DemoShop.{Reserve, Shop, Cart}
use infra_replay.DemoShop.Checkout.{begin_checkout, finish_checkout, checkout, seeded}
use infra_replay.DemoShop.Stock.{stock_of, sold}
use infra_replay.DemoShop.Interleaved.{System, Step, Reach, Reach-Balances}
use infra_replay.DemoShop.Alone.{checkout_alone}

-- The tax is left out.
abbrev no_tax : ℕ → ℕ
no_tax subtotal = 0

abbrev hex_a : ℕ → String
hex_a n = "aaaaaaaaaaaaaaaaaaaa"

abbrev hex_b : ℕ → String
hex_b n = "bbbbbbbbbbbbbbbbbbbb"

abbrev cart : Cart
cart = record {
  items =
      record { sku = "AEROPRESS-GO"; qty = none }
      ∷ record { sku = "FILTER-350"; qty = some 1 }
      ∷ [];
  token = some "tok_visa";
}

abbrev opened : System
opened = record { shop = seeded 1; open_checkouts = [] }

module _ (mode : Reserve) where
  abbrev first_paid : Shop
  first_paid =
      (finish_checkout no_tax hex_a mode (begin_checkout "dana" cart (seeded 1)) 7 (seeded 1)).1

  -- Both checkouts read before either writes.
  abbrev both_paid : System
  both_paid = record {
    shop =
        (finish_checkout no_tax hex_b mode (begin_checkout "dana" cart (seeded 1)) 8 first_paid).1;
    open_checkouts = [];
  }

  abbrev both : Reach no_tax mode opened both_paid
  both =
      Reach.next
        (Reach.next
          (Reach.next (Reach.next Reach.here (Step.reads "dana" cart opened)) (
            Step.reads "dana" cart
              (record opened { open_checkouts = begin_checkout "dana" cart (seeded 1) ∷ [] })))
          (Step.writes hex_a 7 [] (begin_checkout "dana" cart (seeded 1))
            (begin_checkout "dana" cart (seeded 1) ∷ []) (seeded 1)))
        (Step.writes hex_b 8 [] (begin_checkout "dana" cart (seeded 1)) [] first_paid)

-- Without the atomic reservation the one AeroPress is sold twice.
sold_twice :
    (stock_of (both_paid Reserve.read_then_write).shop.inventory "AEROPRESS-GO" ≡ 0)
    × (sold (both_paid Reserve.read_then_write).shop.order_items "AEROPRESS-GO" ≡ 2)
unfolding begin_checkout finish_checkout stock_of sold
sold_twice = (refl, refl)

sold_once :
    (stock_of (both_paid Reserve.atomic).shop.inventory "AEROPRESS-GO" ≡ 0)
    × (sold (both_paid Reserve.atomic).shop.order_items "AEROPRESS-GO" ≡ 1)
unfolding begin_checkout finish_checkout stock_of sold
sold_once = (refl, refl)

-- A declined payment keeps what it took.
declined_keeps :
    let after : Shop =
      (checkout no_tax hex_a Reserve.atomic "dana"
        (record cart { token = some "tok_decline" })
        7
        (seeded 1)).1 in
    (stock_of after.inventory "AEROPRESS-GO" ≡ 0)
    × (map (λ p. p.state) after.payments ≡ "declined" ∷ [])
    × (map (λ o. o.status) after.orders ≡ "pending" ∷ [])
unfolding checkout stock_of
declined_keeps = (refl, refl, refl)

Reach-Balances_example :
    (stock_of (both_paid Reserve.atomic).shop.inventory "AEROPRESS-GO"
        + sold (both_paid Reserve.atomic).shop.order_items "AEROPRESS-GO"
      ≡ stock_of (seeded 1).inventory "AEROPRESS-GO")
    × (sold (both_paid Reserve.atomic).shop.order_items "AEROPRESS-GO"
        ≤ stock_of (seeded 1).inventory "AEROPRESS-GO")
Reach-Balances_example = Reach-Balances no_tax 1 (both Reserve.atomic) "AEROPRESS-GO"

checkout_alone_example :
    checkout no_tax hex_a Reserve.read_then_write "dana" cart 7 (seeded 1)
    ≡ checkout no_tax hex_a Reserve.atomic "dana" cart 7 (seeded 1)
checkout_alone_example = checkout_alone no_tax hex_a "dana" cart 7 (seeded 1) ((refl, tt), (tt, tt))
