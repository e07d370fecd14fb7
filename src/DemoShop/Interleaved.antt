-- ===== src/DemoShop/Interleaved.antt =====
-- Checkouts that interleave: between what one reads and what it writes, others may read and write.
use infra_replay.Common.{
  ℕ, ◌+◌, ◌≤◌, String, ◌≡◌, refl, List, [], ◌∷◌, ◌++◌, arith, string_eq, Bool-cases, inl, inr,
}
use infra_replay.Common.Text.{joined, first_chars}
use infra_replay.DemoShop.{
  Reserve, Shop, Cart, Line, is_nil, is_declined, reserve_stock, reserve_atomic, subtotal_of,
  shipping_cents,
}
use infra_replay.DemoShop.Checkout.{Begun, begin_checkout, finish_checkout, order_rows, seeded}
use infra_replay.DemoShop.Stock.{
  is_nil-eq, stock_of, sold, line_qty, reserve_atomic-stock_of, sold-append,
}

-- The shop, and the checkouts that have read and not yet written.
pub record System : Type 0 where
  pub shop : Shop
  pub open_checkouts : List Begun

module _ (tax_of : ℕ → ℕ) (mode : Reserve) where
  pub data Step : System → System → Type 0 where
    reads :
        (handle : String) (cart : Cart) (s : System)
        → Step s
            (record s { open_checkouts = begin_checkout handle cart s.shop ∷ s.open_checkouts })
    writes :
        (hex : ℕ → String) (now : ℕ) (before : List Begun) (begun : Begun) (after : List Begun)
        (shop : Shop)
        → Step
            (record { shop = shop; open_checkouts = before ++ begun ∷ after })
            (record {
              shop = (finish_checkout tax_of hex mode begun now shop).1;
              open_checkouts = before ++ after;
            })

  pub data Reach (from : System) : System → Type 0 where
    here : Reach from from
    next : {mid to : System} → Reach from mid → Step mid to → Reach from to

-- For each SKU, what is left and what the orders hold make up `total`.
abbrev pub Balances : (String → ℕ) → Shop → Type 0
Balances total shop =
    (sku : String) → stock_of shop.inventory sku + sold shop.order_items sku ≡ total sku

sold-order_rows :
    (order_id : String) (lines : List Line) (sku : String)
    → sold (order_rows order_id lines) sku ≡ line_qty lines sku
unfolding sold line_qty
sold-order_rows order_id [] sku = refl
sold-order_rows order_id (l ∷ ls) sku = omega (arith, sold-order_rows order_id ls sku)

module _ (tax_of : ℕ → ℕ) (total : String → ℕ) where
  finish_checkout-Balances :
      (hex : ℕ → String) (begun : Begun) (now : ℕ) (shop : Shop)
      → Balances total shop
      → Balances total (finish_checkout tax_of hex Reserve.atomic begun now shop).1
  unfolding finish_checkout reserve_stock
  finish_checkout-Balances hex (Begun.refused answer) now shop h = h
  finish_checkout-Balances hex (Begun.priced user_id lines token) now shop h =
      elim (Bool-cases (is_nil (reserve_atomic lines shop.inventory).0)) [
        | inr short ↦ rw (short, finish_checkout) h
        | inl enough ↦
            let kept : Balances total (record shop {
              inventory = (reserve_atomic lines shop.inventory).1;
              order_items =
                  shop.order_items ++ order_rows (joined "ord_" (first_chars 12 (hex 0))) lines;
            }) =
              λ sku. omega (
                arith,
                h sku,
                reserve_atomic-stock_of lines shop.inventory sku (is_nil-eq _ enough),
                sold-append shop.order_items
                    (order_rows (joined "ord_" (first_chars 12 (hex 0))) lines) sku,
                sold-order_rows (joined "ord_" (first_chars 12 (hex 0))) lines sku,
              ) in
            elim (Bool-cases (
              is_declined (subtotal_of lines + shipping_cents + tax_of (subtotal_of lines))
                token)) [
                  | inl declined ↦ rw (enough, declined, finish_checkout) kept
                  | inr authorized ↦ rw (enough, authorized, finish_checkout) kept
                ]
      ]

  Step-Balances :
      {from to : System}
      → Step tax_of Reserve.atomic from to
      → Balances total from.shop
      → Balances total to.shop
  Step-Balances (Step.reads handle cart s) h = h
  Step-Balances (Step.writes hex now before begun after shop) h =
      finish_checkout-Balances hex begun now shop h

-- With the atomic reservation, however the checkouts interleave, what is left of an SKU and what the
-- orders hold of it are what the shop began with: a refused checkout takes nothing, and an order,
-- confirmed or declined, takes what its items say. So no SKU is sold beyond its stock.
pub Reach-Balances :
    (tax_of : ℕ → ℕ) (stock : ℕ) {s : System}
    → Reach tax_of Reserve.atomic (record { shop = seeded stock; open_checkouts = [] }) s
    → (sku : String)
    → (stock_of s.shop.inventory sku + sold s.shop.order_items sku
        ≡ stock_of (seeded stock).inventory sku)
      × (sold s.shop.order_items sku ≤ stock_of (seeded stock).inventory sku)
unfolding sold
Reach-Balances tax_of stock {s} path sku =
    let all = balance path in (all sku, omega (arith, all sku))
  where
    balance :
        {t : System}
        → Reach tax_of Reserve.atomic (record { shop = seeded stock; open_checkouts = [] }) t
        → Balances (stock_of (seeded stock).inventory) t.shop
    balance Reach.here = λ k. omega arith
    balance (Reach.next p step) =
        Step-Balances tax_of (stock_of (seeded stock).inventory) step (balance p)
