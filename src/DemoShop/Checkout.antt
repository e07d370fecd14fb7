-- ===== src/DemoShop/Checkout.antt =====
-- A checkout of the demo shop, cut where the other sessions can run: what it reads, up to its first
-- write, and what it writes, from there to its commit or rollback. The database keeps the writes of
-- two sessions apart.
use infra_replay.Common.{
  ℕ, suc, ◌+◌, String, Bool, true, false, Option, none, some, List, [], ◌∷◌, ◌++◌, map, ◌==◌,
  string_eq, if◌then◌else◌,
}
use infra_replay.Common.Text.{joined, first_chars}
use infra_replay.Schema.Value.{str, arr, obj, Items, nil, cons, Fields, end, field}
use infra_replay.DemoShop.{
  created, unauthorized, payment_required, conflict, shipping_cents, provider, Reserve, User,
  Inventory, Order, OrderItem, Payment, Shop, Cart, Line, Answer, number, texts, text_or_none,
  is_nil, find_user, price, reserve_stock, subtotal_of, is_declined,
}

-- The request that a checkout has read for, or the answer that it has at once.
pub data Begun : Type 0 where
  refused : Answer → Begun
  priced : String → List Line → Option String → Begun

-- `checkout` up to its first write.
unfoldable pub begin_checkout : String → Cart → Shop → Begun
unfolding find_user price
begin_checkout handle cart shop = elim (find_user shop.users handle) [
  | none ↦ Begun.refused (record {
    status = unauthorized;
    body = field "error" (str "unknown_user") (field "handle" (str handle) end);
  })
  | some user ↦
      let (lines, missing) = price shop.inventory cart.items in
      if is_nil missing
      then Begun.priced user.id lines cart.token
      else Begun.refused (record {
        status = conflict;
        body = field "error" (str "unknown_sku") (field "skus" (arr (texts missing)) end);
      })
]

-- `_confirmed_body`
unfoldable pub line_items : List Line → Items
line_items [] = nil
line_items (line ∷ lines) =
    cons
      (obj (
        field "sku" (str line.sku) (
          field "name" (str line.name)
            (field "qty" (number line.qty) (field "unit_cents" (number line.unit_cents) end)))))
      (line_items lines)

unfoldable pub confirmed_body : String → List Line → ℕ → ℕ → ℕ → Payment → Fields
unfolding line_items
confirmed_body order_id lines subtotal tax total payment = field "order_id" (str order_id) (
    field "status" (str "confirmed") (
      field "currency" (str "GBP") (
        field "totals"
          (obj (
            field "subtotal_cents" (number subtotal) (
              field "shipping_cents" (number shipping_cents)
                (field "tax_cents" (number tax) (field "grand_total_cents" (number total) end)))))
          (field "payment"
            (obj (
              field "state" (str payment.state) (
                field "provider" (str payment.provider)
                  (field "reference" (text_or_none payment.reference) end))))
            (field "line_items" (arr (line_items lines)) end)))))

-- `_declined_body`
unfoldable pub declined_body : String → Payment → Fields
declined_body order_id payment = field "type" (str "https://demo.shop/errors/payment-declined") (
    field "title" (str "Payment was declined") (
      field "status" (number payment_required) (
        field "order_id" (str order_id) (
          field "payment"
            (obj (
              field "state" (str payment.state) (
                field "provider" (str payment.provider)
                  (field "decline_code" (text_or_none payment.decline_code) end))))
            end))))

unfoldable pub out_of_stock : String → List String → Answer
out_of_stock order_id short = record {
  status = conflict;
  body =
      field "error" (str "out_of_stock")
        (field "skus" (arr (texts short)) (field "order_id" (str order_id) end));
}

-- The row of an order after `UPDATE orders SET status = 'confirmed' WHERE id = …`.
unfoldable pub confirm : List Order → String → List Order
confirm [] id = []
confirm (o ∷ os) id =
    if o.id == id then record o { status = "confirmed" } ∷ confirm os id else o ∷ confirm os id

abbrev pub order_rows : String → List Line → List OrderItem
order_rows order_id = map (λ (line : Line). record {
  order_id = order_id;
  sku = line.sku;
  qty = line.qty;
  unit_cents = line.unit_cents;
})

module _ (tax_of : ℕ → ℕ) (hex : ℕ → String) where
  -- `_authorize`
  unfoldable pub authorize : String → ℕ → Option String → Payment
  unfolding is_declined
  authorize order_id total_cents token =
      let declined = is_declined total_cents token in
      record {
        id = joined "pay_" (first_chars 12 (hex 1));
        order_id = order_id;
        provider = provider;
        state = if declined then "declined" else "authorized";
        amount_cents = total_cents;
        reference = if declined then none else some (joined "pi_" (first_chars 14 (hex 2)));
        decline_code = if declined then some "insufficient_funds" else none;
      }

  -- `checkout` from its first write on, at the time `now`.
  unfoldable pub finish_checkout : Reserve → Begun → ℕ → Shop → Answer × Shop
  unfolding reserve_stock out_of_stock authorize is_declined confirm declined_body confirmed_body
  finish_checkout mode (Begun.refused answer) now shop = (answer, shop)
  finish_checkout mode (Begun.priced user_id lines token) now shop =
      let subtotal = subtotal_of lines in
      let tax = tax_of subtotal in
      let total = subtotal + shipping_cents + tax in
      let order_id = joined "ord_" (first_chars 12 (hex 0)) in
      let pending : Order = record {
        id = order_id;
        user_id = user_id;
        status = "pending";
        total_cents = total;
        created_at = now;
      } in
      let (short, inventory) = reserve_stock mode lines shop.inventory in
      let payment = authorize order_id total token in
      let bought : Shop = record shop {
        inventory = inventory;
        orders = shop.orders ++ pending ∷ [];
        order_items = shop.order_items ++ order_rows order_id lines;
        payments = shop.payments ++ payment ∷ [];
      } in
      if is_nil short
      then (if is_declined total token
          then (record { status = payment_required; body = declined_body order_id payment }, bought)
          else (
            record {
              status = created;
              body = confirmed_body order_id lines subtotal tax total payment;
            },
            record bought { orders = confirm (shop.orders ++ pending ∷ []) order_id },
          ))
      else (out_of_stock order_id short, shop)

  -- `checkout` with no other session in between.
  unfoldable pub checkout : Reserve → String → Cart → ℕ → Shop → Answer × Shop
  unfolding begin_checkout finish_checkout
  checkout mode handle cart now shop =
      finish_checkout mode (begin_checkout handle cart shop) now shop

abbrev pub seed_user : User
seed_user = record {
  id = "usr_4a1c8e";
  email = "dana.lang@example.com";
  name = "Dana Lang";
  handle = "dana";
}

abbrev seed_inventory : ℕ → List Inventory
seed_inventory stock =
    record { sku = "AEROPRESS-GO"; name = "AeroPress Go"; unit_cents = 3999; available = stock }
    ∷ record {
      sku = "FILTER-350";
      name = "Micro-filters (350 pack)";
      unit_cents = 899;
      available = stock;
    }
    ∷ []

abbrev pub seeded : ℕ → Shop
seeded stock = record {
  users = seed_user ∷ [];
  inventory = seed_inventory stock;
  orders = [];
  order_items = [];
  payments = [];
}

-- `_seed` with `wipe`, and without it on a shop whose other tables are empty or whose inventory is
-- not.
unfoldable pub seed : ℕ → Bool → Shop → Shop
seed stock true shop = seeded stock
seed stock false shop =
    if is_nil shop.inventory
    then record shop { users = shop.users ++ seed_user ∷ []; inventory = seed_inventory stock }
    else shop

-- `create_checkout`: the answer to a request with this user header, or none.
unfoldable pub create_checkout :
    (ℕ → ℕ) → (ℕ → String) → Reserve → Option String → Cart → ℕ → Shop → Answer × Shop
unfolding checkout
create_checkout tax_of hex mode header cart now shop =
    if handle_of header == ""
    then (
      record {
        status = unauthorized;
        body = field "error" (str "missing_user_header") (field "header" (str "x-demo-user") end);
      },
      shop,
    )
    else checkout tax_of hex mode (handle_of header) cart now shop
  where
    handle_of : Option String → String
    handle_of none = ""
    handle_of (some s) = s

-- `orders`: the confirmed orders, and the stock that is left.
unfoldable pub orders_and_stock : Shop → ℕ × ℕ
orders_and_stock shop = (confirmed shop.orders, left shop.inventory)
  where
    confirmed : List Order → ℕ
    confirmed [] = 0
    confirmed (o ∷ os) = if o.status == "confirmed" then suc (confirmed os) else confirmed os

    left : List Inventory → ℕ
    left [] = 0
    left (r ∷ rs) = r.available + left rs
