-- ===== src/DemoShop/Routes.antt =====
-- The other routes of examples/demo_shop/app.py.
use infra_replay.Common.{
  ℕ, String, Option, none, some, ◌==◌, string_eq, if◌then◌else◌, true, List, [], ◌∷◌,
}
use infra_replay.Schema.Value.{ℤ, Value, bool, int, str, obj, Items, nil, cons, Fields, end, field}
use infra_replay.DemoShop.{Reserve, Inventory, Shop}
use infra_replay.DemoShop.Checkout.{seed, orders_and_stock}

-- `Reserve.value`
abbrev pub reserve_value : Reserve → String
reserve_value Reserve.read_then_write = "read_then_write"
reserve_value Reserve.atomic = "atomic"

-- `health`, in the mode that reserve_mode reads.
unfoldable pub health : Reserve → Fields
health mode = field "status" (str "ok") (field "reserve" (str (reserve_value mode)) end)

abbrev inventory_row : Inventory → Value
inventory_row r = obj (
    field "sku" (str r.sku) (
      field "name" (str r.name) (
        field "unit_cents" (int (ℤ.pos r.unit_cents))
          (field "available" (int (ℤ.pos r.available)) end))))

-- `inventory`, in the order in which the table is read.
unfoldable pub inventory : List Inventory → Items
inventory [] = nil
inventory (r ∷ rows) = cons (inventory_row r) (inventory rows)

-- `orders`, of a shop with an inventory, as the sum of no rows is None.
unfoldable pub orders : Shop → Fields
unfolding orders_and_stock
orders shop =
    let (confirmed, stock) = orders_and_stock shop in
    field "confirmed_orders" (int (ℤ.pos confirmed)) (field "stock_left" (int (ℤ.pos stock)) end)

-- `reset`
unfoldable pub reset : Reserve → ℕ → Shop → Fields × Shop
unfolding seed
reset mode stock shop = (
  field "reset" (bool true)
      (field "stock" (int (ℤ.pos stock)) (field "reserve" (str (reserve_value mode)) end)),
  seed stock true shop,
)

-- `reserve_mode`, of DEMO_SHOP_LOCK_INVENTORY.
unfoldable pub reserve_mode : Option String → Reserve
reserve_mode none = Reserve.read_then_write
reserve_mode (some value) = if value == "1" then Reserve.atomic else Reserve.read_then_write
