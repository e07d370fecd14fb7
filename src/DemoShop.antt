-- ===== src/DemoShop.antt =====
-- The shop that the demo records: examples/demo_shop/store.py, models.py and app.py.
-- A quantity in a cart is a natural number. `tax_of` is `int(subtotal * TAX_RATE)`, which is
-- computed in floating point, and `hex` answers the n-th call of `uuid4().hex`.
pub mod Checkout
pub mod Routes
pub mod Stock
pub mod Interleaved
pub mod Alone
use infra_replay.Common.{
  ℕ, zero, suc, ◌+◌, ◌-◌, ◌*◌, String, Bool, true, false, ◌||◌, Option, none, some, List, [], ◌∷◌,
  ◌++◌, map, select, leb, ltb, ◌==◌, string_eq, if◌then◌else◌,
}
use infra_replay.Common.Text.{codes, starts_with, joined, first_chars}
use infra_replay.Schema.Value.{
  ℤ, Value, null, int, str, arr, obj, Items, nil, cons, Fields, end, field,
}

abbrev pub created : ℕ
created = 201

abbrev pub unauthorized : ℕ
unauthorized = 401

abbrev pub payment_required : ℕ
payment_required = 402

abbrev pub conflict : ℕ
conflict = 409

abbrev pub shipping_cents : ℕ
shipping_cents = 500

abbrev payment_limit_cents : ℕ
payment_limit_cents = 50000

abbrev decline_prefix : String
decline_prefix = "tok_decline"

abbrev pub provider : String
provider = "stripe"

pub data Reserve : Type 0 where
  read_then_write atomic : Reserve

pub record User : Type 0 where
  pub id : String
  pub email : String
  pub name : String
  pub handle : String

pub record Inventory : Type 0 where
  pub sku : String
  pub name : String
  pub unit_cents : ℕ
  pub available : ℕ

pub record Order : Type 0 where
  pub id : String
  pub user_id : String
  pub status : String
  pub total_cents : ℕ
  pub created_at : ℕ

-- The rows of a table without a key of their own stand in the order of their ids.
pub record OrderItem : Type 0 where
  pub order_id : String
  pub sku : String
  pub qty : ℕ
  pub unit_cents : ℕ

pub record Payment : Type 0 where
  pub id : String
  pub order_id : String
  pub provider : String
  pub state : String
  pub amount_cents : ℕ
  pub reference : Option String
  pub decline_code : Option String

pub record Shop : Type 0 where
  pub users : List User
  pub inventory : List Inventory
  pub orders : List Order
  pub order_items : List OrderItem
  pub payments : List Payment

-- What `checkout` reads of a request's body.
pub record CartItem : Type 0 where
  pub sku : String
  pub qty : Option ℕ

pub record Cart : Type 0 where
  pub items : List CartItem
  pub token : Option String

pub record Line : Type 0 where
  pub sku : String
  pub name : String
  pub qty : ℕ
  pub unit_cents : ℕ
  pub available_seen : ℕ

-- A status and a body.
pub record Answer : Type 0 where
  pub status : ℕ
  pub body : Fields

abbrev pub number : ℕ → Value
number n = int (ℤ.pos n)

abbrev pub texts : List String → Items
texts [] = nil
texts (s ∷ ss) = cons (str s) (texts ss)

abbrev pub text_or_none : Option String → Value
text_or_none none = null
text_or_none (some s) = str s

abbrev pub is_nil {ℓ} : {A : Type ℓ} → List A → Bool
is_nil [] = true
is_nil (x ∷ xs) = false

unfoldable pub find_user : List User → String → Option User
find_user [] handle = none
find_user (u ∷ us) handle = if u.handle == handle then some u else find_user us handle

unfoldable pub find_item : List Inventory → String → Option Inventory
find_item [] sku = none
find_item (r ∷ rs) sku = if r.sku == sku then some r else find_item rs sku

abbrev or_one : Option ℕ → ℕ
or_one none = 1
or_one (some n) = n

-- `_price`: the lines, and the unknown SKUs.
unfoldable pub price : List Inventory → List CartItem → List Line × List String
unfolding find_item
price table [] = ([], [])
price table (item ∷ items) =
    let (lines, missing) = price table items in
    elim (find_item table item.sku) [
      | none ↦ (lines, item.sku ∷ missing)
      | some row ↦ (
        record {
          sku = row.sku;
          name = row.name;
          qty = or_one item.qty;
          unit_cents = row.unit_cents;
          available_seen = row.available;
        }
            ∷ lines,
        missing,
      )
    ]

-- UPDATE inventory SET available = available - qty WHERE sku = … AND available >= qty; none if it
-- matches no row.
unfoldable pub take_stock : List Inventory → String → ℕ → Option (List Inventory)
take_stock [] sku qty = none
take_stock (r ∷ rs) sku qty =
    let rest = take_stock rs sku qty in
    if r.sku == sku
    then (if leb qty r.available
        then some (record r { available = r.available - qty } ∷ rs)
        else none)
    else elim rest [ none ↦ none | some table ↦ some (r ∷ table) ]

-- `_reserve_atomic`: the SKUs that are short, and the table.
unfoldable pub reserve_atomic : List Line → List Inventory → List String × List Inventory
unfolding take_stock
reserve_atomic [] table = ([], table)
reserve_atomic (line ∷ lines) table = elim (take_stock table line.sku line.qty) [
  | none ↦ let (short, after) = reserve_atomic lines table in (line.sku ∷ short, after)
  | some now ↦ reserve_atomic lines now
]

-- UPDATE inventory SET available = … WHERE sku = …
unfoldable pub write_stock : List Inventory → String → ℕ → List Inventory
write_stock [] sku available = []
write_stock (r ∷ rs) sku available =
    if r.sku == sku
    then record r { available = available } ∷ rs
    else r ∷ write_stock rs sku available

unfoldable pub write_all : List Line → List Inventory → List Inventory
unfolding write_stock
write_all [] table = table
write_all (line ∷ lines) table =
    write_all lines (write_stock table line.sku (line.available_seen - line.qty))

unfoldable pub short_of : List Line → List String
short_of [] = []
short_of (line ∷ lines) =
    if ltb line.available_seen line.qty then line.sku ∷ short_of lines else short_of lines

-- `_reserve_read_then_write`
unfoldable pub reserve_read_then_write : List Line → List Inventory → List String × List Inventory
unfolding short_of write_all
reserve_read_then_write lines table =
    if is_nil (short_of lines) then ([], write_all lines table) else (short_of lines, table)

-- `_reserve`
unfoldable pub reserve_stock : Reserve → List Line → List Inventory → List String × List Inventory
unfolding reserve_atomic reserve_read_then_write
reserve_stock Reserve.atomic lines table = reserve_atomic lines table
reserve_stock Reserve.read_then_write lines table = reserve_read_then_write lines table

abbrev or_empty : Option String → String
or_empty none = ""
or_empty (some s) = s

abbrev pub subtotal_of : List Line → ℕ
subtotal_of [] = 0
subtotal_of (line ∷ lines) = line.qty * line.unit_cents + subtotal_of lines

-- The test of `_authorize`.
unfoldable pub is_declined : ℕ → Option String → Bool
unfolding starts_with
is_declined total_cents token =
    ltb payment_limit_cents total_cents
    || starts_with (codes (or_empty token)) (codes decline_prefix)
