-- ===== src/DemoShop/Alone.antt =====
-- A checkout that runs alone: the two ways to reserve do the same.
use mathlib.Core.List.{cons-ne-nil}
use mathlib.Core.Option.{some-injective, none-ne-some}
use infra_replay.Common.{
  ℕ, ◌-◌, String, ◌≡◌, refl, sym, ap, subst, ◌∙◌, true, false, Option, none, some, List, [], ◌∷◌,
  arith, leb, ltb, All, ◌==◌, string_eq, if◌then◌else◌, Bool-cases, Option-cases, inl, inr,
}
use infra_replay.DemoShop.{
  Reserve, Shop, Inventory, Cart, CartItem, Line, is_nil, find_item, find_user, price, take_stock,
  reserve_atomic, write_stock, write_all, short_of, reserve_read_then_write, reserve_stock,
}
use infra_replay.DemoShop.Stock.{is_nil-eq}
use infra_replay.DemoShop.Checkout.{Begun, begin_checkout, finish_checkout, checkout}

-- What a line has seen is what the table holds.
abbrev IsSeen : List Inventory → Line → Type 0
IsSeen table l =
    (r : Inventory) × (find_item table l.sku ≡ some r) × (r.available ≡ l.available_seen)

-- No SKU stands in two lines.
abbrev HasDistinctSkus : List Line → Type 0
HasDistinctSkus [] = Unit
HasDistinctSkus (l ∷ ls) = All (λ m. (l.sku == m.sku) ≡ false) ls × HasDistinctSkus ls

-- A cart that names each SKU once.
abbrev pub NamesOnce : List CartItem → Type 0
NamesOnce [] = Unit
NamesOnce (i ∷ is) = All (λ (j : CartItem). (i.sku == j.sku) ≡ false) is × NamesOnce is

-- The atomic UPDATE, by the row that it finds.
take_stock-found :
    (table : List Inventory) (sku : String) (qty : ℕ) (r : Inventory)
    → find_item table sku ≡ some r
    → take_stock table sku qty
      ≡ (if leb qty r.available then some (write_stock table sku (r.available - qty)) else none)
unfolding find_item take_stock write_stock
take_stock-found [] sku qty r h = absurd (none-ne-some _ h)
take_stock-found (s ∷ rs) sku qty r h = elim (Bool-cases (s.sku == sku)) [
  | inl hit ↦
      let same : some s ≡ some r = rw hit at h in
      subst
        (λ (x : Inventory). take_stock (s ∷ rs) sku qty ≡ (
          if leb qty x.available
          then some (write_stock (s ∷ rs) sku (x.available - qty))
          else none))
        (some-injective _ _ same) (rw hit refl)
  | inr miss ↦
      let rest : find_item rs sku ≡ some r = rw miss at h in
      elim (Bool-cases (leb qty r.available)) [
        | inl enough ↦ rw (miss, take_stock-found rs sku qty r rest, enough) refl
        | inr short ↦ rw (miss, take_stock-found rs sku qty r rest, short) refl
      ]
]

find_item-write_stock :
    (table : List Inventory) (sku other : String) (n : ℕ)
    → (sku == other) ≡ false
    → find_item (write_stock table sku n) other ≡ find_item table other
unfolding find_item write_stock
find_item-write_stock [] sku other n h = refl
find_item-write_stock (r ∷ rs) sku other n h = elim (Bool-cases (r.sku == sku)) [
  | inl hit ↦
      let miss : (r.sku == other) ≡ false =
        ap (λ x. x == other) ((string_eq.beq_iff r.sku sku).0 hit) ∙ h in
      rw (hit, miss) refl
  | inr other_row ↦ elim (Bool-cases (r.sku == other)) [
    | inl there ↦ rw (other_row, there) refl
    | inr gone ↦ rw (other_row, gone) (find_item-write_stock rs sku other n h)
  ]
]

-- What the other lines have seen stays so after a line has been written.
write_stock-IsSeen :
    (table : List Inventory) (l : Line) (n : ℕ) (ls : List Line)
    → All (λ m. (l.sku == m.sku) ≡ false) ls
    → All (IsSeen table) ls
    → All (IsSeen (write_stock table l.sku n)) ls
write_stock-IsSeen table l n [] d h = tt
write_stock-IsSeen table l n (m ∷ ms) d h =
    let (r, found, seen) = h.0 in
    (
      (r, find_item-write_stock table l.sku m.sku n d.0 ∙ found, seen),
      write_stock-IsSeen table l n ms d.1 h.1,
    )

-- The atomic reservation finds the same SKUs short, and writes the same rows if none is.
reserve_atomic-seen :
    (lines : List Line) (table : List Inventory)
    → HasDistinctSkus lines
    → All (IsSeen table) lines
    → ((reserve_atomic lines table).0 ≡ short_of lines)
      × (short_of lines ≡ [] → (reserve_atomic lines table).1 ≡ write_all lines table)
unfolding reserve_atomic short_of write_all
reserve_atomic-seen [] table d h = (refl, λ p. refl)
reserve_atomic-seen (l ∷ ls) table d h =
    let (r, found, seen) = h.0 in
    elim (Bool-cases (ltb l.available_seen l.qty)) [
      | inl short ↦
          let few : leb l.qty r.available ≡ false = ground (arith, seen, short) in
          let none_left : take_stock table l.sku l.qty ≡ none =
            take_stock-found table l.sku l.qty r found ∙ rw few refl in
          let ih = reserve_atomic-seen ls table d.1 h.1 in
          rw (none_left, short, reserve_atomic)
            (ap (◌∷◌ l.sku) ih.0, λ p. absurd (cons-ne-nil _ _ p))
      | inr enough ↦
          let many : leb l.qty r.available ≡ true = ground (arith, seen, enough) in
          let now = write_stock table l.sku (l.available_seen - l.qty) in
          let taken : take_stock table l.sku l.qty ≡ some now =
            take_stock-found table l.sku l.qty r found ∙ rw (many, seen) refl in
          let ih =
            reserve_atomic-seen ls now d.1
              (write_stock-IsSeen table l (l.available_seen - l.qty) ls d.0 h.1) in
          rw (taken, enough, reserve_atomic) ih
    ]

find_item-sku :
    (table : List Inventory) (sku : String) (r : Inventory)
    → find_item table sku ≡ some r
    → r.sku ≡ sku
unfolding find_item
find_item-sku [] sku r h = absurd (none-ne-some _ h)
find_item-sku (s ∷ rs) sku r h = elim (Bool-cases (s.sku == sku)) [
  | inl hit ↦
      let same : some s ≡ some r = rw hit at h in
      sym (ap (λ (x : Inventory). x.sku) (some-injective _ _ same))
      ∙ (string_eq.beq_iff s.sku sku).0 hit
  | inr miss ↦ let rest : find_item rs sku ≡ some r = rw miss at h in find_item-sku rs sku r rest
]

-- The lines that have just been priced are what the table holds, one for each item.
price-IsSeen :
    (table : List Inventory) (items : List CartItem) → All (IsSeen table) (price table items).0
unfolding price find_item
price-IsSeen table [] = tt
price-IsSeen table (i ∷ is) = elim (Option-cases (find_item table i.sku)) [
  | inl absent ↦ rw (absent, price) (price-IsSeen table is)
  | inr (r, found) ↦
      rw (found, price)
        (
          (
            r,
            subst (λ k. find_item table k ≡ some r) (sym (find_item-sku table i.sku r found)) found,
            refl,
          ),
          price-IsSeen table is,
        )
]

price-All :
    (P : String → Type 0) (table : List Inventory) (items : List CartItem)
    → All (λ (i : CartItem). P i.sku) items
    → All (λ (l : Line). P l.sku) (price table items).0
unfolding price
price-All P table [] h = tt
price-All P table (i ∷ is) h = elim (Option-cases (find_item table i.sku)) [
  | inl absent ↦ rw (absent, price) (price-All P table is h.1)
  | inr (r, found) ↦
      rw (found, price)
        (subst P (sym (find_item-sku table i.sku r found)) h.0, price-All P table is h.1)
]

price-HasDistinctSkus :
    (table : List Inventory) (items : List CartItem)
    → NamesOnce items
    → HasDistinctSkus (price table items).0
unfolding price
price-HasDistinctSkus table [] h = tt
price-HasDistinctSkus table (i ∷ is) h = elim (Option-cases (find_item table i.sku)) [
  | inl absent ↦ rw (absent, price) (price-HasDistinctSkus table is h.1)
  | inr (r, found) ↦
      rw (found, price)
        (
          price-All (λ k. (r.sku == k) ≡ false) table is
              (subst (λ k. All (λ (j : CartItem). (k == j.sku) ≡ false) is)
                (sym (find_item-sku table i.sku r found)) h.0),
          price-HasDistinctSkus table is h.1,
        )
]

module _ (tax_of : ℕ → ℕ) (hex : ℕ → String) where
  finish_checkout-alone :
      (user_id : String) (lines : List Line) (token : Option String) (now : ℕ) (shop : Shop)
      → HasDistinctSkus lines
      → All (IsSeen shop.inventory) lines
      → finish_checkout tax_of hex Reserve.read_then_write
          (Begun.priced user_id lines token)
          now
          shop
        ≡ finish_checkout tax_of hex Reserve.atomic (Begun.priced user_id lines token) now shop
  unfolding finish_checkout reserve_stock reserve_read_then_write
  finish_checkout-alone user_id lines token now shop d h =
      let (same, written) = reserve_atomic-seen lines shop.inventory d h in
      elim (Bool-cases (is_nil (short_of lines))) [
        | inl enough ↦
            let none_short = is_nil-eq (short_of lines) enough in
            let table = written none_short in
            rw (enough, finish_checkout) (rw (same, none_short, table, finish_checkout) refl)
        | inr few ↦ rw (few, few, finish_checkout) (rw (same, few, finish_checkout) refl)
      ]

  -- With no other session in between, reading the stock and writing it back does what the atomic
  -- reservation does, answer and tables, for a cart that names each SKU once.
  pub checkout_alone :
      (handle : String) (cart : Cart) (now : ℕ) (shop : Shop)
      → NamesOnce cart.items
      → checkout tax_of hex Reserve.read_then_write handle cart now shop
        ≡ checkout tax_of hex Reserve.atomic handle cart now shop
  unfolding checkout begin_checkout finish_checkout
  checkout_alone handle cart now shop once = elim (Option-cases (find_user shop.users handle)) [
    | inl unknown ↦ rw (unknown, finish_checkout) refl
    | inr (user, known) ↦ elim (Bool-cases (is_nil (price shop.inventory cart.items).1)) [
      | inl complete ↦
          let lines = (price shop.inventory cart.items).0 in
          let begun : begin_checkout handle cart shop ≡ Begun.priced user.id lines cart.token =
            rw (known, complete, begin_checkout) refl in
          subst Same (sym begun) (
            finish_checkout-alone user.id lines cart.token now shop
              (price-HasDistinctSkus shop.inventory cart.items once)
              (price-IsSeen shop.inventory cart.items))
      | inr missing ↦ rw (known, begin_checkout) (rw (missing, begin_checkout) refl)
    ]
  ]
    where
      Same : Begun → Type 0
      Same b =
          finish_checkout tax_of hex Reserve.read_then_write b now shop
          ≡ finish_checkout tax_of hex Reserve.atomic b now shop
