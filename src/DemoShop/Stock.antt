-- ===== src/DemoShop/Stock.antt =====
-- What a reservation takes from the stock.
use mathlib.Core.List.{cons-ne-nil}
use mathlib.Core.Option.{some-injective, none-ne-some}
use infra_replay.Common.{
  ℕ, ◌+◌, ◌-◌, String, ◌≡◌, refl, subst, true, none, some, List, [], ◌∷◌, ◌++◌, arith, leb, ◌==◌,
  string_eq, if◌then◌else◌, Bool-cases, Option-cases, inl, inr,
}
use infra_replay.DemoShop.{Inventory, OrderItem, Line, is_nil, take_stock, reserve_atomic}

-- The stock of an SKU, and how much of it the orders hold.
unfoldable pub stock_of : List Inventory → String → ℕ
stock_of [] sku = 0
stock_of (r ∷ rs) sku = if r.sku == sku then r.available else stock_of rs sku

unfoldable pub sold : List OrderItem → String → ℕ
sold [] sku = 0
sold (i ∷ is) sku = (if i.sku == sku then i.qty else 0) + sold is sku

unfoldable pub line_qty : List Line → String → ℕ
line_qty [] sku = 0
line_qty (l ∷ ls) sku = (if l.sku == sku then l.qty else 0) + line_qty ls sku

pub is_nil-eq : {A : Type 0} (xs : List A) → is_nil xs ≡ true → xs ≡ []
is_nil-eq [] h = refl
is_nil-eq (x ∷ xs) h = absurd (ground arith)

pub take_stock-stock_of :
    (table : List Inventory) (k : String) (qty : ℕ) (after : List Inventory) (sku : String)
    → take_stock table k qty ≡ some after
    → stock_of table sku ≡ stock_of after sku + (if k == sku then qty else 0)
unfolding take_stock stock_of
take_stock-stock_of [] k qty after sku h = absurd (none-ne-some _ h)
take_stock-stock_of (r ∷ rs) k qty after sku h = elim (Bool-cases (r.sku == k)) [
  | inl hit ↦ elim (Bool-cases (leb qty r.available)) [
    | inl enough ↦
        let same : some (record r { available = r.available - qty } ∷ rs) ≡ some after =
          rw (hit, enough) at h in
        let name : r.sku ≡ k = (string_eq.beq_iff r.sku k).0 hit in
        subst (λ t. stock_of (r ∷ rs) sku ≡ stock_of t sku + (if k == sku then qty else 0))
          (some-injective _ _ same)
          (elim (Bool-cases (k == sku)) [
            | inl asked ↦ rw (name, asked) (ground arith)
            | inr other ↦ rw (name, other) (ground arith)
          ])
    | inr short ↦
        let broken : none ≡ some after = rw (hit, short) at h in absurd (none-ne-some _ broken)
  ]
  | inr miss ↦ elim (Option-cases (take_stock rs k qty)) [
    | inl bad ↦
        let broken : none ≡ some after = rw (miss, bad) at h in absurd (none-ne-some _ broken)
    | inr (rest, ok) ↦
        let same : some (r ∷ rest) ≡ some after = rw (miss, ok) at h in
        subst (λ t. stock_of (r ∷ rs) sku ≡ stock_of t sku + (if k == sku then qty else 0))
          (some-injective _ _ same)
          (ground (
            arith,
            take_stock-stock_of rs k qty rest sku ok,
            string_eq.beq_iff r.sku sku,
            string_eq.beq_iff k sku,
            string_eq.beq_iff r.sku k,
          ))
  ]
]

pub reserve_atomic-stock_of :
    (lines : List Line) (table : List Inventory) (sku : String)
    → (reserve_atomic lines table).0 ≡ []
    → stock_of table sku ≡ stock_of (reserve_atomic lines table).1 sku + line_qty lines sku
unfolding reserve_atomic line_qty
reserve_atomic-stock_of [] table sku h = omega arith
reserve_atomic-stock_of (l ∷ ls) table sku h = elim (Option-cases (take_stock table l.sku l.qty)) [
  | inl bad ↦
      let broken : l.sku ∷ (reserve_atomic ls table).0 ≡ [] = rw (bad, reserve_atomic) at h in
      absurd (cons-ne-nil _ _ broken)
  | inr (now, ok) ↦
      let rest : (reserve_atomic ls now).0 ≡ [] = rw (ok, reserve_atomic) at h in
      rw (ok, reserve_atomic)
        (omega (
          arith,
          take_stock-stock_of table l.sku l.qty now sku ok,
          reserve_atomic-stock_of ls now sku rest,
        ))
]

pub sold-append :
    (xs ys : List OrderItem) (sku : String) → sold (xs ++ ys) sku ≡ sold xs sku + sold ys sku
unfolding sold
sold-append [] ys sku = omega arith
sold-append (i ∷ is) ys sku = omega (arith, sold-append is ys sku)
