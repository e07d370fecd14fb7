-- ===== src/Schema/Value.antt =====
-- The open dicts of the schema: what JSON can hold, less the numbers with a fraction, and Python's
-- `==` on it. A dict's order does not count for `==`, and `True == 1`.
pub mod Equality
use infra_replay.Common.{
  ℕ, zero, suc, ◌≡◌, refl, ◌↔◌, arith, String, Bool, true, false, ◌&&◌, Option, none, some, Eq,
  ◌==◌, nat_eq, string_eq, if◌then◌else◌,
}

-- `negsuc n` is -(n + 1).
pub data ℤ : Type 0 where
  pos : ℕ → ℤ
  negsuc : ℕ → ℤ

unfoldable pub int_beq : ℤ → ℤ → Bool
int_beq (pos m) (pos n) = m == n
int_beq (negsuc m) (negsuc n) = m == n
int_beq _ _ = false

pub int_beq_iff : (a b : ℤ) → (int_beq a b ≡ true) ↔ (a ≡ b)
unfolding int_beq
int_beq_iff (pos m) (pos n) = ground (arith, nat_eq.beq_iff m n)
int_beq_iff (negsuc m) (negsuc n) = ground (arith, nat_eq.beq_iff m n)
int_beq_iff (pos m) (negsuc n) = ground arith
int_beq_iff (negsuc m) (pos n) = ground arith

instance abbrev pub int_eq : Eq ℤ
int_eq = record { beq = int_beq; beq_iff = int_beq_iff }

mutual
  pub data Value : Type 0 where
    null : Value
    bool : Bool → Value
    int : ℤ → Value
    str : String → Value
    arr : Items → Value
    obj : Fields → Value

  pub data Fields : Type 0 where
    end : Fields
    field : String → Value → Fields → Fields

  pub data Items : Type 0 where
    nil : Items
    cons : Value → Items → Items

-- `d.get(k)`
unfoldable pub find : Fields → String → Option Value
find end k = none
find (field j v fs) k = if j == k then some v else find fs k

-- `k in d`
unfoldable pub has_key : Fields → String → Bool
has_key end k = false
has_key (field j v fs) k = if j == k then true else has_key fs k

-- `d[k] = v`: a key that is there keeps its place.
unfoldable pub set_field : Fields → String → Value → Fields
set_field end k v = field k v end
set_field (field j w fs) k v = if j == k then field j v fs else field j w (set_field fs k v)

pub find-set_field :
    (fs : Fields) (k j : String) (v : Value)
    → find (set_field fs k v) j ≡ (if k == j then some v else find fs j)
unfolding find set_field
find-set_field end k j v = refl
find-set_field (field i w fs) k j v = ground (
  arith,
  find-set_field fs k j v,
  string_eq.beq_iff k j,
  string_eq.beq_iff i k,
  string_eq.beq_iff i j,
)

-- `d.get(k)` where the result is used as a value: a missing key reads as `None`.
unfoldable pub get_value : Fields → String → Value
unfolding find
get_value fs k = elim (find fs k) [ none ↦ null | some v ↦ v ]

abbrev pub size : Fields → ℕ
size end = 0
size (field k v fs) = suc (size fs)

-- `int(b)`
abbrev pub bool_int : Bool → ℤ
bool_int true = pos 1
bool_int false = pos 0

unfoldable mutual
  unfolding int_beq find

  pub value_beq : Value → Value → Bool
  value_beq null null = true
  value_beq (bool true) (bool b) = b
  value_beq (bool false) (bool true) = false
  value_beq (bool false) (bool false) = true
  value_beq (bool b) (int n) = int_beq (bool_int b) n
  value_beq (int n) (bool b) = int_beq n (bool_int b)
  value_beq (int m) (int n) = int_beq m n
  value_beq (str s) (str t) = s == t
  value_beq (arr xs) (arr ys) = items_beq xs ys
  value_beq (obj fs) (obj gs) = (size fs == size gs) && fields_in fs gs
  value_beq _ _ = false

  pub items_beq : Items → Items → Bool
  items_beq nil nil = true
  items_beq (cons x xs) (cons y ys) = value_beq x y && items_beq xs ys
  items_beq _ _ = false

  -- Each entry of the first dict is in the second, with an equal value.
  pub fields_in : Fields → Fields → Bool
  fields_in end gs = true
  fields_in (field k v fs) gs =
      elim (find gs k) [ none ↦ false | some w ↦ value_beq v w ] && fields_in fs gs
