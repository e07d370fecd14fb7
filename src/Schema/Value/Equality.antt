-- ===== src/Schema/Value/Equality.antt =====
-- Python's `==` is reflexive on a value whose dicts have each key once.
use infra_replay.Common.{
  String, ◌≡◌, refl, ap₂, true, false, ◌&&◌, Option, none, some, arith, ◌==◌, nat_eq, string_eq,
  beq_refl, Bool-cases, inl, inr,
}
use infra_replay.Schema.Value.{
  ℤ, pos, negsuc, int_beq, Value, null, bool, int, str, arr, obj, Items, nil, cons, Fields, end,
  field, find, get_value, has_key, size, value_beq, items_beq, fields_in,
}

-- Each dict inside has each key once, as a Python dict has.
abbrev mutual
  pub HasDicts : Value → Type 0
  HasDicts (arr xs) = ItemsHaveDicts xs
  HasDicts (obj fs) = IsDict fs
  HasDicts null = Unit
  HasDicts (bool b) = Unit
  HasDicts (int n) = Unit
  HasDicts (str s) = Unit

  pub ItemsHaveDicts : Items → Type 0
  ItemsHaveDicts nil = Unit
  ItemsHaveDicts (cons v xs) = HasDicts v × ItemsHaveDicts xs

  pub IsDict : Fields → Type 0
  IsDict end = Unit
  IsDict (field k v fs) = (has_key fs k ≡ false) × HasDicts v × IsDict fs

abbrev AllFound : Fields → Fields → Type 0
AllFound gs end = Unit
AllFound gs (field k v fs) = (find gs k ≡ some v) × AllFound gs fs

AllFound-field :
    (gs fs : Fields) (j : String) (w : Value)
    → has_key fs j ≡ false
    → AllFound gs fs
    → AllFound (field j w gs) fs
unfolding find has_key
AllFound-field gs end j w h a = tt
AllFound-field gs (field k v fs) j w h a = (
  ground (arith, string_eq.beq_iff j k, string_eq.beq_iff k j, a.0),
  AllFound-field gs fs j w (ground arith) a.1,
)

AllFound-self : (fs : Fields) → IsDict fs → AllFound fs fs
unfolding find
AllFound-self end h = tt
AllFound-self (field k v fs) h =
    (rw (beq_refl k), AllFound-field fs fs k v h.0 (AllFound-self fs h.2))

int_beq_refl : (n : ℤ) → int_beq n n ≡ true
unfolding int_beq
int_beq_refl (pos n) = beq_refl n
int_beq_refl (negsuc n) = beq_refl n

mutual
  unfolding value_beq items_beq fields_in

  value_refl : (v : Value) → HasDicts v → value_beq v v ≡ true
  value_refl null h = refl
  value_refl (bool true) h = refl
  value_refl (bool false) h = refl
  value_refl (int n) h = int_beq_refl n
  value_refl (str s) h = beq_refl s
  value_refl (arr xs) h = items_refl xs h
  value_refl (obj fs) h = ap₂ ◌&&◌ (beq_refl (size fs)) (fields_refl fs fs h (AllFound-self fs h))

  items_refl : (xs : Items) → ItemsHaveDicts xs → items_beq xs xs ≡ true
  items_refl nil h = refl
  items_refl (cons v xs) h = ap₂ ◌&&◌ (value_refl v h.0) (items_refl xs h.1)

  fields_refl : (fs gs : Fields) → IsDict fs → AllFound gs fs → fields_in fs gs ≡ true
  fields_refl end gs h a = refl
  fields_refl (field k v fs) gs h a =
      let here = value_refl v h.1 in
      let rest = fields_refl fs gs h.2 a.1 in rw (a.0) (ap₂ ◌&&◌ here rest)

pub value_beq_refl : (v : Value) → HasDicts v → value_beq v v ≡ true
value_beq_refl = value_refl

abbrev pub OptionHasDicts : Option Value → Type 0
OptionHasDicts none = Unit
OptionHasDicts (some v) = HasDicts v

find-HasDicts : (fs : Fields) (k : String) → IsDict fs → OptionHasDicts (find fs k)
unfolding find
find-HasDicts end k h = tt
find-HasDicts (field j w fs) k h = elim (Bool-cases (j == k)) [
  | inl hit ↦ rw hit (h.1)
  | inr miss ↦ rw miss (find-HasDicts fs k h.2)
]

-- What is read from a dict has dicts.
pub get_value-HasDicts : (fs : Fields) (k : String) → IsDict fs → HasDicts (get_value fs k)
unfolding get_value
get_value-HasDicts fs k h = read (find fs k) (find-HasDicts fs k h)
  where
    read : (o : Option Value) → OptionHasDicts o → HasDicts (elim o [ none ↦ null | some v ↦ v ])
    read none h = tt
    read (some v) h = h
