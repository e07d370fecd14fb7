-- ===== src/Plugins/Registry.antt =====
-- The plugins by name: infrareplay/plugins/registry.py. What is registered is outside: an object is
-- told by the contracts that it implements, its names and its event type.
pub mod Named
use infra_replay.Common.{
  String, Bool, true, false, ◌&&◌, Option, none, some, List, [], ◌∷◌, ◌++◌, map, ◌==◌, string_eq,
  if◌then◌else◌, contains,
}
use infra_replay.Common.Text.{joined, codes, text_le}
use infra_replay.Common.Sort.{sorted}
use infra_replay.Common.Dict.{Dict, get, set, keys, values}

-- The slots of `_ABC_BY_SLOT`, in its order.
abbrev pub slots : List String
slots = "capture" ∷ "storage" ∷ "redaction" ∷ "comparator" ∷ []

-- An object: the slots whose contract it is a subclass of, its `name`, its `event_type`, and its
-- module and qualified name.
pub record Plugin : Type 0 where
  pub contracts : List String
  pub name : String
  pub event_type : String
  pub module_name : String
  pub qualname : String

-- `_slots` and `_loaded`.
pub record Registry : Type 0 where
  pub by_slot : Dict String (Dict String Plugin)
  pub is_loaded : Bool

unfoldable pub empty_slots : List String → Dict String (Dict String Plugin)
empty_slots [] = []
empty_slots (slot ∷ rest) = (slot, []) ∷ empty_slots rest

abbrev pub new_registry : Registry
new_registry = record { by_slot = empty_slots slots; is_loaded = false }

-- `_slot_for`: the first contract that the object implements.
unfoldable pub slot_in : List String → Plugin → Option String
slot_in [] obj = none
slot_in (slot ∷ rest) obj = if contains obj.contracts slot then some slot else slot_in rest obj

unfoldable pub slot_for : Plugin → Option String
unfolding slot_in
slot_for obj = slot_in slots obj

-- `getattr(obj, "name", "") or ep_name`
abbrev pub name_for : String → Plugin → String
name_for ep_name obj = if obj.name == "" then ep_name else obj.name

-- `self._slots[slot]`, of a slot that is there.
abbrev pub slot_of : Registry → String → Dict String Plugin
slot_of registry slot = elim (get registry.by_slot slot) [ none ↦ [] | some plugins ↦ plugins ]

-- `_register`; none where it raises a PluginError.
unfoldable pub register : String → Plugin → Registry → Option Registry
unfolding slot_for get set
register ep_name obj registry = elim (slot_for obj) [
  | none ↦ none
  | some slot ↦ some (record registry {
    by_slot = set registry.by_slot slot (set (slot_of registry slot) (name_for ep_name obj) obj);
  })
]

unfoldable pub register_all : List (String × Plugin) → Registry → Option Registry
unfolding register
register_all [] registry = some registry
register_all ((ep_name, obj) ∷ rest) registry = elim (register ep_name obj registry) [
  | none ↦ none
  | some after ↦ register_all rest after
]

-- `load`, over the entry points.
unfoldable pub load : List (String × Plugin) → Registry → Option Registry
unfolding register_all
load found registry =
    if registry.is_loaded then some registry else elim (register_all found registry) [
      | none ↦ none
      | some after ↦ some (record after { is_loaded = true })
    ]

-- `_get`; none where it raises a PluginError. capture, storage and redaction are `_get` at their slot.
unfoldable pub get_plugin : String → String → Registry → Option Plugin
unfolding get
get_plugin slot name registry = get (slot_of registry slot) name

unfoldable pub first_for : String → List Plugin → Option Plugin
first_for event_type [] = none
first_for event_type (cls ∷ rest) =
    if cls.event_type == event_type then some cls else first_for event_type rest

-- `comparator_for`
unfoldable pub comparator_for : String → Registry → Option Plugin
unfolding get first_for
comparator_for event_type registry = first_for event_type (values (slot_of registry "comparator"))

-- A row of `describe`.
pub record Description : Type 0 where
  pub name : String
  pub slot : String
  pub impl : String

-- `sorted(plugins.items())`: by name, as no name is there twice.
abbrev name_le : String × Plugin → String × Plugin → Bool
name_le a b = text_le (codes a.0) (codes b.0)

unfoldable pub describe_slots : Dict String (Dict String Plugin) → List Description
unfolding text_le sorted
describe_slots [] = []
describe_slots ((slot, plugins) ∷ rest) =
    map (described slot) (sorted name_le plugins) ++ describe_slots rest
  where
    described : String → String × Plugin → Description
    described slot (name, cls) = record {
      name = name;
      slot = slot;
      impl = joined cls.module_name (joined "." cls.qualname);
    }

-- `describe`
unfoldable pub describe : Registry → List Description
unfolding describe_slots
describe registry = describe_slots registry.by_slot

-- `get_registry`, of `_REGISTRY` and the entry points: what it returns and the registry that is kept,
-- or none where the load raises.
unfoldable pub get_registry :
    List (String × Plugin) → Option Registry → Option (Registry × Option Registry)
unfolding load
get_registry found (some registry) = some (registry, some registry)
get_registry found none = elim (load found new_registry) [
  | none ↦ none
  | some registry ↦ some (registry, some registry)
]
