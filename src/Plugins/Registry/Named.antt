-- ===== src/Plugins/Registry/Named.antt =====
-- The registry as a map from a slot and a name to a plugin.
use infra_replay.Common.{
  Some, String, ◌≡◌, refl, sym, ap, ◌∙◌, Bool, true, false, ◌&&◌, Option, none, some, List, [], ◌∷◌,
  ◌==◌, string_eq, if◌then◌else◌, Option-cases, Bool-cases, inl, inr,
}
use infra_replay.Common.Dict.{Dict, get, set, get-set}
use infra_replay.Plugins.Registry.{
  Plugin, Registry, slots, empty_slots, slot_for, name_for, slot_of, register, register_all, load,
  get_plugin, new_registry,
}

-- The entry point names the plugin, in the slot.
abbrev pub is_named : String → Plugin → String → String → Bool
is_named ep_name obj slot name = elim (slot_for obj) [
  | none ↦ false
  | some s ↦ (s == slot) && (name_for ep_name obj == name)
]

-- The last of the entry points that names a plugin so.
abbrev pub last_named : List (String × Plugin) → String → String → Option Plugin
last_named [] slot name = none
last_named ((ep_name, obj) ∷ rest) slot name = elim (last_named rest slot name) [
  | some plugin ↦ some plugin
  | none ↦ if is_named ep_name obj slot name then some obj else none
]

abbrev or_plugin : Option Plugin → Option Plugin → Option Plugin
or_plugin none q = q
or_plugin (some p) q = some p

-- A registry that implements the map, or an entry point that implements no contract.
abbrev pub Implements : List (String × Plugin) → Option Registry → Type 0
Implements found none = Some (λ e. slot_for e.1 ≡ none) found
Implements found (some registry) =
    (registry.is_loaded ≡ true)
    × ((slot name : String) → get_plugin slot name registry ≡ last_named found slot name)

abbrev named_in : String → Option (Dict String Plugin) → Option Plugin
named_in name plugins = get (elim plugins [ none ↦ [] | some d ↦ d ]) name

module _ (ep_name : String) (obj : Plugin) (registry : Registry) where
  abbrev with_plugin : String → Registry
  with_plugin slot = record registry {
    by_slot = set registry.by_slot slot (set (slot_of registry slot) (name_for ep_name obj) obj);
  }

  get_plugin-with_plugin :
      (s slot name : String)
      → get_plugin slot name (with_plugin s) ≡ (
          if (s == slot) && (name_for ep_name obj == name)
          then some obj
          else get_plugin slot name registry)
  unfolding get_plugin
  get_plugin-with_plugin s slot name =
      let now = set (slot_of registry s) (name_for ep_name obj) obj in
      elim (Bool-cases (s == slot)) [
        | inl hit ↦
            let found : get (set registry.by_slot s now) slot ≡ some now =
              rw hit at (get-set registry.by_slot s slot now) in
            rw hit (
              ap (named_in name) found
              ∙ get-set (slot_of registry s) (name_for ep_name obj) name obj
              ∙ ap
                  (λ k.
                    if name_for ep_name obj == name
                    then some obj
                    else get (slot_of registry k) name)
                  ((string_eq.beq_iff s slot).0 hit))
        | inr miss ↦
            let found : get (set registry.by_slot s now) slot ≡ get registry.by_slot slot =
              rw miss at (get-set registry.by_slot s slot now) in
            rw miss (ap (named_in name) found)
      ]

is_named-known :
    (ep_name : String) (obj : Plugin) (s slot name : String)
    → slot_for obj ≡ some s
    → is_named ep_name obj slot name ≡ ((s == slot) && (name_for ep_name obj == name))
is_named-known ep_name obj s slot name known = rw (known, is_named) refl

-- The registry after some entry points, from the one before.
abbrev Extends : List (String × Plugin) → Registry → Option Registry → Type 0
Extends found from none = Some (λ e. slot_for e.1 ≡ none) found
Extends found from (some to) =
    (slot name : String)
    → get_plugin slot name to ≡ or_plugin (last_named found slot name) (get_plugin slot name from)

register_all-Extends :
    (found : List (String × Plugin)) (registry : Registry)
    → Extends found registry (register_all found registry)
unfolding register_all register
register_all-Extends [] registry = λ slot name. refl
register_all-Extends ((ep_name, obj) ∷ rest) registry = elim (Option-cases (slot_for obj)) [
  | inl unknown ↦ rw (unknown, register_all) (inl unknown)
  | inr (s, known) ↦
      rw (known, register_all)
        (extended (register_all rest (with_plugin ep_name obj registry s)) s known
          (register_all-Extends rest (with_plugin ep_name obj registry s)))
]
  where
    choose :
        (l : Option Plugin) (b : Bool) (g : Option Plugin)
        → or_plugin l (if b then some obj else g)
          ≡ or_plugin (elim l [ some plugin ↦ some plugin | none ↦ if b then some obj else none ]) g
    choose (some plugin) b g = refl
    choose none true g = refl
    choose none false g = refl

    extended :
        (to : Option Registry) (s : String)
        → slot_for obj ≡ some s
        → Extends rest (with_plugin ep_name obj registry s) to
        → Extends ((ep_name, obj) ∷ rest) registry to
    extended none s known h = inr h
    extended (some to) s known h = λ slot name.
        h slot name
        ∙ ap (or_plugin (last_named rest slot name))
            (get_plugin-with_plugin ep_name obj registry s slot name)
        ∙ choose (last_named rest slot name) ((s == slot) && (name_for ep_name obj == name))
            (get_plugin slot name registry)
        ∙ ap
            (λ b.
              or_plugin
                (elim (last_named rest slot name) [
                  | some plugin ↦ some plugin
                  | none ↦ if b then some obj else none
                ])
                (get_plugin slot name registry))
            (sym (is_named-known ep_name obj s slot name known))

slot_of-empty :
    (ss : List String) (slot : String)
    → elim (get (empty_slots ss) slot) [ none ↦ [] | some d ↦ d ] ≡ []
unfolding empty_slots get
slot_of-empty [] slot = refl
slot_of-empty (s ∷ ss) slot = elim (Bool-cases (s == slot)) [
  | inl hit ↦ rw hit refl
  | inr miss ↦ rw miss (slot_of-empty ss slot)
]

or_plugin-none : (p : Option Plugin) → or_plugin p none ≡ p
or_plugin-none none = refl
or_plugin-none (some p) = refl

-- Loading the entry points makes the registry a map in which a slot and a name find the last of the
-- plugins that are named so; or it raises, and one of the entry points implements no contract.
pub load-Implements : (found : List (String × Plugin)) → Implements found (load found new_registry)
unfolding load get_plugin
load-Implements found =
    loaded (register_all found new_registry) (register_all-Extends found new_registry)
  where
    loaded :
        (to : Option Registry)
        → Extends found new_registry to
        → Implements found
            (elim to [ none ↦ none | some after ↦ some (record after { is_loaded = true }) ])
    loaded none h = h
    loaded (some to) h = (
      refl,
      λ slot name.
          h slot name
          ∙ ap (or_plugin (last_named found slot name))
              (ap (λ d. get d name) (slot_of-empty slots slot))
          ∙ or_plugin-none (last_named found slot name),
    )
