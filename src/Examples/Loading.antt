-- ===== src/Examples/Loading.antt =====
-- The plugins of the package, loaded.
use infra_replay.Common.{String, ◌≡◌, refl, none, some, List, [], ◌∷◌}
use infra_replay.Plugins.Registry.{
  Plugin, load, new_registry, get_plugin, comparator_for, empty_slots,
}
use infra_replay.Plugins.Registry.Named.{Implements, load-Implements}

abbrev plugin : String → String → String → Plugin
plugin slot name event_type = record {
  contracts = slot ∷ [];
  name = name;
  event_type = event_type;
  module_name = "plugins";
  qualname = name;
}

abbrev found : List (String × Plugin)
found =
    ("mock", plugin "capture" "mock_capture" "")
    ∷ ("http", plugin "comparator" "" "http.response")
    ∷ ("mine", record (plugin "capture" "mock_capture" "") { module_name = "mine" })
    ∷ []

-- The second plugin of a name takes the place of the first, and a nameless one has its entry's name.
mock_found :
    (elim (load found new_registry) [
      | none ↦ none
      | some r ↦ get_plugin "capture" "mock_capture" r
    ])
    ≡ some (record (plugin "capture" "mock_capture" "") { module_name = "mine" })
unfolding load empty_slots get_plugin
mock_found = refl

http_found :
    (elim (load found new_registry) [ none ↦ none | some r ↦ get_plugin "comparator" "http" r ])
    ≡ some (plugin "comparator" "" "http.response")
unfolding load empty_slots get_plugin
http_found = refl

comparator_found :
    (elim (load found new_registry) [ none ↦ none | some r ↦ comparator_for "http.response" r ])
    ≡ some (plugin "comparator" "" "http.response")
unfolding load empty_slots comparator_for
comparator_found = refl

no_contract :
    load (("odd", record (plugin "capture" "odd" "") { contracts = [] }) ∷ []) new_registry ≡ none
unfolding load empty_slots
no_contract = refl

load-Implements_example : Implements found (load found new_registry)
load-Implements_example = load-Implements found
