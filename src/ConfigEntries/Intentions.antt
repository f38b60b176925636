-- ===== src/ConfigEntries/Intentions.antt =====
-- CreateServiceIntention and DeleteServiceIntention of pkg/clients/consul.go.
pub mod Restore
pub mod Frame
use consul_release_controlle.Prelude.{
  String, Option, none, some, List, [], ◌∷◌, ◌++◌, Bool, true, false, ◌||◌, if◌then◌else◌, str_eq,
}
use consul_release_controlle.Storage.Kv.{Result, ok, err, ConsulOptions}
use consul_release_controlle.ConfigEntries.{
  controller_service_name, Meta, created_meta, is_created, EntryApi, Removable, nothing, entry,
  existing, to_remove,
}

-- api.SourceIntention
pub record Source : Type 0 where
  pub name : String
  pub action : String
  pub namespace : String
  pub partition : String

-- api.ServiceIntentionsConfigEntry
pub record ServiceIntentions : Type 0 where
  pub name : String
  pub namespace : String
  pub partition : String
  pub meta : Meta
  pub sources : List Source

-- The intention that lets the controller in.
unfoldable pub controller_source : ConsulOptions → Source
controller_source o = record {
  name = controller_service_name;
  action = "allow";
  namespace = o.namespace;
  partition = o.partition;
}

unfoldable pub has_controller : List Source → Bool
has_controller [] = false
has_controller (s ∷ ss) = str_eq s.name controller_service_name || has_controller ss

unfoldable pub without_controller : List Source → List Source
without_controller [] = []
without_controller (s ∷ ss) =
    let rest = without_controller ss in
    if str_eq s.name controller_service_name then rest else s ∷ rest

abbrev pub add_source : ConsulOptions → ServiceIntentions → ServiceIntentions
add_source o d = record d { sources = d.sources ++ controller_source o ∷ [] }

abbrev pub new_intentions : ConsulOptions → String → ServiceIntentions
new_intentions o name = record {
  name = name;
  namespace = o.namespace;
  partition = o.partition;
  meta = created_meta;
  sources = [];
}

module _ {W : Type 0} (api : EntryApi ServiceIntentions W) (o : ConsulOptions) where
  create_with : String → Result (Option ServiceIntentions) → W → Option String × W
  create_with name (err e) w = (some e, w)
  create_with name (ok none) w = api.set o (add_source o (new_intentions o name)) w
  create_with name (ok (some d)) w =
      if has_controller d.sources then (none, w) else api.set o (add_source o d) w

  unfoldable pub create_service_intention : String → W → Option String × W
  unfolding create_with
  create_service_intention name w =
      let (found, w') = api.get o name w in create_with name (existing api found) w'

  remove_from : String → Removable ServiceIntentions → W → Option String × W
  remove_from name (nothing e) w = (e, w)
  remove_from name (entry d) w =
      if is_created d.meta
      then api.delete o name w
      else api.set o (record d { sources = without_controller d.sources }) w

  unfoldable pub delete_service_intention : String → W → Option String × W
  unfolding remove_from
  delete_service_intention name w =
      let (found, w') = api.get o name w in remove_from name (to_remove api found) w'
