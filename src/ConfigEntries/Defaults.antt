-- ===== src/ConfigEntries/Defaults.antt =====
-- CreateServiceDefaults and DeleteServiceDefaults of pkg/clients/consul.go.
pub mod Protocol
pub mod Frame
use Prim.Native.String.{◌++◌ as append}
use consul_release_controlle.Prelude.{String, Option, none, some, if◌then◌else◌, str_eq}
use consul_release_controlle.Storage.Kv.{Result, ok, err, ConsulOptions}
use consul_release_controlle.ConfigEntries.{
  Meta, created_meta, is_created, EntryApi, Removable, nothing, entry, existing, to_remove,
}

-- api.ServiceConfigEntry
pub record ServiceDefaults : Type 0 where
  pub name : String
  pub namespace : String
  pub partition : String
  pub meta : Meta
  pub protocol : String

abbrev pub new_defaults : ConsulOptions → String → ServiceDefaults
new_defaults o name = record {
  name = name;
  namespace = o.namespace;
  partition = o.partition;
  meta = created_meta;
  protocol = "http";
}

abbrev pub as_http : ServiceDefaults → ServiceDefaults
as_http d = record d { protocol = "http" }

-- The text of the error, for a service that has the protocol already.
abbrev pub refused : String → String → String
refused name protocol = append "service " (
    append name (
      append " has an existing protocol of " (
        append protocol
          ", consul release controller can not set protocol to HTTP. \n\t\t\t\tplease remove the existing Service Defaults before configuring a release")))

module _ {W : Type 0} (api : EntryApi ServiceDefaults W) (o : ConsulOptions) where
  -- `switch` on the protocol of the entry that exists; another protocol falls through, and the entry
  -- is overwritten.
  update_existing : String → ServiceDefaults → W → Option String × W
  update_existing name d w =
      if str_eq d.protocol "grpc"
      then (some (refused name "gRPC"), w)
      else if str_eq d.protocol "http2"
      then (some (refused name "HTTP2"), w)
      else if str_eq d.protocol "http"
      then (none, w)
      else if str_eq d.protocol "tcp"
      then api.set o (as_http d) w
      else api.set o (new_defaults o name) w

  create_with : String → Result (Option ServiceDefaults) → W → Option String × W
  unfolding update_existing
  create_with name (err e) w = (some e, w)
  create_with name (ok none) w = api.set o (new_defaults o name) w
  create_with name (ok (some d)) w = update_existing name d w

  unfoldable pub create_service_defaults : String → W → Option String × W
  unfolding create_with
  create_service_defaults name w =
      let (found, w') = api.get o name w in create_with name (existing api found) w'

  remove_from : String → Removable ServiceDefaults → W → Option String × W
  remove_from name (nothing e) w = (e, w)
  remove_from name (entry d) w = if is_created d.meta then api.delete o name w else (none, w)

  unfoldable pub delete_service_defaults : String → W → Option String × W
  unfolding remove_from
  delete_service_defaults name w =
      let (found, w') = api.get o name w in remove_from name (to_remove api found) w'
