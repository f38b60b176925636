-- ===== src/Releaser.antt =====
-- pkg/plugins/consul/releaser.go: the releaser plugin, which writes the config entries of a service.
pub mod Health
pub mod Steps
pub mod Effects
pub mod Restore
pub mod Configure
use consul_release_controlle.Prelude.{
  ℕ, zero, suc, ℤ, pos, ◌-ℤ◌, String, Option, none, some, List, [], ◌∷◌,
}
use consul_release_controlle.Storage.Kv.{ConsulOptions}
use consul_release_controlle.ConfigEntries.{EntryApi, controller_service_name, upstream_router_name}
use consul_release_controlle.ConfigEntries.Defaults.{
  ServiceDefaults, create_service_defaults, delete_service_defaults,
}
use consul_release_controlle.ConfigEntries.Intentions.{
  ServiceIntentions, create_service_intention, delete_service_intention,
}
use consul_release_controlle.ConfigEntries.Upstreams.{
  ServiceRouter, create_upstream_router, delete_upstream_router,
}
use consul_release_controlle.ConfigEntries.Resolvers.{
  ServiceResolver, create_service_resolver, delete_service_resolver,
}
use consul_release_controlle.ConfigEntries.Splitters.{
  ServiceSplitter, create_service_splitter, delete_service_splitter,
}

-- The client of the plugin: the entries of each kind over one state `W`, and `time.Sleep` of the
-- delay between two calls.
pub record Consul (W : Type 0) : Type 0 where
  pub defaults : EntryApi ServiceDefaults W
  pub resolvers : EntryApi ServiceResolver W
  pub routers : EntryApi ServiceRouter W
  pub intentions : EntryApi ServiceIntentions W
  pub splitters : EntryApi ServiceSplitter W
  pub sleep : W → W

-- `ConsulService`, `Namespace` and `Partition` of the configuration.
pub record PluginConfig : Type 0 where
  pub consul_service : String
  pub options : ConsulOptions

-- A call of the client; no result is a panic.
abbrev pub Action : Type 0 → Type 0
Action W = W → Option (Option String × W)

abbrev pub safe : {W : Type 0} → (W → Option String × W) → Action W
safe f w = some (f w)

-- After a call: an error is returned, otherwise the delay passes and the rest is done.
unfoldable pub went_on :
    {W : Type 0} → (W → W) → Action W → Option (Option String × W) → Option (Option String × W)
went_on sleep rest none = none
went_on sleep rest (some (some e, w)) = some (some e, w)
went_on sleep rest (some (none, w)) = rest (sleep w)

unfoldable pub and_then : {W : Type 0} → (W → W) → Action W → Action W → Action W
and_then sleep f rest w = went_on sleep rest (f w)

module _ {W : Type 0} (c : Consul W) (p : PluginConfig) where
  unfoldable pub setup : String → String → Action W
  setup primary candidate =
      and_then c.sleep (safe (create_service_defaults c.defaults p.options p.consul_service)) (
        and_then c.sleep
          (safe (create_service_defaults c.defaults p.options controller_service_name))
          (and_then c.sleep
            (safe (create_service_defaults c.defaults p.options upstream_router_name))
            (and_then c.sleep
              (create_service_resolver c.resolvers p.options p.consul_service primary candidate)
              (and_then c.sleep (safe (create_upstream_router c.routers p.options p.consul_service))
                (safe (create_service_intention c.intentions p.options p.consul_service))))))

  unfoldable pub scale : ℤ → W → Option String × W
  scale value w =
      create_service_splitter c.splitters p.options p.consul_service (pos 100 -ℤ value) value w

  unfoldable pub destroy : Action W
  destroy =
      and_then c.sleep (safe (delete_service_splitter c.splitters p.options p.consul_service)) (
        and_then c.sleep (delete_upstream_router c.routers p.options p.consul_service) (
          and_then c.sleep (safe (delete_service_resolver c.resolvers p.options p.consul_service)) (
            and_then c.sleep
              (safe (delete_service_intention c.intentions p.options p.consul_service))
              (safe (delete_service_defaults c.defaults p.options p.consul_service)))))
