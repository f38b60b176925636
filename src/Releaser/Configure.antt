-- ===== src/Releaser/Configure.antt =====
-- pkg/plugins/consul/releaser.go: Configure.
use consul_release_controlle.Prelude.{String, Option, none, some, List, [], ◌∷◌, not, str_eq}
use consul_release_controlle.Storage.Kv.{Result, ok, err, ConsulOptions}
use consul_release_controlle.Validation.{Field, validate}
use consul_release_controlle.Releaser.{PluginConfig}

-- What `json.Unmarshal` leaves in the configuration, with an error or without, and `NewConsul` of
-- pkg/clients/consul.go, for clients `C`.
pub record Sources (C : Type 0) : Type 0 where
  pub unmarshal_config : String → PluginConfig
  pub new_consul : ConsulOptions → Result C

unfoldable pub fields : PluginConfig → List Field
fields c =
    record {
      holds = not (str_eq c.consul_service "");
      text =
          "ConsulService is a required field, please specify the name of the Consul service for the release.";
    }
    ∷ []

module _ {C : Type 0} (sources : Sources C) where
  connected : PluginConfig → Result C → Result (PluginConfig × C)
  connected c (err e) = err e
  connected c (ok client) = ok (c, client)

  validated : PluginConfig → Option String → Result (PluginConfig × C)
  unfolding connected
  validated c (some e) = err e
  validated c none = connected c (sources.new_consul c.options)

  -- The error of `json.Unmarshal` is overwritten.
  unfoldable pub configure : String → Result (PluginConfig × C)
  unfolding validated fields
  configure d = let c = sources.unmarshal_config d in validated c (validate (fields c))
