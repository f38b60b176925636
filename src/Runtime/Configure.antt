-- ===== src/Runtime/Configure.antt =====
-- pkg/plugins/runtime/plugin.go: Configure and saveState, over the store in Consul.
pub mod Restart
use consul_release_controlle.Prelude.{String, Option, none, some, if◌then◌else◌, str_eq}
use consul_release_controlle.Interfaces.{RuntimeBaseConfig, RuntimeBaseState}
use consul_release_controlle.Storage.Kv.{Result, ok, err}
use consul_release_controlle.Storage.{Found, found, failed}
use consul_release_controlle.Runtime.{Plugin}

-- `json.Unmarshal` at the configuration, `json.Marshal` and `json.Unmarshal` at the state, and `GetState`
-- and `UpsertState` of the plugin's store, over a state `W`. `unmarshal_state` is what is left in the zero
-- value, with an error or without.
pub record Sources (W : Type 0) : Type 0 where
  pub unmarshal_config : String → Result RuntimeBaseConfig
  pub unmarshal_state : String → RuntimeBaseState
  pub marshal_state : RuntimeBaseState → Option String
  pub get_state : W → Found String × W
  pub upsert_state : String → W → Option String × W

abbrev no_state : RuntimeBaseState
no_state = record { candidate_name = ""; primary_name = "" }

unfoldable pub with_namespace : RuntimeBaseConfig → RuntimeBaseConfig
with_namespace c = if str_eq c.namespace "" then record c { namespace = "default" } else c

abbrev pub plugin_of : RuntimeBaseConfig → RuntimeBaseState → Plugin
plugin_of c s = record {
  deployment_selector = c.deployment_selector;
  namespace = c.namespace;
  candidate_name = s.candidate_name;
  primary_name = s.primary_name;
}

abbrev pub state_of : Plugin → RuntimeBaseState
state_of p = record { candidate_name = p.candidate_name; primary_name = p.primary_name }

module _ {W : Type 0} (o : Sources W) where
  -- Without a state in the store, the text that is unmarshalled is empty, which is an error.
  loaded : Found String → RuntimeBaseState
  loaded (failed e) = no_state
  loaded (found d) = o.unmarshal_state d

  state_loaded : RuntimeBaseConfig → Found String × W → Result Plugin × W
  unfolding loaded
  state_loaded c (d, w) = (ok (plugin_of c (loaded d)), w)

  unmarshalled : Result RuntimeBaseConfig → W → Result Plugin × W
  unfolding state_loaded with_namespace
  unmarshalled (err e) w = (err e, w)
  unmarshalled (ok c) w = state_loaded (with_namespace c) (o.get_state w)

  unfoldable pub configure : String → W → Result Plugin × W
  unfolding unmarshalled
  configure d w = unmarshalled (o.unmarshal_config d) w

  saved : Option String → W → W
  saved none w = w
  saved (some d) w = (o.upsert_state d w).1

  -- `saveState`: errors are logged.
  unfoldable pub save_state : String → String → W → W
  unfolding saved
  save_state candidate_name primary_name w =
      saved
        (o.marshal_state (record { candidate_name = candidate_name; primary_name = primary_name }))
        w
