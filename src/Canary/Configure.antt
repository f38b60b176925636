-- ===== src/Canary/Configure.antt =====
-- pkg/plugins/canary/plugin.go: Configure.
pub mod Validity
use consul_release_controlle.Prelude.{
  ℤ, pos, leb_ℤ, eqb_ℤ, String, Option, none, some, List, [], ◌∷◌, Bool, true, false, not, ◌&&◌,
  if◌then◌else◌, str_eq,
}
use consul_release_controlle.Interfaces.{StrategyStatus}
use consul_release_controlle.Storage.Kv.{Result, ok, err}
use consul_release_controlle.Validation.{Field, validate}
use consul_release_controlle.Canary.{PluginConfig, PluginState, Plugin, Deps, unset}

-- `json.Unmarshal` at the configuration and at the state, and `GetState` of the plugin's store, over a
-- state `W`. The text of an error that is only logged is left out.
pub record Sources (W : Type 0) : Type 0 where
  pub unmarshal_config : String → Result PluginConfig
  pub unmarshal_state : String → Option PluginState
  pub get_state : W → Option String × W

-- If there is no initial delay, the interval.
unfoldable pub with_delay : PluginConfig → PluginConfig
with_delay c = if str_eq c.initial_delay "" then record c { initial_delay = c.interval } else c

-- `gte` and `lte`
unfoldable pub is_between : ℤ → ℤ → ℤ → Bool
is_between low high t = leb_ℤ low t && leb_ℤ t high

-- `required`: not the zero value
unfoldable pub is_set : ℤ → Bool
is_set t = not (eqb_ℤ t (pos 0))

abbrev is_some : {A : Type 0} → Option A → Bool
is_some none = false
is_some (some x) = true

abbrev pub initial_state : PluginState
initial_state = record { candidate_traffic = unset; status = StrategyStatus.success }

module _ {W : Type 0} (deps : Deps W) (sources : Sources W) where
  -- `ValidateDuration` of pkg/plugins/interfaces/customvalidation.go
  unfoldable pub validate_duration : String → Bool
  validate_duration t = is_some (deps.parse_duration t)

  -- The tags of the fields, and the texts of the errors.
  unfoldable pub fields : PluginConfig → List Field
  unfolding validate_duration is_between is_set
  fields c =
      record {
        holds = validate_duration c.initial_delay;
        text =
            "InitialDelay is not a valid duration, please specify using Go duration format e.g (30s, 30ms, 60m)";
      }
      ∷ record {
        holds = validate_duration c.interval;
        text =
            "Interval is not a valid duration, please specify using Go duration format e.g (30s, 30ms, 60m)";
      }
      ∷ record {
        holds = is_between (pos 0) (pos 100) c.initial_traffic;
        text = "InitialTraffic must contain a value between 0 and 100";
      }
      ∷ record {
        holds = is_between (pos 1) (pos 100) c.traffic_step && is_set c.traffic_step;
        text = "TrafficStep must contain a value between 1 and 100";
      }
      ∷ record {
        holds = is_between (pos 1) (pos 100) c.max_traffic && is_set c.max_traffic;
        text = "MaxTraffic must contain a value between 1 and 100";
      }
      ∷ record {
        holds = is_set c.error_threshold && leb_ℤ (pos 0) c.error_threshold;
        text = "ErrorThreshold must contain a value greater than 0";
      }
      ∷ []

  state_or_initial : Option PluginState → PluginState
  state_or_initial none = initial_state
  state_or_initial (some s) = s

  unfoldable pub state_of : Option String → PluginState
  unfolding state_or_initial
  state_of none = initial_state
  state_of (some d) = state_or_initial (sources.unmarshal_state d)

  state_loaded : PluginConfig → Option String × W → Result Plugin × W
  unfolding state_of
  state_loaded c (d, w) = (ok (record { config = c; state = state_of d }), w)

  validated : PluginConfig → Option String → W → Result Plugin × W
  unfolding state_loaded
  validated c (some e) w = (err e, w)
  validated c none w = state_loaded c (sources.get_state w)

  unmarshalled : Result PluginConfig → W → Result Plugin × W
  unfolding validated fields
  unmarshalled (err e) w = (err e, w)
  unmarshalled (ok c) w = validated (with_delay c) (validate (fields (with_delay c))) w

  unfoldable pub configure : String → W → Result Plugin × W
  unfolding unmarshalled
  configure d w = unmarshalled (sources.unmarshal_config d) w
