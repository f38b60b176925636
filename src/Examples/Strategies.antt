-- ===== src/Examples/Strategies.antt =====
-- A canary that goes from 20 percent in steps of 40.
use consul_release_controlle.Prelude.{refl, ℕ, ◌+◌, pos, none, some, inr, false, arith}
use consul_release_controlle.Interfaces.{StrategyStatus, CheckResult}
use consul_release_controlle.Canary.{PluginConfig, Plugin, Deps, unset, execute}
use consul_release_controlle.Storage.Kv.{ok}
use consul_release_controlle.Validation.{validate, all_hold}
use consul_release_controlle.Canary.Configure.{
  Sources, with_delay, is_between, is_set, validate_duration, fields, configure,
}
use consul_release_controlle.Canary.Configure.Validity.{configure-IsComplete}
use consul_release_controlle.Canary.Bounds.{IsValid, InRange, IsSound, Returns, execute-Returns}
use consul_release_controlle.Canary.Rollout.{roll_out, IsHealthy, IsComplete}

abbrev pub config : PluginConfig
config = record {
  initial_delay = "10s";
  interval = "30s";
  initial_traffic = pos 20;
  traffic_step = pos 40;
  max_traffic = pos 90;
  error_threshold = pos 2;
  delete_canary_on_failed = false;
  manual_promotion = false;
}

abbrev pub plugin : Plugin
plugin = record {
  config = config;
  state = record { candidate_traffic = pos 20; status = StrategyStatus.success };
}

-- The world is the number of seconds slept.
abbrev deps : Deps ℕ
deps = record {
  parse_duration = λ d. some 30;
  check = λ n d w. (CheckResult.check_success, none, w);
  upsert_state = λ s w. (none, w);
  sleep = λ d w. w + d;
}

pub config-IsValid : IsValid config
config-IsValid = record {
  initial_low = omega arith;
  initial_high = omega arith;
  step_low = omega arith;
  step_high = omega arith;
  max_low = omega arith;
  max_high = omega arith;
  threshold_low = omega arith;
}

config-IsHealthy : IsHealthy deps "api" config
config-IsHealthy = record {
  delay = 30;
  delay_parses = refl;
  interval = 30;
  interval_parses = refl;
  passes = λ d w. refl;
}

pub twenty-InRange : InRange (pos 20)
twenty-InRange = inr (omega arith, omega arith)

execute-Returns_example : Returns (IsSound config) (execute deps "api" plugin 0)
execute-Returns_example = execute-Returns deps "api" plugin 0 config-IsValid twenty-InRange

abbrev plugin_made : Plugin
plugin_made = record {
  config = record config { initial_delay = "30s" };
  state = record { candidate_traffic = unset; status = StrategyStatus.success };
}

-- The configuration without an initial delay, and no stored state.
abbrev sources : Sources ℕ
sources = record {
  unmarshal_config = λ d. ok (record config { initial_delay = "" });
  unmarshal_state = λ d. none;
  get_state = λ w. (none, w);
}

configure-IsComplete_example :
    Returns (IsComplete deps "api") (roll_out deps "api" 102 plugin_made 0)
unfolding configure validate is_between is_set with_delay fields validate_duration all_hold
configure-IsComplete_example =
    configure-IsComplete deps sources "{}" "api" 0 {p = plugin_made} {w' = 0} refl refl
      (λ interval v. refl)
