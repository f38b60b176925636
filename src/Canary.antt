-- ===== src/Canary.antt =====
-- pkg/plugins/canary/plugin.go: the canary strategy.
pub mod Bounds
pub mod Rollout
pub mod Steps
pub mod Configure
use consul_release_controlle.Prelude.{
  ℕ, zero, suc, ◌+◌, ℤ, pos, negsuc, ◌+ℤ◌, ◌-ℤ◌, leb_ℤ, ltb_ℤ, eqb_ℤ, pos_part, String, Option,
  none, some, Bool, if◌then◌else◌, str_eq,
}
use consul_release_controlle.Interfaces.{StrategyStatus, CheckResult}
use consul_release_controlle.StateMachine.Calls.{Error}

pub record PluginConfig : Type 0 where
  pub initial_delay : String
  pub interval : String
  pub initial_traffic : ℤ
  pub traffic_step : ℤ
  pub max_traffic : ℤ
  pub error_threshold : ℤ
  pub delete_canary_on_failed : Bool
  pub manual_promotion : Bool

pub record PluginState : Type 0 where
  pub candidate_traffic : ℤ
  pub status : StrategyStatus

-- `config` and `state` of `Plugin`.
pub record Plugin : Type 0 where
  pub config : PluginConfig
  pub state : PluginState

-- What the plugin is given, over a state `W`: `time.ParseDuration` (nil error and the duration, or
-- the text of the error), `Check` of the monitor, `UpsertState` of the store with the state that
-- `saveState` marshals, and `time.Sleep`.
pub record Deps (W : Type 0) : Type 0 where
  pub parse_duration : String → Option ℕ
  pub check : String → ℕ → W → CheckResult × Error × W
  pub upsert_state : PluginState → W → Error × W
  pub sleep : ℕ → W → W

pub record Result (W : Type 0) : Type 0 where
  pub status : StrategyStatus
  pub traffic : ℤ
  pub err : Error
  pub plugin : Plugin
  pub world : W

abbrev pub unset : ℤ
unset = negsuc 0

abbrev pub set_traffic : Plugin → ℤ → Plugin
set_traffic p t = record p { state = record p.state { candidate_traffic = t } }

abbrev pub set_status : Plugin → StrategyStatus → Plugin
set_status p s = record p { state = record p.state { status = s } }

-- The traffic of the first run.
unfoldable pub first_traffic : PluginConfig → ℤ
first_traffic c = if eqb_ℤ c.initial_traffic (pos 0) then c.traffic_step else c.initial_traffic

-- Fuel for the loop: it makes at most `error_threshold` rounds, and one at least.
abbrev pub rounds : Plugin → ℕ
rounds p = suc (pos_part p.config.error_threshold)

module _ {W : Type 0} (deps : Deps W) where
  -- `saveState`: an error of the store is logged.
  unfoldable pub save_state : Plugin → W → W
  save_state p w = (deps.upsert_state p.state w).1

  -- A return from `Execute`, with the deferred `saveState`.
  unfoldable pub return_with : StrategyStatus → ℤ → Error → Plugin → W → Result W
  return_with status traffic err p w = record {
    status = status;
    traffic = traffic;
    err = err;
    plugin = p;
    world = save_state p w;
  }

  first_run : Option ℕ → Plugin → W → Result W
  first_run none p w =
      return_with StrategyStatus.failed (pos 0) (some "unable to parse initial delay")
        (set_status p StrategyStatus.failed) w
  first_run (some d) p w =
      return_with StrategyStatus.success p.state.candidate_traffic none
        (set_status p StrategyStatus.success) (deps.sleep d w)

  -- A check that passed: the next step, or the end of the roll out.
  pub passed : Plugin → W → Result W
  passed p w =
      let q =
        set_status (set_traffic p (p.state.candidate_traffic +ℤ p.config.traffic_step))
          StrategyStatus.success in
      let w' = save_state q w in
      if leb_ℤ p.config.max_traffic q.state.candidate_traffic
      then return_with StrategyStatus.complete (pos 100) none
          (set_status (set_traffic q unset) StrategyStatus.complete) w'
      else return_with StrategyStatus.success q.state.candidate_traffic none q w'

  -- The threshold of failed checks is reached.
  gave_up : Plugin → W → Result W
  gave_up p w =
      return_with StrategyStatus.failed (pos 0) none
        (set_status (set_traffic p unset) StrategyStatus.failed) w

  -- What follows a check; `again` is the next round.
  after_check : Error → ℕ → Plugin → W → Option (Result W) → Option (Result W)
  unfolding passed gave_up
  after_check none fail_count p w again = some (passed p w)
  after_check (some e) fail_count p w again =
      if leb_ℤ p.config.error_threshold (pos fail_count) then some (gave_up p w) else again

  -- The `for` loop, after `fail_count` failed checks; `none` means that the fuel ran out.
  unfoldable pub check_loop : ℕ → String → ℕ → ℕ → Plugin → W → Option (Result W)
  unfolding after_check
  check_loop zero name d fail_count p w = none
  check_loop (suc fuel) name d fail_count p w =
      let (result, err, w') = deps.check name d (deps.sleep d w) in
      let failing = set_status p StrategyStatus.failing in
      let again = check_loop fuel name d (fail_count + 1) failing (save_state failing w') in
      after_check err (fail_count + 1) p w' again

  later_run : Option ℕ → String → Plugin → W → Option (Result W)
  later_run none name p w = some (
      return_with StrategyStatus.failed (pos 0) (some "unable to parse interval")
        (set_status p StrategyStatus.failed) w)
  later_run (some d) name p w = check_loop (rounds p) name d 0 p w

  unfoldable pub execute : String → Plugin → W → Option (Result W)
  unfolding first_run later_run
  execute name p w =
      if eqb_ℤ p.state.candidate_traffic unset
      then some (
          first_run (deps.parse_duration p.config.initial_delay)
            (set_traffic p (first_traffic p.config)) w)
      else later_run (deps.parse_duration p.config.interval) name p w

unfoldable pub get_primary_traffic : Plugin → ℤ
get_primary_traffic p =
    if ltb_ℤ p.state.candidate_traffic (pos 0)
    then pos 100
    else if ltb_ℤ (pos 100) p.state.candidate_traffic
    then pos 0
    else pos 100 -ℤ p.state.candidate_traffic

unfoldable pub get_candidate_traffic : Plugin → ℤ
get_candidate_traffic p =
    if ltb_ℤ p.state.candidate_traffic (pos 1)
    then pos 0
    else if ltb_ℤ (pos 100) p.state.candidate_traffic
    then pos 100
    else p.state.candidate_traffic
