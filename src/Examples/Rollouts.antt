-- ===== src/Examples/Rollouts.antt =====
-- A whole roll out: the world is the canary plugin.
use consul_release_controlle.Prelude.{◌≡◌, refl, ap, pos, Option, none, some, [], ◌∷◌, false}
use consul_release_controlle.Interfaces.{State, StrategyStatus, CheckResult}
use consul_release_controlle.Fsm.Search.{first_row}
use consul_release_controlle.Canary.{Plugin, Deps, Result, execute}
use consul_release_controlle.Canary.Rollout.{IsHealthy}
use consul_release_controlle.StateMachine.Calls.{Call, Reply, execute_strategy}
use consul_release_controlle.StateMachine.Handlers.{StateMachine}
use consul_release_controlle.StateMachine.Machine.{Outside}
use consul_release_controlle.StateMachine.Outcome.{fails}
use consul_release_controlle.StateMachine.Alone.{is_strategy, Succeeds, at}
use consul_release_controlle.StateMachine.Completion.{RunsCanary, RollsOut, roll_out_completes}
use consul_release_controlle.StateMachine.Rollout.{do_monitor}
use consul_release_controlle.Examples.Machines.{machine, answers}
use consul_release_controlle.Examples.Strategies.{plugin, config-IsValid, twenty-InRange}

abbrev deps : Deps Plugin
deps = record {
  parse_duration = λ d. some 30;
  check = λ n d w. (CheckResult.check_success, none, w);
  upsert_state = λ s w. (none, w);
  sleep = λ d w. w;
}

abbrev returned : Option (Result Plugin) → Plugin → Reply (execute_strategy "") × Plugin
returned none p = ((StrategyStatus.failed, pos 0, none), p)
returned (some r) p = ((r.status, r.traffic, r.err), r.plugin)

abbrev perform : (c : Call) → Plugin → Reply c × Plugin
perform (execute_strategy n) p = returned (execute deps n p p) p
perform c p = (answers c, p)

abbrev outside : Outside Plugin
outside = record {
  perform = perform;
  now = λ w. (20, w);
  upsert_release = λ r w. (none, w);
  state_changed = λ n d w. w;
  metrics_done = λ d n w. w;
}

abbrev plug : Plugin → Plugin
plug w = w

performs : (c : Call) (w : Plugin) → is_strategy c ≡ false → (perform c w).1 ≡ w
performs (execute_strategy n) w h = absurd (cc)
performs c w h = refl

answers_well : (c : Call) (w : Plugin) → is_strategy c ≡ false → fails c (perform c w).0 ≡ false
answers_well (execute_strategy n) w h = absurd (cc)
answers_well c w h = refl

succeeds : Succeeds outside plug
succeeds = record {
  keeps = performs;
  works = answers_well;
  times = λ w. refl;
  stores = λ r w. refl;
  counts = λ n d w. refl;
  measures = λ d n w. refl;
}

canary : RunsCanary outside deps "api-deployment" plug
canary = record {
  named = λ w. refl;
  replies = λ w r run. ap (λ o. (returned o w).0) run;
  changes = λ w r run. ap (λ o. (returned o w).1) run;
}

abbrev monitoring : StateMachine
monitoring = record machine { current = State.monitor }

healthy : IsHealthy deps "api-deployment" plugin.config
healthy = record {
  delay = 30;
  delay_parses = refl;
  interval = 30;
  interval_parses = refl;
  passes = λ d w. refl;
}

roll_out_completes_example :
    RollsOut outside first_row deps "api-deployment" plug succeeds canary 102
      (at outside first_row plug succeeds monitoring (do_monitor monitoring ∷ []) plugin)
roll_out_completes_example =
    roll_out_completes outside first_row deps "api-deployment" plug succeeds canary monitoring
      monitoring plugin refl config-IsValid healthy twenty-InRange
