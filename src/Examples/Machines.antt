-- ===== src/Examples/Machines.antt =====
-- A release with a test and two webhooks, and its machine at work.
use consul_release_controlle.Prelude.{
  ◌≡◌, ◌≢◌, refl, ℕ, ◌+◌, pos, none, some, [], ◌∷◌, true, false, arith,
}
use consul_release_controlle.Interfaces.{
  State, Event, StrategyStatus, RuntimeDeploymentStatus, primary, candidate,
}
use consul_release_controlle.Release.{Release, PluginConfig}
use consul_release_controlle.Fsm.Search.{first_row}
use consul_release_controlle.StateMachine.Calls.{
  Call, Reply, Prog, ret, fire, setup, scale, wait_until_service_healthy, destroy_config,
  init_primary, promote_candidate, remove_candidate, restore_original, remove_primary,
  candidate_name, execute_test, execute_strategy, get_primary_traffic, get_candidate_traffic, send,
  sleep,
}
use consul_release_controlle.StateMachine.Handlers.{StateMachine, do_configure, do_deploy}
use consul_release_controlle.StateMachine.Rollout.{
  goroutine, do_monitor, do_promote, do_rollback, do_destroy,
}
use consul_release_controlle.StateMachine.Machine.{Outside, System, raise}
use consul_release_controlle.StateMachine.Discipline.{Obeys, ObeysAny}
use consul_release_controlle.StateMachine.Drain.{drain, goroutine-ObeysDrain}
use consul_release_controlle.StateMachine.Health.{healthy_first, traffic_after_health}
use consul_release_controlle.StateMachine.Outcome.{working, outcome, goroutine-ObeysOutcome}
use consul_release_controlle.StateMachine.Monitor.{events_of, monitor_events, events_of-do_monitor}
use consul_release_controlle.StateMachine.Liveness.{
  HasLeft, with_task, run_to_end, goroutine_leaves,
}
use consul_release_controlle.StateMachine.Start.{PluginProvider, new_machine, new}
use consul_release_controlle.StateMachine.Start.Built.{Reach-Recorded-new}
use consul_release_controlle.StateMachine.Late.{pause, system, late_rollback_ends_destroy}
use consul_release_controlle.StateMachine.Interleaving.{
  Reach, here, later, request, deploy_request, Recorded,
}

abbrev pub slack : PluginConfig
slack = record { name = "slack"; config = "{}" }

abbrev pub api : Release
api = record {
  name = "api";
  namespace = "default";
  version = "1";
  created = 10;
  last_updated = 10;
  releaser = none;
  runtime = none;
  strategy = none;
  monitor = none;
  webhooks = slack ∷ slack ∷ [];
  post_deployment_test = none;
  state_history = record { time = 11; state = State.idle } ∷ [];
}

abbrev pub machine : StateMachine
machine = record {
  release = api;
  webhooks = slack ∷ slack ∷ [];
  has_test = true;
  current = State.idle;
  metrics_done = none;
}

-- Every plugin succeeds, but the strategy, which fails with an error.
abbrev pub answers : (c : Call) → Reply c
answers (setup p c) = none
answers (scale v) = none
answers (wait_until_service_healthy f) = none
answers destroy_config = none
answers (init_primary n) = (RuntimeDeploymentStatus.update, none)
answers promote_candidate = (RuntimeDeploymentStatus.update, none)
answers remove_candidate = none
answers restore_original = none
answers remove_primary = none
answers candidate_name = "api-deployment"
answers (execute_test n) = none
answers (execute_strategy n) = (StrategyStatus.failed, pos 0, some "no metrics")
answers get_primary_traffic = pos 80
answers get_candidate_traffic = pos 20
answers (send w x) = none
answers (sleep n) = tt

-- The world is a clock.
abbrev outside : Outside ℕ
outside = record {
  perform = λ c w. (answers c, w + 1);
  now = λ w. (w, w + 1);
  upsert_release = λ r w. (none, w);
  state_changed = λ n s w. w;
  metrics_done = λ s n w. w;
}

abbrev idle_system : System ℕ
idle_system = record { machine = machine; tasks = []; world = 20 }

abbrev rolling_back : StateMachine
rolling_back = record machine { current = State.rollback }

abbrev left_over : Prog Unit
left_over = fire Event.complete [] (ret tt)

goroutine-ObeysDrain_example : ObeysAny drain none (goroutine machine State.rollback [])
goroutine-ObeysDrain_example = goroutine-ObeysDrain machine State.rollback []

traffic_after_health_example :
    Obeys (healthy_first (pos 0) primary) false (do_configure machine)
    × Obeys (healthy_first (pos 0) primary) false (do_deploy machine)
    × Obeys (healthy_first (pos 0) primary) false (do_promote machine)
    × Obeys (healthy_first (pos 100) candidate) false (do_destroy machine)
traffic_after_health_example = traffic_after_health machine

deploy_ne_monitor : State.deploy ≢ State.monitor
deploy_ne_monitor h = cc

abbrev deploying : System ℕ
deploying = record {
  machine = record machine { current = State.deploy };
  tasks = left_over ∷ [];
  world = 20;
}

goroutine_leaves_example :
    Reach outside first_row
      (with_task (do_deploy machine) deploying)
      (run_to_end outside first_row (do_deploy machine) deploying)
    × HasLeft State.deploy (run_to_end outside first_row (do_deploy machine) deploying)
unfolding goroutine
goroutine_leaves_example =
    goroutine_leaves outside first_row machine State.deploy (pos 0) (do_deploy machine) deploying
      deploy_ne_monitor refl refl

goroutine-ObeysOutcome_example :
    ObeysAny (outcome State.deploy) working (goroutine machine State.deploy (pos 20 ∷ []))
goroutine-ObeysOutcome_example =
    goroutine-ObeysOutcome machine State.deploy (pos 20) deploy_ne_monitor

events_of-do_monitor_example :
    events_of answers (do_monitor machine)
    ≡ monitor_events true none (StrategyStatus.failed, pos 0, some "no metrics")
events_of-do_monitor_example = events_of-do_monitor answers machine

late_rollback_ends_destroy_example :
    (t : System ℕ) × Reach outside first_row
      (system outside rolling_back (do_rollback rolling_back ∷ []) 20)
      t
    × (t.machine.current ≡ State.idle)
    × ((n : StateMachine) × (n.current ≡ State.destroy) × (t.tasks ≡ ret tt ∷ do_destroy n ∷ []))
unfolding do_rollback pause consul_release_controlle.StateMachine.Handlers.finish
    consul_release_controlle.StateMachine.Handlers.call_webhooks
    consul_release_controlle.StateMachine.Handlers.send_all
late_rollback_ends_destroy_example =
    late_rollback_ends_destroy outside first_row rolling_back [] 20 refl refl

abbrev complete_api : Release
complete_api = record api {
  releaser = some slack;
  runtime = some slack;
  strategy = some slack;
  monitor = some slack;
}

abbrev plugins : PluginProvider ℕ
plugins = record { create = λ k r n w. (none, w); configure = λ k r c w. (none, w + 1) }

abbrev new_system : System ℕ
new_system = record {
  machine = new_machine complete_api (slack ∷ slack ∷ []);
  tasks = [];
  world = 6;
}

Reach-Recorded-new_example : Recorded (raise outside first_row Event.deploy [] new_system).1.machine
unfolding new
Reach-Recorded-new_example =
    Reach-Recorded-new plugins complete_api outside first_row 0 6
      (new_machine complete_api (slack ∷ slack ∷ [])) _ refl (omega arith)
      (later here (request new_system deploy_request))
