-- ===== src/StateMachine/Rollout.antt =====
-- The goroutines of `doMonitor`, `doScale`, `doPromote`, `doRollback` and `doDestroy` of
-- statemachine.go, and the choice of the goroutine for the state that is entered.
use consul_release_controlle.Prelude.{
  ℤ, pos, String, Option, none, some, List, [], ◌∷◌, if◌then◌else◌,
}
use consul_release_controlle.Interfaces.{State, Event, StrategyStatus, primary, candidate}
use consul_release_controlle.StateMachine.Calls.{
  Error, Prog, ret, fire, scale, wait_until_service_healthy, destroy_config, promote_candidate,
  remove_candidate, restore_original, remove_primary, candidate_name, execute_test,
  execute_strategy, sleep, ◌>>=◌, ◌>>◌, act, event,
}
use consul_release_controlle.StateMachine.Handlers.{
  StateMachine, tell, finish, do_configure, do_deploy,
}

-- After the strategy has returned an error the code does not return: it goes on to `switch result`.
unfoldable pub report_error : StateMachine → Error → Prog Unit → Prog Unit
report_error s none rest = rest
report_error s (some e) rest =
    tell s "Monitoring deployment failed" State.monitor Event.fail (some e)
      (fire Event.fail [] rest)

-- `switch result`: a status without a case falls through.
unfoldable pub switch_result : StateMachine → StrategyStatus → ℤ → Error → Prog Unit
switch_result s StrategyStatus.success traffic err = fire Event.healthy (traffic ∷ []) (ret tt)
switch_result s StrategyStatus.complete traffic err = event Event.complete
switch_result s StrategyStatus.failed traffic err =
    tell s "Monitor deployment failed" State.monitor Event.unhealthy err (event Event.unhealthy)
switch_result s StrategyStatus.failing traffic err = ret tt

unfoldable pub run_strategy : StateMachine → Prog Unit
unfolding report_error switch_result
run_strategy s = do
  name ← act candidate_name
  result ← act (execute_strategy name)
  report_error s result.2 (switch_result s result.0 result.1 result.2)

-- A failed test is told with the fail outcome, and raises the unhealthy event.
unfoldable pub after_tests : StateMachine → Error → Prog Unit
unfolding run_strategy
after_tests s (some e) =
    tell s "post deployment tests failed" State.monitor Event.fail (some e) (event Event.unhealthy)
after_tests s none = run_strategy s

unfoldable pub run_tests : StateMachine → Prog Unit
unfolding after_tests
run_tests s = do name ← act candidate_name; err ← act (execute_test name); after_tests s err

unfoldable pub do_monitor : StateMachine → Prog Unit
unfolding run_tests
do_monitor s = if s.has_test then run_tests s else run_strategy s

-- `args` is `e.Args`.
unfoldable pub do_scale : StateMachine → List ℤ → Prog Unit
do_scale s (traffic ∷ []) = do
  err ← act (scale traffic)
  elim err [
    | some e ↦
        tell s "Scaling deployment failed" State.monitor Event.fail (some e) (event Event.fail)
    | none ↦
        tell s "Scaling deployment succeeded" State.monitor Event.scaled none (event Event.scaled)
  ]
do_scale s args = event Event.fail

abbrev fail_promote : StateMachine → ℤ → ℤ → String → Prog Unit
fail_promote s p c e = finish s "Promoting candidate failed" State.promote Event.fail p c (some e)

-- The status that `PromoteCandidate` returns is dropped.
unfoldable pub do_promote : StateMachine → Prog Unit
do_promote s = do
  err ← act (scale (pos 100))
  elim err [
    | some e ↦ fail_promote s (pos 0) (pos 100) e
    | none ↦ do
      act (sleep 1)
      result ← act promote_candidate
      elim result.1 [
        | some e ↦ fail_promote s (pos 0) (pos 100) e
        | none ↦ do
          err ← act (wait_until_service_healthy primary)
          elim err [
            | some e ↦ fail_promote s (pos 0) (pos 100) e
            | none ↦ do
              err ← act (scale (pos 0))
              elim err [
                | some e ↦ fail_promote s (pos 0) (pos 100) e
                | none ↦ do
                  act (sleep 4)
                  err ← act remove_candidate
                  elim err [
                    | some e ↦ fail_promote s (pos 100) (pos 0) e
                    | none ↦
                        finish s "Promoting candidate to primary succeeded" State.promote
                          Event.promoted (pos 100) (pos 0) none
                  ]
              ]
          ]
      ]
  ]

-- A failed scale raises the event before the webhooks are told.
unfoldable pub do_rollback : StateMachine → Prog Unit
do_rollback s = do
  err ← act (scale (pos 0))
  elim err [
    | some e ↦
        fire Event.fail []
          (tell s "Rolling back deployment failed" State.rollback Event.fail (some e) (ret tt))
    | none ↦ do
      act (sleep 4)
      err ← act remove_candidate
      elim err [
        | some e ↦
            finish s "Rolling back deployment failed" State.rollback Event.fail (pos 100) (pos 0)
              (some e)
        | none ↦
            finish s "Deployment rolled back" State.rollback Event.complete (pos 100) (pos 0) none
      ]
  ]

abbrev fail_destroy : StateMachine → ℤ → ℤ → String → Prog Unit
fail_destroy s p c e = finish s "Remove release failed" State.destroy Event.fail p c (some e)

unfoldable pub do_destroy : StateMachine → Prog Unit
do_destroy s = do
  err ← act restore_original
  elim err [
    | some e ↦ fail_destroy s (pos 100) (pos 0) e
    | none ↦ do
      err ← act (wait_until_service_healthy candidate)
      elim err [
        | some e ↦ fail_destroy s (pos 100) (pos 0) e
        | none ↦ do
          err ← act (scale (pos 100))
          elim err [
            | some e ↦ fail_destroy s (pos 100) (pos 0) e
            | none ↦ do
              act (sleep 4)
              err ← act remove_primary
              elim err [
                | some e ↦ fail_destroy s (pos 0) (pos 100) e
                | none ↦ do
                  err ← act destroy_config
                  elim err [
                    | some e ↦ fail_destroy s (pos 0) (pos 100) e
                    | none ↦
                        finish s "Remove release succeeded" State.destroy Event.complete (pos 0)
                          (pos 100) none
                  ]
              ]
          ]
      ]
  ]

-- The `enter_` callbacks of `New`: the goroutine that entering a state starts, if it starts one.
unfoldable pub goroutine : StateMachine → State → List ℤ → Option (Prog Unit)
goroutine s State.configure args = some (do_configure s)
goroutine s State.deploy args = some (do_deploy s)
goroutine s State.monitor args = some (do_monitor s)
goroutine s State.scale args = some (do_scale s args)
goroutine s State.promote args = some (do_promote s)
goroutine s State.rollback args = some (do_rollback s)
goroutine s State.destroy args = some (do_destroy s)
goroutine s State.start args = none
goroutine s State.idle args = none
goroutine s State.fail args = none
