-- ===== src/StateMachine/Handlers.antt =====
-- The record behind the handlers of statemachine.go, `callWebhooks`, and the goroutines of
-- `doConfigure` and `doDeploy`. Those of the other states are in Rollout.antt.
use consul_release_controlle.Prelude.{ℤ, pos, String, Option, none, some, List, [], ◌∷◌, Bool}
use consul_release_controlle.Interfaces.{
  State, Event, RuntimeDeploymentStatus, primary, candidate, WebhookMessage,
}
use consul_release_controlle.Release.{PluginConfig, Release}
use consul_release_controlle.StateMachine.Calls.{
  Error, Prog, ret, setup, scale, wait_until_service_healthy, init_primary, remove_candidate,
  get_primary_traffic, get_candidate_traffic, send, sleep, ◌>>=◌, ◌>>◌, act, event,
}

-- The fields of `StateMachine` that the handlers read, the state of the embedded `fsm.FSM`, and
-- the state that `metricsDone` times, if it is set. `webhooks` are the configured webhook plugins,
-- and `has_test` says that there is a post deployment test plugin.
pub record StateMachine : Type 0 where
  pub release : Release
  pub webhooks : List PluginConfig
  pub has_test : Bool
  pub current : State
  pub metrics_done : Option State

abbrev error_string : Error → String
error_string none = ""
error_string (some e) = e

-- The loop of `callWebhooks`. An error of a webhook is logged and the loop goes on.
unfoldable pub send_all : List PluginConfig → WebhookMessage → Prog Unit
send_all [] message = ret tt
send_all (w ∷ ws) message = do act (send w message); send_all ws message

unfoldable pub call_webhooks : StateMachine → String → State → Event → ℤ → ℤ → Error → Prog Unit
call_webhooks s title state result primary_traffic candidate_traffic err =
    send_all s.webhooks (record {
      title = title;
      name = s.release.name;
      namespace = s.release.namespace;
      state = state;
      outcome = result;
      primary_traffic = primary_traffic;
      candidate_traffic = candidate_traffic;
      error = error_string err;
    })

-- The block that ends a handler: the webhooks are told the outcome, then the event is raised.
unfoldable pub finish : StateMachine → String → State → Event → ℤ → ℤ → Error → Prog Unit
finish s title state result primary_traffic candidate_traffic err = do
  call_webhooks s title state result primary_traffic candidate_traffic err
  event result

-- `callWebhooks` with the traffic that the strategy plugin reports, and what follows it.
unfoldable pub tell : StateMachine → String → State → Event → Error → Prog Unit → Prog Unit
tell s title state result err rest = do
  p ← act get_primary_traffic
  c ← act get_candidate_traffic
  call_webhooks s title state result p c err
  rest

abbrev fail_configure : StateMachine → ℤ → ℤ → String → Prog Unit
fail_configure s p c e = finish s "Configure release failed" State.configure Event.fail p c (some e)

abbrev configured : StateMachine → Prog Unit
configured s =
    finish s "Configure release succeeded" State.configure Event.configured (pos 100) (pos 0) none

unfoldable pub do_configure : StateMachine → Prog Unit
do_configure s = do
  err ← act (setup primary candidate)
  elim err [
    | some e ↦ fail_configure s (pos 0) (pos 100) e
    | none ↦ do
      act (sleep 1)
      result ← act (init_primary s.release.name)
      elim result.1 [
        | some e ↦ fail_configure s (pos 0) (pos 100) e
        | none ↦ elim result.0 [
          | RuntimeDeploymentStatus.update ↦ do
            err ← act (wait_until_service_healthy primary)
            elim err [
              | some e ↦ fail_configure s (pos 0) (pos 100) e
              | none ↦ do
                err ← act (scale (pos 0))
                elim err [
                  | some e ↦ fail_configure s (pos 0) (pos 100) e
                  | none ↦ do
                    act (sleep 4)
                    err ← act remove_candidate
                    elim err [ some e ↦ fail_configure s (pos 100) (pos 0) e | none ↦ configured s ]
                ]
            ]
          | _ ↦ configured s
        ]
      ]
  ]

abbrev fail_deploy : StateMachine → String → String → Prog Unit
fail_deploy s title e = finish s title State.deploy Event.fail (pos 100) (pos 0) (some e)

unfoldable pub do_deploy : StateMachine → Prog Unit
do_deploy s = do
  act (sleep 1)
  result ← act (init_primary s.release.name)
  elim result.1 [
    | some e ↦ fail_deploy s "New Deployment failed" e
    | none ↦ do
      err ← act (wait_until_service_healthy primary)
      elim err [
        | some e ↦ fail_deploy s "New Deployment failed" e
        | none ↦ do
          err ← act (scale (pos 0))
          elim err [
            | some e ↦ fail_deploy s "New Deployment failed" e
            | none ↦ elim result.0 [
              | RuntimeDeploymentStatus.update ↦ do
                act (sleep 4)
                err ← act remove_candidate
                elim err [
                  | some e ↦ fail_deploy s "New deployment failed" e
                  | none ↦
                      finish s "New deployment succeeded" State.deploy Event.complete (pos 100)
                        (pos 0) none
                ]
              | _ ↦
                  finish s "New deployment succeeded, executing strategy" State.deploy
                    Event.deployed (pos 100) (pos 0) none
            ]
          ]
      ]
  ]
