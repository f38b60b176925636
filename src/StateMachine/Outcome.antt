-- ===== src/StateMachine/Outcome.antt =====
-- How a goroutine ends: the first failure stops it, and it raises one event that fits.
use consul_release_controlle.Prelude.{
  ◌≢◌, refl, Bool, true, false, not, ◌&&◌, Option, none, some, [], ◌∷◌, ℤ,
}
use consul_release_controlle.Interfaces.{State, Event}
use consul_release_controlle.Fsm.Lookup.{eq_event}
use consul_release_controlle.StateMachine.Calls.{
  Error, Call, Reply, setup, scale, wait_until_service_healthy, destroy_config, init_primary,
  promote_candidate, remove_candidate, restore_original, remove_primary, execute_test,
  execute_strategy, get_primary_traffic, get_candidate_traffic, send,
}
use consul_release_controlle.StateMachine.Handlers.{StateMachine, do_configure, do_deploy}
use consul_release_controlle.StateMachine.Rollout.{
  goroutine, do_scale, do_promote, do_rollback, do_destroy,
}
use consul_release_controlle.StateMachine.Table.{dst_of}
use consul_release_controlle.StateMachine.Discipline.{
  Rule, ObeysAny, ChecksAny, ChecksAny-ObeysAny, IgnoresWebhooks, finish-Checks, tell-Checks,
}

-- No call has failed; one has, and no event is raised yet; the event is raised.
pub data Progress : Type 0 where
  working broken ended : Progress

abbrev is_error : Error → Bool
is_error none = false
is_error (some e) = true

-- The plugin has returned an error. Errors of the webhooks do not count.
abbrev pub fails : (c : Call) → Reply c → Bool
fails (setup p c) r = is_error r
fails (scale v) r = is_error r
fails (wait_until_service_healthy f) r = is_error r
fails destroy_config r = is_error r
fails (init_primary n) r = is_error r.1
fails promote_candidate r = is_error r.1
fails remove_candidate r = is_error r
fails restore_original r = is_error r
fails remove_primary r = is_error r
fails (execute_test n) r = is_error r
fails (execute_strategy n) r = is_error r.2
fails c r = false

abbrev is_notice : Call → Bool
is_notice get_primary_traffic = true
is_notice get_candidate_traffic = true
is_notice (send w x) = true
is_notice c = false

abbrev pub broken_if : Bool → Progress
broken_if true = broken
broken_if false = working

abbrev may_go_on : Progress → Call → Bool
may_go_on working c = true
may_go_on s c = is_notice c

abbrev after_call : Progress → (c : Call) → Reply c → Progress
after_call working c r = broken_if (fails c r)
after_call s c r = s

abbrev pub is_accepted : Option State → Bool
is_accepted none = false
is_accepted (some d) = true

abbrev may_raise : State → Progress → Event → Bool
may_raise d working e = not (eq_event e Event.fail) && is_accepted (dst_of d e)
may_raise d broken e = eq_event e Event.fail && is_accepted (dst_of d e)
may_raise d ended e = false

abbrev is_ended : Progress → Bool
is_ended ended = true
is_ended s = false

-- The rule for the goroutine of the state `d`: after a failed call only webhooks are told; exactly
-- one event is raised, `fail` after a failed call and another event otherwise, and the machine
-- accepts it in `d`.
abbrev pub outcome : State → Rule Progress
outcome d = record {
  allow = may_go_on;
  next = after_call;
  allow_event = may_raise d;
  next_event = λ s e. ended;
  final = is_ended;
}

outcome-IgnoresWebhooks : (d : State) → IgnoresWebhooks (outcome d)
outcome-IgnoresWebhooks d = record {
  allowed = elim [ working ↦ λ w x. refl | _ ↦ λ w x. refl ];
  kept = elim [ working ↦ λ w x r. refl | _ ↦ λ w x r. refl ];
  primary_allowed = elim [ working ↦ refl | _ ↦ refl ];
  primary_kept = elim [ working ↦ λ n. refl | _ ↦ λ n. refl ];
  candidate_allowed = elim [ working ↦ refl | _ ↦ refl ];
  candidate_kept = elim [ working ↦ λ n. refl | _ ↦ λ n. refl ];
}

goroutine-outcome :
    (sm : StateMachine) (d : State) (v : ℤ)
    → d ≢ State.monitor
    → ChecksAny (outcome d) working (goroutine sm d (v ∷ []))
unfolding goroutine do_configure do_deploy do_scale do_promote do_rollback do_destroy dst_of
    eq_event
goroutine-outcome sm State.monitor v h = absurd (h refl)
goroutine-outcome sm State.start v h = tt
goroutine-outcome sm d v h =
    search
      (
        refl,
        finish-Checks (outcome d) (outcome-IgnoresWebhooks d),
        tell-Checks (outcome d) (outcome-IgnoresWebhooks d),
      )
      depth 24

-- In the goroutine of every state but the monitor's, started with one argument, whatever the plugins
-- reply: after the first error of a plugin nothing but webhooks is called; exactly one event is
-- raised, it is the fail event just if a plugin returned an error, and the machine accepts it in the
-- state that started the goroutine.
pub goroutine-ObeysOutcome :
    (sm : StateMachine) (d : State) (v : ℤ)
    → d ≢ State.monitor
    → ObeysAny (outcome d) working (goroutine sm d (v ∷ []))
goroutine-ObeysOutcome sm d v h =
    ChecksAny-ObeysAny (outcome d) working _ (goroutine-outcome sm d v h)
