-- ===== src/StateMachine/Drain.antt =====
-- No instances are removed while the splitter may still send them traffic.
use consul_release_controlle.Prelude.{
  refl, Bool, true, false, Option, none, some, List, [], ◌∷◌, ℤ, pos, eqb_ℤ,
}
use consul_release_controlle.Interfaces.{State}
use consul_release_controlle.StateMachine.Calls.{
  Call, Reply, scale, remove_candidate, remove_primary,
}
use consul_release_controlle.StateMachine.Handlers.{StateMachine, do_configure, do_deploy}
use consul_release_controlle.StateMachine.Rollout.{
  goroutine, do_monitor, do_scale, do_promote, do_rollback, do_destroy,
}
use consul_release_controlle.StateMachine.Discipline.{
  Rule, ObeysAny, ChecksAny, ChecksAny-ObeysAny, IgnoresWebhooks, finish-Checks, tell-Checks,
  if-Checks,
}

abbrev is_split : Option ℤ → ℤ → Bool
is_split none v = false
is_split (some x) v = eqb_ℤ x v

abbrev after_call : Option ℤ → (c : Call) → Reply c → Option ℤ
after_call s (scale v) none = some v
after_call s (scale v) (some e) = none
after_call s c r = s

abbrev may_call : Option ℤ → Call → Bool
may_call s remove_candidate = is_split s (pos 0)
may_call s remove_primary = is_split s (pos 100)
may_call s c = true

-- The state is the share of the candidate that the last `Scale` set, if that `Scale` succeeded.
-- The candidate may be removed at a share of 0, and the primary at a share of 100.
abbrev pub drain : Rule (Option ℤ)
drain = record {
  allow = may_call;
  next = after_call;
  allow_event = λ s e. true;
  next_event = λ s e. s;
  final = λ s. true;
}

drain-IgnoresWebhooks : IgnoresWebhooks drain
drain-IgnoresWebhooks = record {
  allowed = λ s w x. refl;
  kept = λ s w x r. refl;
  primary_allowed = λ s. refl;
  primary_kept = λ s n. refl;
  candidate_allowed = λ s. refl;
  candidate_kept = λ s n. refl;
}

-- The obligations of the goroutine for a state; a state without one has none.
goroutine-drain :
    (sm : StateMachine) (d : State) (args : List ℤ) → ChecksAny drain none (goroutine sm d args)
unfolding goroutine do_configure do_deploy do_monitor do_scale do_promote do_rollback do_destroy
goroutine-drain sm State.start args = tt
goroutine-drain sm State.scale [] = (refl, refl)
goroutine-drain sm State.scale (v ∷ w ∷ args) = (refl, refl)
goroutine-drain sm _ args =
    search
      (
        refl,
        finish-Checks drain drain-IgnoresWebhooks,
        tell-Checks drain drain-IgnoresWebhooks,
        if-Checks drain drain-IgnoresWebhooks,
      )
      depth 22

-- In the goroutine of every state, whatever the plugins reply: the candidate is removed only after
-- a `Scale(0)` that succeeded, the primary only after a `Scale(100)` that succeeded, and no other
-- `Scale` was called in between.
pub goroutine-ObeysDrain :
    (sm : StateMachine) (d : State) (args : List ℤ) → ObeysAny drain none (goroutine sm d args)
goroutine-ObeysDrain sm d args = ChecksAny-ObeysAny drain none _ (goroutine-drain sm d args)
