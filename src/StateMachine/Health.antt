-- ===== src/StateMachine/Health.antt =====
-- Traffic goes to instances that were just created only once they are healthy.
use consul_release_controlle.Prelude.{refl, Bool, true, false, not, ◌||◌, ◌&&◌, none, ℤ, pos, eqb_ℤ}
use consul_release_controlle.Interfaces.{Subset, primary, candidate}
use consul_release_controlle.StateMachine.Calls.{
  Call, Reply, scale, wait_until_service_healthy, init_primary, promote_candidate, restore_original,
}
use consul_release_controlle.StateMachine.Handlers.{StateMachine, do_configure, do_deploy}
use consul_release_controlle.StateMachine.Rollout.{do_promote, do_destroy}
use consul_release_controlle.StateMachine.Discipline.{
  Rule, Obeys, Checks, Checks-Obeys, IgnoresWebhooks, finish-Checks,
}

-- The subset of the instances that a call to the runtime plugin creates.
abbrev creates : Call → Subset → Bool
creates (init_primary name) primary = true
creates promote_candidate primary = true
creates restore_original candidate = true
creates c f = false

abbrev same_subset : Subset → Subset → Bool
same_subset primary primary = true
same_subset candidate candidate = true
same_subset a b = false

abbrev after_health : Subset → Bool → (c : Call) → Reply c → Bool
after_health f s (wait_until_service_healthy g) none = s || same_subset g f
after_health f s (init_primary n) r = s && not (creates (init_primary n) f)
after_health f s promote_candidate r = s && not (creates promote_candidate f)
after_health f s restore_original r = s && not (creates restore_original f)
after_health f s c r = s

abbrev may_scale : ℤ → Bool → Call → Bool
may_scale v s (scale w) = not (eqb_ℤ v w) || s
may_scale v s c = true

-- `Scale` is called with the value `v` only after the instances of `f` were healthy, with no call
-- since then that creates instances of `f`. The state says that they were.
abbrev pub healthy_first : ℤ → Subset → Rule Bool
healthy_first v f = record {
  allow = may_scale v;
  next = after_health f;
  allow_event = λ s e. true;
  next_event = λ s e. s;
  final = λ s. true;
}

healthy_first-IgnoresWebhooks : (v : ℤ) (f : Subset) → IgnoresWebhooks (healthy_first v f)
healthy_first-IgnoresWebhooks v f = record {
  allowed = λ s w x. refl;
  kept = λ s w x r. refl;
  primary_allowed = λ s. refl;
  primary_kept = λ s n. refl;
  candidate_allowed = λ s. refl;
  candidate_kept = λ s n. refl;
}

all_healthy :
    (sm : StateMachine)
    → Checks (healthy_first (pos 0) primary) false (do_configure sm)
      × Checks (healthy_first (pos 0) primary) false (do_deploy sm)
      × Checks (healthy_first (pos 0) primary) false (do_promote sm)
      × Checks (healthy_first (pos 100) candidate) false (do_destroy sm)
unfolding do_configure do_deploy do_promote do_destroy
all_healthy sm =
    search
      (
        refl,
        finish-Checks _ (healthy_first-IgnoresWebhooks (pos 0) primary),
        finish-Checks _ (healthy_first-IgnoresWebhooks (pos 100) candidate),
      )
      depth 24

-- Whatever the plugins reply: configuring, deploying and promoting send all traffic to the primary
-- only after the primary was found healthy, later than any call that may have created it; and
-- destroying sends it to the candidate only after the restored candidate was found healthy.
pub traffic_after_health :
    (sm : StateMachine)
    → Obeys (healthy_first (pos 0) primary) false (do_configure sm)
      × Obeys (healthy_first (pos 0) primary) false (do_deploy sm)
      × Obeys (healthy_first (pos 0) primary) false (do_promote sm)
      × Obeys (healthy_first (pos 100) candidate) false (do_destroy sm)
traffic_after_health sm =
    let (configure, deploy, promote, destroy) = all_healthy sm in
    (
      Checks-Obeys _ false _ configure,
      Checks-Obeys _ false _ deploy,
      Checks-Obeys _ false _ promote,
      Checks-Obeys _ false _ destroy,
    )
