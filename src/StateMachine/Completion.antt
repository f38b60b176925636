-- ===== src/StateMachine/Completion.antt =====
-- The state machine with the canary strategy: a roll out whose calls succeed and whose checks pass ends
-- with the promotion of the candidate.
use mathlib.Core.Path.{subst}
use consul_release_controlle.Prelude.{
  ◌≡◌, refl, sym, ap, ◌∙◌, Bool, true, false, none, some, List, [], ◌∷◌, ℕ, zero, suc, ℤ, pos,
  String, if◌then◌else◌,
}
use consul_release_controlle.Interfaces.{State, Event, primary}
use consul_release_controlle.Fsm.{Fsm}
use consul_release_controlle.Canary.{Plugin, Deps, Result, execute}
use consul_release_controlle.Canary.Bounds.{IsValid, InRange}
use consul_release_controlle.Canary.Rollout.{IsHealthy}
use consul_release_controlle.Canary.Steps.{
  Left-InRange, not-Left, IsReady, Steps, is_complete, goes_on, execute-Steps,
}
use consul_release_controlle.StateMachine.Calls.{
  Error, Call, Reply, Prog, call, scale, wait_until_service_healthy, promote_candidate,
  remove_candidate, candidate_name, execute_test, execute_strategy, sleep,
}
use consul_release_controlle.StateMachine.Handlers.{StateMachine}
use consul_release_controlle.StateMachine.Rollout.{
  goroutine, do_monitor, do_scale, do_promote, run_tests, after_tests, run_strategy, report_error,
  switch_result,
}
use consul_release_controlle.StateMachine.Table.{dst_of}
use consul_release_controlle.StateMachine.Machine.{Outside, System, entered}
use consul_release_controlle.StateMachine.Alone.{
  Succeeds, no_error, at, Raises, fire-Raises, reply-Raises, call-Raises, tell-Raises,
  finish-Raises, next, next-Enters,
}

module _ {W Q : Type 0} (out : Outside W) (fsm : Fsm) (view : W → Q) (succeeds : Succeeds out view)
    (m : StateMachine) (ts : List (Prog Unit)) (q : Q) where
  abbrev Raised : Prog Unit → W → Event → List ℤ → Type 0
  Raised = Raises out fsm view succeeds m ts q

  do_scale-Raises :
      (sm : StateMachine) (v : ℤ) (w : W)
      → view w ≡ q
      → Raised (do_scale sm (v ∷ [])) w Event.scaled []
  unfolding do_scale
  do_scale-Raises sm v w h =
      call-Raises out fsm view succeeds m ts q (scale v) _ w Event.scaled [] refl h
        (no_error _ (succeeds.works (scale v) w refl))
        (λ w' h'.
          tell-Raises out fsm view succeeds m ts q sm _ _ _ none _ w' Event.scaled [] h'
            (fire-Raises out fsm view succeeds m ts q Event.scaled []))

  pair_none : {A : Type 0} (r : A × Error) → r.1 ≡ none → r ≡ (r.0, none)
  pair_none r h = ap (λ e. (r.0, e)) h

  do_promote-Raises :
      (sm : StateMachine) (w : W) → view w ≡ q → Raised (do_promote sm) w Event.promoted []
  unfolding do_promote
  do_promote-Raises sm w h =
      let go = call-Raises out fsm view succeeds m ts q in
      go (scale (pos 100)) _ w Event.promoted [] _ refl h
        (no_error _ (succeeds.works (scale (pos 100)) w refl))
        (λ w1 h1. go (sleep 1) _ w1 Event.promoted [] _ refl h1 refl (λ w2 h2.
          go promote_candidate _ w2 Event.promoted [] _ refl h2
            (pair_none _ (no_error _ (succeeds.works promote_candidate w2 refl)))
            (λ w3 h3.
              go (wait_until_service_healthy primary) _ w3 Event.promoted [] _ refl h3
                (no_error _ (succeeds.works (wait_until_service_healthy primary) w3 refl))
                (λ w4 h4.
                  go (scale (pos 0)) _ w4 Event.promoted [] _ refl h4
                    (no_error _ (succeeds.works (scale (pos 0)) w4 refl))
                    (λ w5 h5. go (sleep 4) _ w5 Event.promoted [] _ refl h5 refl (λ w6 h6.
                      go remove_candidate _ w6 Event.promoted [] _ refl h6
                        (no_error _ (succeeds.works remove_candidate w6 refl))
                        (λ w7 h7.
                          finish-Raises out fsm view succeeds m ts q sm _ _ Event.promoted _ _ none
                            w7 h7)))))))

-- The candidate's name does not change, and `Execute` of the strategy plugin is the canary's, over the
-- plugin that the world holds.
pub record RunsCanary {W : Type 0} (out : Outside W) (deps : Deps W) (name : String)
    (plug : W → Plugin) : Type 0 where
  pub named : (w : W) → (out.perform candidate_name w).0 ≡ name
  pub replies :
      (w : W) (r : Result W)
      → execute deps name (plug w) w ≡ some r
      → (out.perform (execute_strategy name) w).0 ≡ (r.status, r.traffic, r.err)
  pub changes :
      (w : W) (r : Result W)
      → execute deps name (plug w) w ≡ some r
      → plug (out.perform (execute_strategy name) w).1 ≡ r.plugin

module _ {W : Type 0} (out : Outside W) (fsm : Fsm) (deps : Deps W) (name : String)
    (plug : W → Plugin) (succeeds : Succeeds out plug)
    (canary : RunsCanary out deps name plug) where
  -- The event that the monitor's goroutine raises, and the plugin that it leaves.
  data Decides (n : ℕ) : Event → List ℤ → Plugin → Type 0 where
    ends : {q : Plugin} → Decides n Event.complete [] q
    scales : {q : Plugin} (t : ℤ) → IsReady deps name n q → Decides n Event.healthy (t ∷ []) q

  module _ (m : StateMachine) (ts : List (Prog Unit)) (n : ℕ) where
    Finishes : Prog Unit → W → Type 0
    Finishes p w =
        (e : Event) × (args : List ℤ) × (q : Plugin) × Raises out fsm plug succeeds m ts q p w e
          args
        × Decides n e args q

    call-Finishes :
        (c : Call) (k : Reply c → Prog Unit) (w : W) {r : Reply c}
        → (out.perform c w).0 ≡ r
        → Finishes (k r) (out.perform c w).1
        → Finishes (call c k) w
    unfolding Finishes
    call-Finishes c k w reply (e, args, q, raises, decides) =
        (e, args, q, reply-Raises out fsm plug succeeds m ts q c k w e args reply raises, decides)

    after-Finishes :
        (sm : StateMachine) (r : Result W) (w : W)
        → plug w ≡ r.plugin
        → Steps deps name n r
        → Finishes (report_error sm r.err (switch_result sm r.status r.traffic r.err)) w
    unfolding Finishes report_error switch_result
    after-Finishes sm r w same (is_complete done fine) =
        rw (done, fine)
          (
            Event.complete,
            [],
            plug w,
            fire-Raises out fsm plug succeeds m ts (plug w) Event.complete [] w refl,
            ends,
          )
    after-Finishes sm r w same (goes_on more fine ready) =
        rw (more, fine)
          (
            Event.healthy,
            r.traffic ∷ [],
            plug w,
            fire-Raises out fsm plug succeeds m ts (plug w) Event.healthy (r.traffic ∷ []) w refl,
            scales r.traffic (rw same ready),
          )

    run_strategy-Finishes :
        (sm : StateMachine) (w : W)
        → IsReady deps name (suc n) (plug w)
        → Finishes (run_strategy sm) w
    unfolding run_strategy
    run_strategy-Finishes sm w ready =
        let w1 = (out.perform candidate_name w).1 in
        let still : IsReady deps name (suc n) (plug w1) =
          rw (succeeds.keeps candidate_name w refl) ready in
        let (r, (run, steps)) = execute-Steps deps name n (plug w1) w1 still in
        call-Finishes candidate_name _ w (canary.named w) (
          call-Finishes (execute_strategy name) _ w1 (canary.replies w1 r run) (
            after-Finishes sm r (out.perform (execute_strategy name) w1).1 (canary.changes w1 r run)
              steps))

    run_tests-Finishes :
        (sm : StateMachine) (w : W) → IsReady deps name (suc n) (plug w) → Finishes (run_tests sm) w
    unfolding run_tests after_tests
    run_tests-Finishes sm w ready =
        let w1 = (out.perform candidate_name w).1 in
        let w2 = (out.perform (execute_test name) w1).1 in
        let kept : plug w2 ≡ plug w =
          succeeds.keeps (execute_test name) w1 refl ∙ succeeds.keeps candidate_name w refl in
        call-Finishes candidate_name _ w (canary.named w) (
          call-Finishes (execute_test name) _ w1
            (no_error _ (succeeds.works (execute_test name) w1 refl))
            (run_strategy-Finishes sm w2 (rw kept ready)))

    do_monitor-Finishes :
        (sm : StateMachine) (w : W)
        → IsReady deps name (suc n) (plug w)
        → Finishes (do_monitor sm) w
    unfolding do_monitor
    do_monitor-Finishes sm w ready = either sm.has_test
      where
        either : (b : Bool) → Finishes (if b then run_tests sm else run_strategy sm) w
        either true = run_tests-Finishes sm w ready
        either false = run_strategy-Finishes sm w ready

  abbrev alone : StateMachine → Prog Unit → W → System W
  alone m p w = at out fsm plug succeeds m (p ∷ []) w

  abbrev then_next : System W → System W
  then_next = next out fsm plug succeeds

  -- From a monitor, with one goroutine at a time: the candidate is scaled and monitored again, at most
  -- so many times, and then promoted, after which the machine is idle and no goroutine is left.
  pub data RollsOut : ℕ → System W → Type 0 where
    promotes :
        {n : ℕ} {s : System W}
        → s.machine.current ≡ State.monitor
        → (then_next s).machine.current ≡ State.promote
        → (then_next (then_next s)).machine.current ≡ State.idle
        → (then_next (then_next s)).tasks ≡ []
        → RollsOut (suc n) s
    goes_further :
        {n : ℕ} {s : System W}
        → s.machine.current ≡ State.monitor
        → (then_next s).machine.current ≡ State.scale
        → RollsOut n (then_next (then_next s))
        → RollsOut (suc n) s

  decided-RollsOut :
      (n : ℕ) (sm m : StateMachine) (w : W) (e : Event) (args : List ℤ) (q : Plugin)
      → m.current ≡ State.monitor
      → Raises out fsm plug succeeds m [] q (do_monitor sm) w e args
      → Decides n e args q
      → ((sm' m' : StateMachine) (w' : W)
          → m'.current ≡ State.monitor
          → IsReady deps name n (plug w')
          → RollsOut n (alone m' (do_monitor sm') w'))
      → RollsOut (suc n) (alone m (do_monitor sm) w)
  unfolding dst_of goroutine
  decided-RollsOut n sm m w e args q here raises ends rest =
      let (time, w1, kept, entered_promote) =
        next-Enters out fsm plug succeeds (do_monitor sm) Event.complete [] m w q State.promote
          raises (ap (λ d. dst_of d Event.complete) here) in
      let m1 = entered out State.promote time m in
      let sm1 = record m { current = State.promote } in
      let (time', w2, kept', entered_idle) =
        next-Enters out fsm plug succeeds (do_promote sm1) Event.promoted [] m1 w1 q State.idle
          (do_promote-Raises out fsm plug succeeds m1 [] q sm1 w1 kept) refl in
      let both = ap then_next entered_promote ∙ entered_idle in
      promotes here (ap (λ s. s.machine.current) entered_promote) (ap (λ s. s.machine.current) both)
        (ap (λ s. s.tasks) both)
  decided-RollsOut n sm m w e args q here raises (scales t ready) rest =
      let (time, w1, kept, entered_scale) =
        next-Enters out fsm plug succeeds (do_monitor sm) Event.healthy (t ∷ []) m w q State.scale
          raises (ap (λ d. dst_of d Event.healthy) here) in
      let m1 = entered out State.scale time m in
      let sm1 = record m { current = State.scale } in
      let (time', w2, kept', entered_monitor) =
        next-Enters out fsm plug succeeds (do_scale sm1 (t ∷ [])) Event.scaled [] m1 w1 q
          State.monitor (do_scale-Raises out fsm plug succeeds m1 [] q sm1 t w1 kept) refl in
      let both = ap then_next entered_scale ∙ entered_monitor in
      goes_further here (ap (λ s. s.machine.current) entered_scale) (
        subst (RollsOut n) (sym both) (
          rest (record m1 { current = State.monitor }) (entered out State.monitor time' m1) w2 refl
            (subst (IsReady deps name n) (sym kept') ready)))

  ready-RollsOut :
      (n : ℕ) (sm m : StateMachine) (w : W)
      → m.current ≡ State.monitor
      → IsReady deps name n (plug w)
      → RollsOut n (alone m (do_monitor sm) w)
  unfolding Finishes
  ready-RollsOut zero sm m w here ready = absurd (not-Left deps name _ ready.left)
  ready-RollsOut (suc n) sm m w here ready =
      let (e, args, q, raises, decides) = do_monitor-Finishes m [] n sm w ready in
      decided-RollsOut n sm m w e args q here raises decides (ready-RollsOut n)

  -- Let the plugins' calls succeed, let the strategy be the canary with a valid configuration, and let its
  -- checks pass. Then a machine that has begun to monitor a deployment, with no other goroutine,
  -- scales and monitors again at most 101 times, promotes the candidate and becomes idle, with no
  -- goroutine left.
  pub roll_out_completes :
      (sm m : StateMachine) (w : W)
      → m.current ≡ State.monitor
      → IsValid (plug w).config
      → IsHealthy deps name (plug w).config
      → InRange (plug w).state.candidate_traffic
      → RollsOut 102 (alone m (do_monitor sm) w)
  roll_out_completes sm m w here valid healthy range =
      ready-RollsOut 102 sm m w here
        (record { valid = valid; healthy = healthy; left = Left-InRange _ range })
