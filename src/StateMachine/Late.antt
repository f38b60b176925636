-- ===== src/StateMachine/Late.antt =====
-- A goroutine of statemachine.go that raises its event late, when the machine has gone on to another
-- state.
use mathlib.Core.List.{◌++◌}
use consul_release_controlle.Prelude.{◌≡◌, refl, ap, ◌∙◌, some, List, [], ◌∷◌, ℤ, Option, none}
use consul_release_controlle.Interfaces.{State, Event}
use consul_release_controlle.Fsm.{Fsm}
use consul_release_controlle.StateMachine.Calls.{Prog, ret, call, fire}
use consul_release_controlle.StateMachine.Handlers.{StateMachine}
use consul_release_controlle.StateMachine.Rollout.{goroutine, do_rollback, do_destroy}
use consul_release_controlle.StateMachine.Table.{dst_of}
use consul_release_controlle.StateMachine.Machine.{
  Outside, System, leave_state, enter_state, start_task, move, raise, raise_lem, advance,
  machine-move,
}
use consul_release_controlle.StateMachine.Interleaving.{
  Step, Reach, here, later, request, task, destroy_request, stale_complete_ends_destroy,
}

module _ {W : Type 0} (out : Outside W) where
  -- What is left of a goroutine that runs alone up to its first event, and the outside then.
  unfoldable pub pause : Prog Unit → W → Prog Unit × W
  pause (ret u) w = (ret u, w)
  pause (fire e args p) w = (fire e args p, w)
  pause (call c k) w = pause (k (out.perform c w).0) (out.perform c w).1

  abbrev pub system : StateMachine → List (Prog Unit) → W → System W
  system m ts w = record { machine = m; tasks = ts; world = w }

  leave_state-machine :
      (o : Option State) (s : System W)
      → (leave_state out o s) ≡ record s { world = (leave_state out o s).world }
  unfolding leave_state
  leave_state-machine none s = refl
  leave_state-machine (some d) s = refl

  -- Entering destroy starts its goroutine behind the others.
  tasks-move_destroy :
      (s : System W)
      → (move out State.destroy [] s).tasks
        ≡ s.tasks ++ do_destroy (record s.machine { current = State.destroy }) ∷ []
  unfolding move enter_state start_task goroutine
  tasks-move_destroy s =
      ap
        (λ (x : System W).
          x.tasks ++ do_destroy (record x.machine { current = State.destroy }) ∷ [])
        (leave_state-machine s.machine.metrics_done s)

  module _ (fsm : Fsm) where
    first_step : {s t u : System W} → Step out fsm s t → Reach out fsm t u → Reach out fsm s u
    first_step st here = later here st
    first_step st (later r last) = later (first_step st r) last

    Reach-pause :
        (m : StateMachine) (p : Prog Unit) (ts : List (Prog Unit)) (w : W)
        → Reach out fsm (system m (p ∷ ts) w) (system m ((pause p w).0 ∷ ts) (pause p w).1)
    unfolding pause advance
    Reach-pause m (ret u) ts w = here
    Reach-pause m (fire e args p) ts w = here
    Reach-pause m (call c k) ts w =
        first_step (task (system m (call c k ∷ ts) w) [] (call c k) ts refl)
          (Reach-pause m (k (out.perform c w).0) ts (out.perform c w).1)

    destroy_in_rollback :
        {d : State} → d ≡ State.rollback → dst_of d Event.destroy ≡ some State.destroy
    unfolding dst_of
    destroy_in_rollback h = rw h

    -- Let a machine be in the state rollback, with the goroutine of the roll back just started, and let
    -- the roll back go well, so that it comes to raise complete. If a destroy is requested just before it
    -- does, then that complete ends the destroy: the machine is idle, while the whole goroutine of the
    -- destroy is still to run.
    pub late_rollback_ends_destroy :
        (m : StateMachine) (ts : List (Prog Unit)) (w : W) {args : List ℤ} {q : Prog Unit}
        → m.current ≡ State.rollback
        → (pause (do_rollback m) w).0 ≡ fire Event.complete args q
        → (t : System W) × Reach out fsm (system m (do_rollback m ∷ ts) w) t
          × (t.machine.current ≡ State.idle)
          × ((n : StateMachine) × (n.current ≡ State.destroy)
              × (t.tasks ≡ q ∷ ts ++ do_destroy n ∷ []))
    unfolding ◌++◌
    late_rollback_ends_destroy m ts w {args} {q} in_rollback paused =
        let before = system m (fire Event.complete args q ∷ ts) (pause (do_rollback m) w).1 in
        let reached : Reach out fsm (system m (do_rollback m ∷ ts) w) before =
          rw (← paused) (Reach-pause m (do_rollback m) ts w) in
        let asked = (raise out fsm Event.destroy [] before).1 in
        let raised : asked ≡ move out State.destroy [] before =
          ap (λ x. x.1)
            (raise_lem out fsm Event.destroy [] before (destroy_in_rollback in_rollback)) in
        let n = record m { current = State.destroy } in
        let tasks : asked.tasks ≡ fire Event.complete args q ∷ (ts ++ do_destroy n ∷ []) =
          ap (λ (x : System W). x.tasks) raised ∙ tasks-move_destroy before in
        let current : asked.machine.current ≡ State.destroy =
          ap (λ (x : System W). x.machine.current) raised
          ∙ ap (λ x. x.current) (machine-move out State.destroy [] before).1 in
        let (t, step, idle, left) =
          stale_complete_ends_destroy out fsm asked [] (ts ++ do_destroy n ∷ []) args q current
            tasks in
        (t, later (later reached (request before destroy_request)) step, idle, (n, refl, left))
