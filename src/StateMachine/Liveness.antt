-- ===== src/StateMachine/Liveness.antt =====
-- A goroutine that is scheduled to its end takes the machine out of the state that started it.
use mathlib.Core.Path.{subst}
use consul_release_controlle.Prelude.{
  ◌≡◌, ◌≢◌, refl, sym, ap, ◌∙◌, Bool, true, false, Option, none, some, List, [], ◌∷◌, ℤ, arith,
}
use consul_release_controlle.Interfaces.{State, Event}
use consul_release_controlle.Fsm.{Fsm}
use consul_release_controlle.StateMachine.Calls.{Call, Reply, Prog, ret, call, fire}
use consul_release_controlle.StateMachine.Handlers.{StateMachine}
use consul_release_controlle.StateMachine.Rollout.{goroutine}
use consul_release_controlle.StateMachine.Table.{dst_of}
use consul_release_controlle.StateMachine.Machine.{
  Outside, System, machine-move, raise, raise_lem, advance,
}
use consul_release_controlle.StateMachine.Discipline.{Obeys, ObeysAny}
use consul_release_controlle.StateMachine.Outcome.{
  Progress, working, broken, ended, outcome, fails, broken_if, is_accepted, goroutine-ObeysOutcome,
}
use consul_release_controlle.StateMachine.Interleaving.{Reach, here, later, task}

-- The system with one more goroutine.
abbrev pub with_task : {W : Type 0} → Prog Unit → System W → System W
with_task p s = record s { tasks = p ∷ s.tasks }

-- The table takes the state by some event to the current one.
pub record HasLeft {W : Type 0} (d : State) (s : System W) : Type 0 where
  pub by : Event
  pub moved : dst_of d by ≡ some s.machine.current

-- The state before the event of the goroutine is raised, and after it.
abbrev Holds : {W : Type 0} → State → Progress → System W → Type 0
Holds d working s = s.machine.current ≡ d
Holds d broken s = s.machine.current ≡ d
Holds d ended s = HasLeft d s

accepted : (o : Option State) → is_accepted o ≡ true → (d : State) × (o ≡ some d)
accepted none h = cc
accepted (some d) h = (d, refl)

module _ {W : Type 0} (out : Outside W) (fsm : Fsm) where
  -- The goroutine makes its calls and raises its events with no other goroutine in between.
  unfoldable pub run_to_end : Prog Unit → System W → System W
  run_to_end (ret u) s = s
  run_to_end (call c k) s =
      let (reply, w) = out.perform c s.world in run_to_end (k reply) (record s { world = w })
  run_to_end (fire e args p) s = run_to_end p (raise out fsm e args s).1

  Reach-trans : {s t u : System W} → Reach out fsm s t → Reach out fsm t u → Reach out fsm s u
  Reach-trans r here = r
  Reach-trans r (later q st) = later (Reach-trans r q) st

  run_to_end-Reach : (p : Prog Unit) (s : System W) → Reach out fsm (with_task p s) (run_to_end p s)
  unfolding run_to_end advance
  run_to_end-Reach (ret u) s = later here (task (with_task (ret u) s) [] (ret u) s.tasks refl)
  run_to_end-Reach (call c k) s =
      let (reply, w) = out.perform c s.world in
      Reach-trans (later here (task (with_task (call c k) s) [] (call c k) s.tasks refl))
        (run_to_end-Reach (k reply) (record s { world = w }))
  run_to_end-Reach (fire e args p) s =
      Reach-trans (later here (task (with_task (fire e args p) s) [] (fire e args p) s.tasks refl))
        (run_to_end-Reach p (raise out fsm e args s).1)

  raise-HasLeft :
      (d d' : State) (e : Event) (args : List ℤ) (s : System W)
      → s.machine.current ≡ d
      → dst_of d e ≡ some d'
      → HasLeft d (raise out fsm e args s).1
  raise-HasLeft d d' e args s at row =
      let raised = raise_lem out fsm e args s (ap (λ x. dst_of x e) at ∙ row) in
      let (time, same) = machine-move out d' args s in
      record {
        by = e;
        moved =
            row ∙ ap some (sym (ap (λ r. r.1.machine.current) raised ∙ ap (λ m. m.current) same));
      }

  final-HasLeft :
      (d : State) (st : Progress) (s : System W)
      → (outcome d).final st ≡ true
      → Holds d st s
      → HasLeft d s
  final-HasLeft d ended s done h = h
  final-HasLeft d working s done h = cc
  final-HasLeft d broken s done h = cc

  call-Holds :
      (d : State) (st : Progress) (c : Call) (r : Reply c) (s : System W) (w : W)
      → Holds d st s
      → Holds d ((outcome d).next st c r) (record s { world = w })
  call-Holds d broken c r s w h = h
  call-Holds d ended c r s w h = record { by = h.by; moved = h.moved }
  call-Holds d working c r s w h = either (fails c r)
    where
      either : (b : Bool) → Holds d (broken_if b) (record s { world = w })
      either true = h
      either false = h

  fire-HasLeft :
      (d : State) (st : Progress) (e : Event) (args : List ℤ) (s : System W)
      → (outcome d).allow_event st e ≡ true
      → Holds d st s
      → HasLeft d (raise out fsm e args s).1
  fire-HasLeft d ended e args s allowed h = cc
  fire-HasLeft d working e args s allowed h =
      let (d', row) = accepted (dst_of d e) (ground arith) in raise-HasLeft d d' e args s h row
  fire-HasLeft d broken e args s allowed h =
      let (d', row) = accepted (dst_of d e) (ground arith) in raise-HasLeft d d' e args s h row

  run_to_end-HasLeft :
      (d : State) (st : Progress) (p : Prog Unit) (s : System W)
      → Obeys (outcome d) st p
      → Holds d st s
      → HasLeft d (run_to_end p s)
  unfolding run_to_end
  run_to_end-HasLeft d st (ret u) s obeys h = final-HasLeft d st s obeys h
  run_to_end-HasLeft d st (call c k) s obeys h =
      let (reply, w) = out.perform c s.world in
      run_to_end-HasLeft d ((outcome d).next st c reply) (k reply) (record s { world = w })
        (obeys.1 reply) (call-Holds d st c reply s w h)
  run_to_end-HasLeft d st (fire e args p) s obeys h =
      run_to_end-HasLeft d ended p (raise out fsm e args s).1 obeys.1
        (fire-HasLeft d st e args s obeys.0 h)

  -- In a state other than the monitor's, let a goroutine that the state has started (with one
  -- argument) be scheduled alone to its end. That is a run of the system, and after it the machine
  -- has left the state by an event of the table, whatever is outside of the machine does.
  pub goroutine_leaves :
      (sm : StateMachine) (d : State) (v : ℤ) (p : Prog Unit) (s : System W)
      → d ≢ State.monitor
      → goroutine sm d (v ∷ []) ≡ some p
      → s.machine.current ≡ d
      → Reach out fsm (with_task p s) (run_to_end p s) × HasLeft d (run_to_end p s)
  goroutine_leaves sm d v p s other started at = (
    run_to_end-Reach p s,
    run_to_end-HasLeft d working p s
        (subst (ObeysAny (outcome d) working) started (goroutine-ObeysOutcome sm d v other)) at,
  )
