-- ===== src/StateMachine/Interleaving.antt =====
-- The goroutines and the requests of the API and of the admission controller, interleaved: the
-- release's history follows the machine in every order of steps, and a goroutine that was started
-- for an earlier state can end a destroy that is still under way.
use consul_release_controlle.Prelude.{
  ◌≡◌, ap, ◌⊎◌, inl, inr, true, Option, none, some, List, [], ◌∷◌, ◌++◌, ℕ, ◌≤◌, ℤ, length,
}
use consul_release_controlle.Interfaces.{State, Event}
use consul_release_controlle.Release.{update_state, current_state, max_history}
use consul_release_controlle.Release.History.{current_state-update_state, length-append_state}
use consul_release_controlle.Fsm.{Fsm}
use consul_release_controlle.StateMachine.Calls.{Prog, ret, call, fire}
use consul_release_controlle.StateMachine.Handlers.{StateMachine}
use consul_release_controlle.StateMachine.Table.{dst_of}
use consul_release_controlle.StateMachine.Machine.{
  Outside, System, move, entered, machine-move, raise, raise_lem, raise-cases, resume, resume-cases,
  advance, tasks-move_idle,
}

-- What is left of a goroutine goes back among the tasks.
abbrev put_back : {W : Type 0} → Option (Prog Unit) × System W → System W
put_back (none, s) = s
put_back (some p, s) = record s { tasks = p ∷ s.tasks }

abbrev with_tasks : {W : Type 0} → System W → List (Prog Unit) → System W
with_tasks s ts = record s { tasks = ts }

-- The operations of the `StateMachine` interface that raise an event in any state; `Resume` raises one
-- in the state monitor only, and is a step of its own.
pub data IsRequest : Event → Type 0 where
  configure_request : IsRequest Event.configure
  deploy_request : IsRequest Event.deploy
  destroy_request : IsRequest Event.destroy

module _ {W : Type 0} (out : Outside W) (fsm : Fsm) where
  -- One of the goroutines `before ++ p ∷ after` makes its next call or raises its next event.
  abbrev pub run_task : List (Prog Unit) → Prog Unit → List (Prog Unit) → System W → System W
  run_task before p after s = put_back (advance out fsm p (with_tasks s (before ++ after)))

  pub data Step : System W → System W → Type 0 where
    request : {e : Event} (s : System W) → IsRequest e → Step s (raise out fsm e [] s).1
    resumption : (s : System W) → Step s (resume out fsm s)
    task :
        (s : System W) (before : List (Prog Unit)) (p : Prog Unit) (after : List (Prog Unit))
        → s.tasks ≡ before ++ p ∷ after
        → Step s (run_task before p after s)

  pub data Reach (s : System W) : System W → Type 0 where
    here : Reach s s
    later : {t u : System W} → Reach s t → Step t u → Reach s u

-- The history ends in the state of the machine, or the machine has not left the initial state.
pub record Recorded (m : StateMachine) : Type 0 where
  pub last :
      (current_state m.release ≡ some m.current)
      ⊎ ((m.release.state_history ≡ []) × (m.current ≡ State.start))
  pub bounded : length m.release.state_history ≤ max_history

module _ {W : Type 0} (out : Outside W) (fsm : Fsm) where
  entered-Recorded : (d : State) (time : ℕ) (m : StateMachine) → Recorded (entered out d time m)
  unfolding update_state
  entered-Recorded d time m = record {
    last = inl (current_state-update_state m.release time d);
    bounded = length-append_state m.release.state_history _;
  }

  move-Recorded : (d : State) (args : List ℤ) (s : System W) → Recorded (move out d args s).machine
  move-Recorded d args s =
      let (time, e) = machine-move out d args s in rw e (entered-Recorded d time s.machine)

  raise-Recorded :
      (e : Event) (args : List ℤ) (s : System W)
      → Recorded s.machine
      → Recorded (raise out fsm e args s).1.machine
  raise-Recorded e args s h = elim (raise-cases out fsm e args s) [
    | inl (_, stays) ↦ rw stays h
    | inr (d, _, moves) ↦ rw moves (move-Recorded d args s)
  ]

  run_task-Recorded :
      (before : List (Prog Unit)) (p : Prog Unit) (after : List (Prog Unit)) (s : System W)
      → Recorded s.machine
      → Recorded (run_task out fsm before p after s).machine
  unfolding advance
  run_task-Recorded before (ret u) after s h = h
  run_task-Recorded before (call c k) after s h = h
  run_task-Recorded before (fire e args p) after s h = raise-Recorded e args (with_tasks s _) h

  Step-Recorded : {s t : System W} → Step out fsm s t → Recorded s.machine → Recorded t.machine
  Step-Recorded (request {e} s r) h = raise-Recorded e [] s h
  Step-Recorded (resumption s) h = elim (resume-cases out fsm s) [
    | inl stays ↦ rw stays h
    | inr moves ↦ rw moves (move-Recorded State.monitor [] _)
  ]
  Step-Recorded (task s before p after q) h = run_task-Recorded before p after s h

  -- In every interleaving of requests, resumptions and goroutines, whatever is outside of the machine does: if at
  -- the start the release's history is within its bound and ends in the state of the machine (or is
  -- empty in the initial state), then so it is after every step.
  pub Reach-Recorded :
      {s t : System W} → Reach out fsm s t → Recorded s.machine → Recorded t.machine
  Reach-Recorded here h = h
  Reach-Recorded (later r st) h = Step-Recorded st (Reach-Recorded r h)

  complete_in_destroy : {d : State} → d ≡ State.destroy → dst_of d Event.complete ≡ some State.idle
  unfolding dst_of
  complete_in_destroy h = rw h

  -- A goroutine about to raise complete ends a destroy, whatever the goroutine was started for.
  pub stale_complete_ends_destroy :
      (s : System W) (before after : List (Prog Unit)) (args : List ℤ) (p : Prog Unit)
      → s.machine.current ≡ State.destroy
      → s.tasks ≡ before ++ fire Event.complete args p ∷ after
      → (t : System W) × Step out fsm s t
        × (t.machine.current ≡ State.idle)
        × (t.tasks ≡ p ∷ before ++ after)
  unfolding advance
  stale_complete_ends_destroy s before after args p h q =
      let alone = with_tasks s (before ++ after) in
      let raised : raise out fsm Event.complete args alone
          ≡ (true, move out State.idle args alone) =
        raise_lem out fsm Event.complete args alone (complete_in_destroy h) in
      (
        run_task out fsm before (fire Event.complete args p) after s,
        task s before (fire Event.complete args p) after q,
        rw raised (ap (λ m. m.current) (machine-move out State.idle args alone).1),
        rw raised (ap (λ ts. p ∷ ts) (tasks-move_idle out args alone)),
      )
