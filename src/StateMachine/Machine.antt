-- ===== src/StateMachine/Machine.antt =====
-- The running state machine of statemachine.go: the events of the machine with the callbacks of
-- `New`, the exported operations, and the goroutines that have been started and not yet ended.
use consul_release_controlle.Prelude.{
  ℕ, ℤ, String, Option, none, some, List, [], ◌∷◌, ◌++◌, Bool, true, false, ◌≡◌, refl, ap, ◌∙◌, ◌⊎◌,
  inl, inr,
}
use consul_release_controlle.Interfaces.{State, Event}
use consul_release_controlle.Release.{Release, update_state}
use consul_release_controlle.Fsm.{Fsm}
use consul_release_controlle.StateMachine.Calls.{Error, Call, Reply, Prog, ret, call, fire}
use consul_release_controlle.StateMachine.Handlers.{StateMachine}
use consul_release_controlle.StateMachine.Rollout.{goroutine}
use consul_release_controlle.StateMachine.Table.{events, dst_of, transition_lem}

-- What is outside of the machine, over a state `W`: the plugins with their webhooks, `time.Now`,
-- `UpsertRelease` of the storage, `StateChanged` of the metrics, and the function that it returns
-- (called with the state that it times and an HTTP status).
pub record Outside (W : Type 0) : Type 0 where
  pub perform : (c : Call) → W → Reply c × W
  pub now : W → ℕ × W
  pub upsert_release : Release → W → Error × W
  pub state_changed : String → State → W → W
  pub metrics_done : State → ℕ → W → W

pub record System (W : Type 0) : Type 0 where
  pub machine : StateMachine
  pub tasks : List (Prog Unit)
  pub world : W

abbrev pub status_ok : ℕ
status_ok = 200

module _ {W : Type 0} (out : Outside W) where
  -- `leaveState`. No callback cancels the event, so `e.Err` is nil.
  unfoldable pub leave_state : Option State → System W → System W
  leave_state none s = s
  leave_state (some timed) s = record s { world = out.metrics_done timed status_ok s.world }

  -- `enterState`. An error of the storage is logged.
  unfoldable pub enter_state : State → System W → System W
  enter_state d s =
      let w = out.state_changed s.machine.release.name d s.world in
      let (time, w') = out.now w in
      let r = update_state s.machine.release time d in
      let (err, w'') = out.upsert_release r w' in
      record s { machine = record s.machine { release = r; metrics_done = some d }; world = w'' }

  unfoldable pub start_task : Option (Prog Unit) → System W → System W
  start_task none s = s
  start_task (some p) s = record s { tasks = s.tasks ++ p ∷ [] }

  -- A transition: `leave_state`, the change of the state, `enter_<state>`, `enter_state`.
  unfoldable pub move : State → List ℤ → System W → System W
  unfolding leave_state enter_state start_task
  move d args s =
      let left = leave_state s.machine.metrics_done s in
      let changed = record left { machine = record left.machine { current = d } } in
      enter_state d (start_task (goroutine changed.machine d args) changed)

  machine-leave_state : (o : Option State) (s : System W) → (leave_state o s).machine ≡ s.machine
  unfolding leave_state
  machine-leave_state none s = refl
  machine-leave_state (some d) s = refl

  machine-start_task :
      (o : Option (Prog Unit)) (s : System W) → (start_task o s).machine ≡ s.machine
  unfolding start_task
  machine-start_task none s = refl
  machine-start_task (some p) s = refl

  abbrev pub recorded : State → ℕ → StateMachine → StateMachine
  recorded d time m = record m { release = update_state m.release time d; metrics_done = some d }

  -- A transition sets the state and adds it to the history at some time; it starts to time it.
  abbrev pub entered : State → ℕ → StateMachine → StateMachine
  entered d time m = record m {
    current = d;
    release = update_state m.release time d;
    metrics_done = some d;
  }

  pub machine-move :
      (d : State) (args : List ℤ) (s : System W)
      → (time : ℕ) × ((move d args s).machine ≡ entered d time s.machine)
  unfolding move
  machine-move d args s =
      let left = leave_state s.machine.metrics_done s in
      let changed = record left { machine = record left.machine { current = d } } in
      let started = start_task (goroutine changed.machine d args) changed in
      let time = (out.now (out.state_changed started.machine.release.name d started.world)).0 in
      (
        time,
        ap (recorded d time) (machine-start_task (goroutine changed.machine d args) changed)
            ∙ ap (entered d time) (machine-leave_state s.machine.metrics_done s),
      )

  tasks-leave_state : (o : Option State) (s : System W) → (leave_state o s).tasks ≡ s.tasks
  unfolding leave_state
  tasks-leave_state none s = refl
  tasks-leave_state (some d) s = refl

  -- Becoming idle starts no goroutine, and stops none.
  pub tasks-move_idle : (args : List ℤ) (s : System W) → (move State.idle args s).tasks ≡ s.tasks
  unfolding move goroutine
  tasks-move_idle args s = tasks-leave_state s.machine.metrics_done s

  to : Option State → List ℤ → System W → Bool × System W
  to none args s = (false, s)
  to (some d) args s = (true, move d args s)

  module _ (fsm : Fsm) where
    -- `FSM.Event`; the Boolean is `err == nil`.
    unfoldable pub raise : Event → List ℤ → System W → Bool × System W
    unfolding to
    raise e args s = to (fsm.transition events s.machine.current e) args s

    unfoldable pub configure : System W → Bool × System W
    configure s = raise Event.configure [] s

    unfoldable pub deploy : System W → Bool × System W
    deploy s = raise Event.deploy [] s

    unfoldable pub destroy : System W → Bool × System W
    destroy s = raise Event.destroy [] s

    -- `SetState` changes the state with no callback.
    resume_from : State → System W → System W
    resume_from State.monitor s =
        (raise Event.deployed []
          (record s { machine = record s.machine { current = State.deploy } })).1
    resume_from d s = s

    unfoldable pub resume : System W → System W
    unfolding resume_from
    resume s = resume_from s.machine.current s

    -- One step of a goroutine: what is left of it, if anything, and the system without it.
    unfoldable pub advance : Prog Unit → System W → Option (Prog Unit) × System W
    advance (ret u) s = (none, s)
    advance (call c k) s =
        let (reply, w) = out.perform c s.world in (some (k reply), record s { world = w })
    advance (fire e args p) s = (some p, (raise e args s).1)

    -- An event that the table does not have in the state changes nothing; another one makes the
    -- transition of the table.
    pub raise-cases :
        (e : Event) (args : List ℤ) (s : System W)
        → ((dst_of s.machine.current e ≡ none) × (raise e args s ≡ (false, s)))
          ⊎ ((d : State) × (dst_of s.machine.current e ≡ some d)
              × (raise e args s ≡ (true, move d args s)))
    unfolding raise
    raise-cases e args s =
        rw (transition_lem fsm s.machine.current e) (cases (dst_of s.machine.current e))
      where
        cases :
            (o : Option State)
            → ((o ≡ none) × (to o args s ≡ (false, s)))
              ⊎ ((d : State) × (o ≡ some d) × (to o args s ≡ (true, move d args s)))
        cases none = inl (refl, refl)
        cases (some d) = inr (d, refl, refl)

    pub raise_lem :
        (e : Event) (args : List ℤ) (s : System W) {d : State}
        → dst_of s.machine.current e ≡ some d
        → raise e args s ≡ (true, move d args s)
    unfolding raise
    raise_lem e args s h = rw (transition_lem fsm s.machine.current e, h, to)

    -- `Resume` changes nothing, or enters monitor from deploy.
    pub resume-cases :
        (s : System W)
        → (resume s ≡ s)
          ⊎ (resume s
              ≡ move State.monitor []
                  (record s { machine = record s.machine { current = State.deploy } }))
    unfolding resume resume_from dst_of
    resume-cases s = go s.machine.current
      where
        go :
            (d : State)
            → (resume_from d s ≡ s)
              ⊎ (resume_from d s
                  ≡ move State.monitor []
                      (record s { machine = record s.machine { current = State.deploy } }))
        go State.monitor = inr (
            ap (λ x. x.1)
              (raise_lem Event.deployed []
                (record s { machine = record s.machine { current = State.deploy } }) refl))
        go _ = inl refl
