-- ===== src/StateMachine/Alone.antt =====
-- One goroutine at a time: what a goroutine whose calls succeed raises at its end, and what the machine
-- is after that.
use mathlib.Core.Path.{subst}
use consul_release_controlle.Prelude.{
  ◌≡◌, refl, sym, ap, ◌∙◌, Bool, true, false, Option, none, some, List, [], ◌∷◌, ℕ, ℤ, String,
}
use consul_release_controlle.Interfaces.{State, Event, WebhookMessage}
use consul_release_controlle.Release.{Release, PluginConfig, update_state}
use consul_release_controlle.Fsm.{Fsm}
use consul_release_controlle.StateMachine.Calls.{
  Error, Call, Reply, Prog, ret, call, fire, destroy_config, execute_strategy, send,
  get_primary_traffic, get_candidate_traffic, ◌>>◌, event,
}
use consul_release_controlle.StateMachine.Handlers.{
  StateMachine, send_all, call_webhooks, finish, tell,
}
use consul_release_controlle.StateMachine.Rollout.{goroutine}
use consul_release_controlle.StateMachine.Table.{dst_of}
use consul_release_controlle.StateMachine.Machine.{
  Outside, System, leave_state, enter_state, start_task, move, recorded, entered, raise, raise_lem,
}
use consul_release_controlle.StateMachine.Outcome.{fails}
use consul_release_controlle.StateMachine.Liveness.{run_to_end}

abbrev pub is_strategy : Call → Bool
is_strategy (execute_strategy n) = true
is_strategy c = false

abbrev pub goroutines : Option (Prog Unit) → List (Prog Unit)
goroutines none = []
goroutines (some p) = p ∷ []

-- `view` is a part of the outside, such as the state of the strategy plugin, that no call but the
-- strategy's changes; and every call but the strategy's succeeds.
pub record Succeeds {W Q : Type 0} (out : Outside W) (view : W → Q) : Type 0 where
  pub keeps : (c : Call) (w : W) → is_strategy c ≡ false → view (out.perform c w).1 ≡ view w
  pub works : (c : Call) (w : W) → is_strategy c ≡ false → fails c (out.perform c w).0 ≡ false
  pub times : (w : W) → view (out.now w).1 ≡ view w
  pub stores : (r : Release) (w : W) → view (out.upsert_release r w).1 ≡ view w
  pub counts : (n : String) (d : State) (w : W) → view (out.state_changed n d w) ≡ view w
  pub measures : (d : State) (n : ℕ) (w : W) → view (out.metrics_done d n w) ≡ view w

pub no_error : (r : Error) → fails destroy_config r ≡ false → r ≡ none
no_error none h = refl
no_error (some e) h = absurd (cc)

module _ {W Q : Type 0} (out : Outside W) (fsm : Fsm) (view : W → Q)
    (succeeds : Succeeds out view) where
  abbrev pub at : StateMachine → List (Prog Unit) → W → System W
  at m ts w = record { machine = m; tasks = ts; world = w }

  module _ (m : StateMachine) (ts : List (Prog Unit)) (q : Q) where
    -- Run alone from a world, the goroutine raises just the event, in a world with the view.
    unfoldable pub Raises : Prog Unit → W → Event → List ℤ → Type 0
    Raises p w e args =
        (w' : W) × (view w' ≡ q)
        × (run_to_end out fsm p (at m ts w) ≡ (raise out fsm e args (at m ts w')).1)

    pub fire-Raises :
        (e : Event) (args : List ℤ) (w : W) → view w ≡ q → Raises (fire e args (ret tt)) w e args
    unfolding Raises run_to_end
    fire-Raises e args w h = (w, h, refl)

    -- A call, with its reply.
    pub reply-Raises :
        (c : Call) (k : Reply c → Prog Unit) (w : W) (e : Event) (args : List ℤ) {r : Reply c}
        → (out.perform c w).0 ≡ r
        → Raises (k r) (out.perform c w).1 e args
        → Raises (call c k) w e args
    unfolding Raises run_to_end
    reply-Raises c k w e args reply rest =
        subst (λ x. Raises (k x) (out.perform c w).1 e args) (sym reply) rest

    pub call-Raises :
        (c : Call) (k : Reply c → Prog Unit) (w : W) (e : Event) (args : List ℤ) {r : Reply c}
        → is_strategy c ≡ false
        → view w ≡ q
        → (out.perform c w).0 ≡ r
        → ((w' : W) → view w' ≡ q → Raises (k r) w' e args)
        → Raises (call c k) w e args
    call-Raises c k w e args other h reply rest =
        reply-Raises c k w e args reply (rest (out.perform c w).1 (succeeds.keeps c w other ∙ h))

    send_all-Raises :
        (ws : List PluginConfig) (x : WebhookMessage) (p : Prog Unit) (w : W) (e : Event)
        (args : List ℤ)
        → view w ≡ q
        → ((w' : W) → view w' ≡ q → Raises p w' e args)
        → Raises (send_all ws x >> p) w e args
    unfolding send_all
    send_all-Raises [] x p w e args h rest = rest w h
    send_all-Raises (u ∷ us) x p w e args h rest =
        call-Raises (send u x) (λ r. send_all us x >> p) w e args refl h refl
          (λ w' h'. send_all-Raises us x p w' e args h' rest)

    -- The webhooks are told, and then the event of the rest is raised.
    pub tell-Raises :
        (sm : StateMachine) (title : String) (d : State) (o : Event) (err : Error) (p : Prog Unit)
        (w : W) (e : Event) (args : List ℤ)
        → view w ≡ q
        → ((w' : W) → view w' ≡ q → Raises p w' e args)
        → Raises (tell sm title d o err p) w e args
    unfolding tell call_webhooks
    tell-Raises sm title d o err p w e args h rest =
        call-Raises get_primary_traffic _ w e args refl h refl (λ w' h'.
          call-Raises get_candidate_traffic _ w' e args refl h' refl
            (λ w'' h''. send_all-Raises sm.webhooks _ p w'' e args h'' rest))

    pub finish-Raises :
        (sm : StateMachine) (title : String) (d : State) (e : Event) (p c : ℤ) (err : Error) (w : W)
        → view w ≡ q
        → Raises (finish sm title d e p c err) w e []
    unfolding finish call_webhooks
    finish-Raises sm title d e p c err w h =
        send_all-Raises sm.webhooks _ (event e) w e [] h (fire-Raises e [])

  -- The machine enters the state, and starts its goroutine.
  leave-view :
      (o : Option State) (m : StateMachine) (ts : List (Prog Unit)) (w : W)
      → (w' : W) × (view w' ≡ view w) × (leave_state out o (at m ts w) ≡ at m ts w')
  unfolding leave_state
  leave-view none m ts w = (w, refl, refl)
  leave-view (some d) m ts w = (out.metrics_done d 200 w, succeeds.measures d 200 w, refl)

  start-tasks :
      (o : Option (Prog Unit)) (m : StateMachine) (w : W)
      → start_task out o (at m [] w) ≡ at m (goroutines o) w
  unfolding start_task
  start-tasks none m w = refl
  start-tasks (some p) m w = refl

  enter-view :
      (d : State) (m : StateMachine) (ts : List (Prog Unit)) (w : W)
      → (time : ℕ) × (w' : W) × (view w' ≡ view w)
        × (enter_state out d (at m ts w) ≡ at (recorded out d time m) ts w')
  unfolding enter_state
  enter-view d m ts w =
      let w1 = out.state_changed m.release.name d w in
      let (time, w2) = out.now w1 in
      let r = update_state m.release time d in
      (
        time,
        (out.upsert_release r w2).1,
        succeeds.stores r w2 ∙ succeeds.times w1 ∙ succeeds.counts m.release.name d w,
        refl,
      )

  -- An event that the table has in the current state: the machine enters the state of the table and
  -- starts its goroutine.
  pub raise-Enters :
      (e : Event) (args : List ℤ) (m : StateMachine) (w : W) (d : State)
      → dst_of m.current e ≡ some d
      → (time : ℕ) × (w' : W) × (view w' ≡ view w)
        × ((raise out fsm e args (at m [] w)).1
            ≡ at
                (entered out d time m)
                (goroutines (goroutine (record m { current = d }) d args))
                w')
  unfolding move
  raise-Enters e args m w d row =
      let (w1, kept, left) = leave-view m.metrics_done m [] w in
      let changed = record m { current = d } in
      let started = goroutines (goroutine changed d args) in
      let (time, w2, same, entered_now) = enter-view d changed started w1 in
      (
        time,
        w2,
        same ∙ kept,
        ap (λ r. r.1) (raise_lem out fsm e args (at m [] w) row)
            ∙ ap
                (λ s. enter_state out d (
                  start_task out (goroutine (record s.machine { current = d }) d args)
                    (record s { machine = record s.machine { current = d } })))
                left
            ∙ ap (enter_state out d) (start-tasks (goroutine changed d args) changed w1)
            ∙ entered_now,
      )

  run_first : List (Prog Unit) → System W → System W
  run_first [] s = s
  run_first (p ∷ ps) s = run_to_end out fsm p (record s { tasks = ps })

  -- The first of the goroutines runs to its end.
  unfoldable pub next : System W → System W
  unfolding run_first
  next s = run_first s.tasks s

  pub next-Enters :
      (p : Prog Unit) (e : Event) (args : List ℤ) (m : StateMachine) (w : W) (q : Q) (d : State)
      → Raises m [] q p w e args
      → dst_of m.current e ≡ some d
      → (time : ℕ) × (w' : W) × (view w' ≡ q)
        × (next (at m (p ∷ []) w)
            ≡ at
                (entered out d time m)
                (goroutines (goroutine (record m { current = d }) d args))
                w')
  unfolding next Raises
  next-Enters p e args m w q d (w1, same, run) row =
      let (time, w2, kept, enters) = raise-Enters e args m w1 d row in
      (time, w2, kept ∙ same, run ∙ enters)
