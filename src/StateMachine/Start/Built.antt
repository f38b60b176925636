-- ===== src/StateMachine/Start/Built.antt =====
-- The machine that `New` of statemachine.go returns, and every run of it.
use mathlib.Core.List.{append-nil, append_assoc}
use mathlib.Core.Path.{subst}
use consul_release_controlle.Prelude.{
  ◌≡◌, refl, ap, ◌∙◌, inl, inr, ◌≤◌, Option, none, some, List, [], ◌∷◌, ◌++◌, length, get_last?,
  sym, ◌⊎◌,
}
use consul_release_controlle.Interfaces.{State}
use consul_release_controlle.Release.{
  Release, PluginConfig, StateHistory, current_state, max_history, state_of,
}
use consul_release_controlle.Fsm.{Fsm}
use consul_release_controlle.StateMachine.Calls.{Error}
use consul_release_controlle.StateMachine.Handlers.{StateMachine}
use consul_release_controlle.StateMachine.Machine.{Outside, System}
use consul_release_controlle.StateMachine.Interleaving.{Reach, Recorded, Reach-Recorded}
use consul_release_controlle.StateMachine.Start.{
  PluginKind, PluginProvider, Started, started, refused, panicked, or_start, initial_state,
  new_machine, test_configured, test_created, set_up_test, set_up_webhooks, set_up, required, new,
}

state_of-none : (xs : List StateHistory) → state_of (get_last? xs) ≡ none → xs ≡ []
state_of-none [] h = refl
state_of-none (x ∷ []) h = cc
state_of-none (x ∷ y ∷ xs) h = absurd (cc (state_of-none (y ∷ xs) h))

new_machine-Recorded :
    (r : Release) (webhooks : List PluginConfig)
    → length r.state_history ≤ max_history
    → Recorded (new_machine r webhooks)
unfolding new_machine initial_state or_start current_state
new_machine-Recorded r webhooks short = record {
  last = by_history (state_of (get_last? r.state_history)) refl;
  bounded = short;
}
  where
    by_history :
        (o : Option State)
        → state_of (get_last? r.state_history) ≡ o
        → (state_of (get_last? r.state_history)
            ≡ some (or_start (state_of (get_last? r.state_history))))
          ⊎ ((r.state_history ≡ [])
              × (or_start (state_of (get_last? r.state_history)) ≡ State.start))
    by_history none q = inr (state_of-none r.state_history q, ap or_start q)
    by_history (some d) q = inl (rw q refl)

module _ {W : Type 0} (p : PluginProvider W) (r : Release) where
  -- If a machine is returned, it is the release's, with all of its webhooks.
  abbrev pub IsBuilt : Started → Type 0
  IsBuilt (started m) = m ≡ new_machine r r.webhooks
  IsBuilt (refused e) = Unit
  IsBuilt panicked = Unit

  test_configured-IsBuilt :
      (done : List PluginConfig) (x : Error × W)
      → done ≡ r.webhooks
      → IsBuilt (test_configured p r done x).0
  unfolding test_configured
  test_configured-IsBuilt done (some e, w) h = tt
  test_configured-IsBuilt done (none, w) h = ap (new_machine r) h

  test_created-IsBuilt :
      (done : List PluginConfig) (c : PluginConfig) (x : Error × W)
      → done ≡ r.webhooks
      → IsBuilt (test_created p r done c x).0
  unfolding test_created
  test_created-IsBuilt done c (some e, w) h = tt
  test_created-IsBuilt done c (none, w) h = test_configured-IsBuilt done _ h

  set_up_test-IsBuilt :
      (done : List PluginConfig) (c : Option PluginConfig) (w : W)
      → done ≡ r.webhooks
      → IsBuilt (set_up_test p r done c w).0
  unfolding set_up_test
  set_up_test-IsBuilt done none w h = ap (new_machine r) h
  set_up_test-IsBuilt done (some c) w h = test_created-IsBuilt done c _ h

  set_up_webhooks-IsBuilt :
      (done cs : List PluginConfig) (w : W)
      → done ++ cs ≡ r.webhooks
      → IsBuilt (set_up_webhooks p r done cs w).0
  unfolding set_up_webhooks
  set_up_webhooks-IsBuilt done [] w h =
      set_up_test-IsBuilt done r.post_deployment_test w (sym (append-nil done) ∙ h)
  set_up_webhooks-IsBuilt done (c ∷ cs) w h =
      let (created, w') = p.create PluginKind.webhook r c.name w in
      let (configured, w'') = p.configure PluginKind.webhook r c w' in
      by_results created configured w' w'' _
        (set_up_webhooks-IsBuilt (done ++ c ∷ []) cs w'' (append_assoc done (c ∷ []) cs ∙ h))
    where
      by_results :
          (a b : Error) (v v' : W) (rest : Started × W)
          → IsBuilt rest.0
          → IsBuilt
              (elim a as (λ _. Started × W) [
                | some e ↦ (refused e, v)
                | none ↦ elim b as (λ _. Started × W) [ some e ↦ (refused e, v') | none ↦ rest ]
              ]).0
      by_results (some e) b v v' rest h = tt
      by_results none (some e) v v' rest h = tt
      by_results none none v v' rest h = h

  set_up-IsBuilt :
      (l : List (PluginKind × Option PluginConfig)) (w : W) → IsBuilt (set_up p r l w).0
  unfolding set_up
  set_up-IsBuilt [] w = set_up_webhooks-IsBuilt [] r.webhooks w refl
  set_up-IsBuilt ((kind, none) ∷ rest) w = tt
  set_up-IsBuilt ((kind, some c) ∷ rest) w =
      let (created, w') = p.create kind r c.name w in
      by_result created w' _ (set_up-IsBuilt rest (p.configure kind r c w').1)
    where
      by_result :
          (a : Error) (v : W) (later : Started × W)
          → IsBuilt later.0
          → IsBuilt (elim a as (λ _. Started × W) [ some e ↦ (refused e, v) | none ↦ later ]).0
      by_result (some e) v later h = tt
      by_result none v later h = h

  new-IsBuilt : (w : W) → IsBuilt (new p r w).0
  unfolding new
  new-IsBuilt w = set_up-IsBuilt (required r) w

  -- From a machine that `New` has returned for a release whose history is within its bound, in every
  -- interleaving of requests, resumptions and goroutines, whatever is outside of the machine does: after
  -- every step the history is within its bound and ends in the state of the machine, or it is empty and
  -- the machine is in the initial state.
  pub Reach-Recorded-new :
      (out : Outside W) (fsm : Fsm) (w w' : W) (m : StateMachine) (t : System W)
      → (new p r w).0 ≡ started m
      → length r.state_history ≤ max_history
      → Reach out fsm (record { machine = m; tasks = []; world = w' }) t
      → Recorded t.machine
  Reach-Recorded-new out fsm w w' m t returned short run =
      let built : m ≡ new_machine r r.webhooks = subst IsBuilt returned (new-IsBuilt w) in
      Reach-Recorded out fsm run (rw built (new_machine-Recorded r r.webhooks short))
