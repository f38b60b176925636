-- ===== src/StateMachine/Start.antt =====
-- `New` of statemachine.go: the plugins are created and configured, and the machine starts in the
-- state that the release's history ends in.
pub mod Built
use mathlib.Core.List.{append-nil, append_assoc}
use mathlib.Core.Path.{subst}
use consul_release_controlle.Prelude.{
  ◌≡◌, refl, ap, ◌∙◌, inl, inr, ◌≤◌, String, Bool, true, false, Option, none, some, List, [], ◌∷◌,
  ◌++◌, length, get_last?, sym, ◌⊎◌,
}
use consul_release_controlle.Interfaces.{State}
use consul_release_controlle.Release.{
  Release, PluginConfig, StateHistory, current_state, max_history, state_of,
}
use consul_release_controlle.Fsm.{Fsm}
use consul_release_controlle.StateMachine.Calls.{Error}
use consul_release_controlle.StateMachine.Handlers.{StateMachine}
use consul_release_controlle.StateMachine.Machine.{Outside, System}
use consul_release_controlle.StateMachine.Interleaving.{Reach, Recorded, Reach-Recorded}

pub data PluginKind : Type 0 where
  releaser runtime monitor strategy webhook post_deployment_test : PluginKind

-- The `Create…` functions of the plugin provider, given the release and the name of the plugin, and
-- `Configure` of the plugins, over a state `W`.
pub record PluginProvider (W : Type 0) : Type 0 where
  pub create : PluginKind → Release → String → W → Error × W
  pub configure : PluginKind → Release → PluginConfig → W → Error × W

-- `New` returns the machine or an error, or a missing plugin is a nil pointer that it reads.
pub data Started : Type 0 where
  started : StateMachine → Started
  refused : String → Started
  panicked : Started

or_start : Option State → State
or_start none = State.start
or_start (some d) = d

-- `initialState`
unfoldable pub initial_state : Release → State
unfolding or_start
initial_state r = or_start (current_state r)

has_plugin : Option PluginConfig → Bool
has_plugin none = false
has_plugin (some c) = true

-- The machine that `New` builds, with the webhook plugins that it has configured.
unfoldable pub new_machine : Release → List PluginConfig → StateMachine
unfolding initial_state has_plugin
new_machine r webhooks = record {
  release = r;
  webhooks = webhooks;
  has_test = has_plugin r.post_deployment_test;
  current = initial_state r;
  metrics_done = none;
}

abbrev required : Release → List (PluginKind × Option PluginConfig)
required r =
    (PluginKind.releaser, r.releaser)
    ∷ (PluginKind.runtime, r.runtime)
    ∷ (PluginKind.monitor, r.monitor)
    ∷ (PluginKind.strategy, r.strategy)
    ∷ []

module _ {W : Type 0} (p : PluginProvider W) (r : Release) where
  test_configured : List PluginConfig → Error × W → Started × W
  test_configured done (some e, w) = (refused e, w)
  test_configured done (none, w) = (started (new_machine r done), w)

  test_created : List PluginConfig → PluginConfig → Error × W → Started × W
  unfolding test_configured
  test_created done c (some e, w) = (refused e, w)
  test_created done c (none, w) =
      test_configured done (p.configure PluginKind.post_deployment_test r c w)

  set_up_test : List PluginConfig → Option PluginConfig → W → Started × W
  unfolding test_created
  set_up_test done none w = (started (new_machine r done), w)
  set_up_test done (some c) w =
      test_created done c (p.create PluginKind.post_deployment_test r c.name w)

  -- The loop over the webhooks; `done` are those that are configured. An error of the creation or of
  -- the configuration ends it.
  set_up_webhooks : List PluginConfig → List PluginConfig → W → Started × W
  unfolding set_up_test
  set_up_webhooks done [] w = set_up_test done r.post_deployment_test w
  set_up_webhooks done (c ∷ cs) w =
      let (created, w') = p.create PluginKind.webhook r c.name w in
      let (configured, w'') = p.configure PluginKind.webhook r c w' in
      let rest = set_up_webhooks (done ++ c ∷ []) cs w'' in
      elim created [
        | some e ↦ (refused e, w')
        | none ↦ elim configured [ some e ↦ (refused e, w'') | none ↦ rest ]
      ]

  -- The plugins that every release has. The error that `Configure` returns is dropped.
  set_up : List (PluginKind × Option PluginConfig) → W → Started × W
  unfolding set_up_webhooks
  set_up [] w = set_up_webhooks [] r.webhooks w
  set_up ((kind, none) ∷ rest) w = (panicked, w)
  set_up ((kind, some c) ∷ rest) w =
      let (created, w') = p.create kind r c.name w in
      let later = set_up rest (p.configure kind r c w').1 in
      elim created [ some e ↦ (refused e, w') | none ↦ later ]

  unfoldable pub new : W → Started × W
  unfolding set_up
  new w = set_up (required r) w
