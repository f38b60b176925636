-- ===== src/StateMachine/Calls.antt =====
-- What a goroutine of statemachine.go does, call by call: it calls a method of a plugin and goes on
-- with the reply, or it raises an event of the machine. The plugins, the webhooks and the clock
-- answer as they like, and another goroutine may run between any two calls.
use consul_release_controlle.Prelude.{ℕ, ℤ, String, Option, List, []}
use consul_release_controlle.Interfaces.{
  Event, StrategyStatus, RuntimeDeploymentStatus, Subset, WebhookMessage,
}
use consul_release_controlle.Release.{PluginConfig}

-- `error`: `none` is nil, and `some` holds the text of `Error()`.
abbrev pub Error : Type 0
Error = Option String

-- The methods of `Releaser`, `Runtime`, `PostDeploymentTest`, `Strategy` and `Webhook` that the
-- handlers call, and `time.Sleep` in units of `stepDelay`. `candidate_name` is
-- `BaseState().CandidateName` of the runtime plugin, `destroy_config` the releaser's `Destroy`.
pub data Call : Type 0 where
  setup : Subset → Subset → Call
  scale : ℤ → Call
  wait_until_service_healthy : Subset → Call
  destroy_config : Call
  init_primary : String → Call
  promote_candidate remove_candidate restore_original remove_primary : Call
  candidate_name : Call
  execute_test : String → Call
  execute_strategy : String → Call
  get_primary_traffic get_candidate_traffic : Call
  send : PluginConfig → WebhookMessage → Call
  sleep : ℕ → Call

abbrev pub Reply : Call → Type 0
Reply (setup p c) = Error
Reply (scale value) = Error
Reply (wait_until_service_healthy filter) = Error
Reply destroy_config = Error
Reply (init_primary name) = RuntimeDeploymentStatus × Error
Reply promote_candidate = RuntimeDeploymentStatus × Error
Reply remove_candidate = Error
Reply restore_original = Error
Reply remove_primary = Error
Reply candidate_name = String
Reply (execute_test name) = Error
Reply (execute_strategy name) = StrategyStatus × ℤ × Error
Reply get_primary_traffic = ℤ
Reply get_candidate_traffic = ℤ
Reply (send webhook message) = Error
Reply (sleep delays) = Unit

-- The rest of a goroutine. The result of `e.FSM.Event(…)` is dropped wherever it is called.
pub data Prog (A : Type 0) : Type 0 where
  ret : A → Prog A
  call : (c : Call) → (Reply c → Prog A) → Prog A
  fire : Event → List ℤ → Prog A → Prog A

infixl 5 ◌>>=◌ ◌>>◌
abbrev pub ◌>>=◌ : {A B : Type 0} → Prog A → (A → Prog B) → Prog B
ret a >>= f = f a
call c k >>= f = call c (λ r. k r >>= f)
fire e args p >>= f = fire e args (p >>= f)

abbrev pub ◌>>◌ : {A B : Type 0} → Prog A → Prog B → Prog B
p >> q = p >>= λ _. q

abbrev pub act : (c : Call) → Prog (Reply c)
act c = call c ret

abbrev pub event : Event → Prog Unit
event e = fire e [] (ret tt)
