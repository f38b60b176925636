-- ===== src/StateMachine/Monitor.antt =====
-- What the monitor's goroutine raises and tells, on every branch of `doMonitor`.
use consul_release_controlle.Prelude.{
  ◌≡◌, refl, ◌∙◌, ap, Bool, true, false, none, some, List, [], ◌∷◌, ℤ, ℕ, suc, ◌+◌, String, length,
  if◌then◌else◌, arith,
}
use consul_release_controlle.Interfaces.{State, Event, StrategyStatus, WebhookMessage}
use consul_release_controlle.Release.{PluginConfig}
use consul_release_controlle.StateMachine.Calls.{
  Error, Call, Reply, Prog, ret, call, fire, execute_strategy, execute_test, candidate_name, send,
  ◌>>=◌,
}
use consul_release_controlle.StateMachine.Handlers.{StateMachine, send_all, call_webhooks, tell}
use consul_release_controlle.StateMachine.Rollout.{
  report_error, switch_result, run_strategy, after_tests, run_tests, do_monitor,
}

-- Replies for a goroutine that makes no call twice, or does not mind the same reply again.
abbrev pub Oracle : Type 0
Oracle = (c : Call) → Reply c

-- The events that a goroutine raises, with their arguments.
unfoldable pub events_of : {A : Type 0} → Oracle → Prog A → List (Event × List ℤ)
events_of o (ret a) = []
events_of o (call c k) = events_of o (k (o c))
events_of o (fire e args p) = (e, args) ∷ events_of o p

abbrev count_message : Call → ℕ → ℕ
count_message (send w x) n = suc n
count_message c n = n

-- How many messages a goroutine sends to webhooks.
unfoldable pub messages : {A : Type 0} → Oracle → Prog A → ℕ
messages o (ret a) = 0
messages o (call c k) = count_message c (messages o (k (o c)))
messages o (fire e args p) = messages o p

module _ (o : Oracle) where
  events_of-send_all :
      (ws : List PluginConfig) (x : WebhookMessage) (q : Prog Unit)
      → events_of o (send_all ws x >>= λ _. q) ≡ events_of o q
  unfolding events_of send_all
  events_of-send_all [] x q = refl
  events_of-send_all (w ∷ ws) x q = events_of-send_all ws x q

  messages-send_all :
      (ws : List PluginConfig) (x : WebhookMessage) (q : Prog Unit)
      → messages o (send_all ws x >>= λ _. q) ≡ length ws + messages o q
  unfolding messages send_all
  messages-send_all [] x q = omega arith
  messages-send_all (w ∷ ws) x q = omega (arith, messages-send_all ws x q)

  module _ (sm : StateMachine) (title : String) (state : State) (result : Event) (err : Error)
      (rest : Prog Unit) where
    events_of-tell : events_of o (tell sm title state result err rest) ≡ events_of o rest
    unfolding tell call_webhooks events_of
    events_of-tell = events_of-send_all sm.webhooks _ rest

    messages-tell :
        messages o (tell sm title state result err rest) ≡ length sm.webhooks + messages o rest
    unfolding tell call_webhooks messages
    messages-tell = messages-send_all sm.webhooks _ rest

-- What a status leads to, and what an error of the strategy adds in front of it.
abbrev pub status_events : StrategyStatus → ℤ → List (Event × List ℤ)
status_events StrategyStatus.success traffic = (Event.healthy, traffic ∷ []) ∷ []
status_events StrategyStatus.complete traffic = (Event.complete, []) ∷ []
status_events StrategyStatus.failed traffic = (Event.unhealthy, []) ∷ []
status_events StrategyStatus.failing traffic = []

abbrev pub strategy_events : StrategyStatus × ℤ × Error → List (Event × List ℤ)
strategy_events (status, traffic, none) = status_events status traffic
strategy_events (status, traffic, some e) = (Event.fail, []) ∷ status_events status traffic

-- Without a test, or with one that passes, the strategy decides; a failed test is unhealthy.
abbrev pub monitor_events : Bool → Error → StrategyStatus × ℤ × Error → List (Event × List ℤ)
monitor_events true (some e) result = (Event.unhealthy, []) ∷ []
monitor_events true none result = strategy_events result
monitor_events false err result = strategy_events result

module _ (o : Oracle) (sm : StateMachine) where
  events_of-switch_result :
      (status : StrategyStatus) (v : ℤ) (err : Error)
      → events_of o (switch_result sm status v err) ≡ status_events status v
  unfolding switch_result events_of
  events_of-switch_result StrategyStatus.failed v err = events_of-tell o sm _ _ _ err _
  events_of-switch_result StrategyStatus.success v err = refl
  events_of-switch_result _ v err = refl

  events_of-after_strategy :
      (r : StrategyStatus × ℤ × Error)
      → events_of o (report_error sm r.2 (switch_result sm r.0 r.1 r.2)) ≡ strategy_events r
  unfolding report_error events_of
  events_of-after_strategy (status, v, none) = events_of-switch_result status v none
  events_of-after_strategy (status, v, some e) =
      events_of-tell o sm _ _ _ _ _
      ∙ ap (λ l. (Event.fail, []) ∷ l) (events_of-switch_result status v (some e))

  events_of-run_strategy :
      events_of o (run_strategy sm) ≡ strategy_events (o (execute_strategy (o candidate_name)))
  unfolding run_strategy events_of
  events_of-run_strategy = events_of-after_strategy (o (execute_strategy (o candidate_name)))

  events_of-after_tests :
      (err : Error)
      → events_of o (after_tests sm err)
        ≡ monitor_events true err (o (execute_strategy (o candidate_name)))
  unfolding after_tests events_of
  events_of-after_tests none = events_of-run_strategy
  events_of-after_tests (some e) = events_of-tell o sm _ _ _ _ _

  events_of-monitor_if :
      (b : Bool)
      → events_of o (if b then run_tests sm else run_strategy sm)
        ≡ monitor_events b
            (o (execute_test (o candidate_name)))
            (o (execute_strategy (o candidate_name)))
  unfolding run_tests events_of
  events_of-monitor_if true = events_of-after_tests (o (execute_test (o candidate_name)))
  events_of-monitor_if false = events_of-run_strategy

  -- The events that the monitor's goroutine raises, in order, for all replies of the plugins: a test
  -- that fails raises unhealthy, and the strategy is not run; otherwise the status of the strategy
  -- raises healthy with its traffic, complete, unhealthy or nothing, and an error of the strategy
  -- raises fail in front of that.
  pub events_of-do_monitor :
      events_of o (do_monitor sm)
      ≡ monitor_events sm.has_test
          (o (execute_test (o candidate_name)))
          (o (execute_strategy (o candidate_name)))
  unfolding do_monitor
  events_of-do_monitor = events_of-monitor_if sm.has_test
