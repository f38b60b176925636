-- ===== src/Examples/Checks.antt =====
-- The memory store, the post deployment test and the check of the metrics at work.
use consul_release_controlle.Prelude.{
  ◌≡◌, ◌↔◌, refl, ℕ, suc, ◌+◌, leb, pos, pos_part, none, some, [], ◌∷◌, true, false, arith,
}
use consul_release_controlle.Interfaces.{CheckResult}
use consul_release_controlle.Release.{Release}
use consul_release_controlle.StateMachine.Calls.{Error}
use consul_release_controlle.Memory.{new_store}
use consul_release_controlle.Memory.Refinement.{
  upsert, delete, get, step, spec_step, observe, observe_lem,
}
use consul_release_controlle.HttpTest as H
use consul_release_controlle.HttpTest.Passes.{Ended, execute-Ended}
use consul_release_controlle.HttpTest.Termination.{Clock, execute-returns}
use consul_release_controlle.Prometheus as P
use consul_release_controlle.Prometheus.Thresholds.{Passes, check-Passes}

abbrev web : Release
web = record {
  name = "web";
  namespace = "default";
  version = "1";
  created = 10;
  last_updated = 10;
  releaser = none;
  runtime = none;
  strategy = none;
  monitor = none;
  webhooks = [];
  post_deployment_test = none;
  state_history = [];
}

observe_lem_example :
    observe step (upsert web ∷ get "web" ∷ delete "web" ∷ delete "web" ∷ []) new_store
    ≡ observe spec_step (upsert web ∷ get "web" ∷ delete "web" ∷ delete "web" ∷ []) (λ n. none)
observe_lem_example = observe_lem (upsert web ∷ get "web" ∷ delete "web" ∷ delete "web" ∷ [])

-- The world is a clock. The check fails until five units of time have passed.
abbrev checked_at : ℕ → CheckResult
checked_at w = elim (leb 5 w) [
  | true ↦ CheckResult.check_success
  | false ↦ CheckResult.check_failed
]

abbrev outside : H.Outside ℕ
outside = record {
  parse_duration = λ t. H.duration (pos 9);
  consul_service_upstreams = λ w. "http://localhost:18080";
  new_request = λ m u. none;
  send = λ r w. (none, w + 1);
  check = λ c d w. (checked_at w, none, w + 1);
  sleep = λ i w. w + pos_part i;
  is_done = λ t w w'. leb (w + pos_part t) w';
}

abbrev http_test : H.Plugin
http_test = record {
  name = "web";
  namespace = "default";
  config = record {
    path = "/";
    method = "GET";
    payload = "";
    required_test_passes = pos 1;
    interval = "9s";
    timeout = "9s";
  };
}

execute-Ended_example : Ended outside http_test "web" (pos 9) (pos 9) 6 none 8
unfolding H.execute H.started H.timed H.attempts H.finish H.round H.created H.sent H.counted
execute-Ended_example =
    execute-Ended outside http_test "web" (pos 9) (pos 9) 3 6 (none, 8) refl refl refl

clock : Clock outside (λ w. w)
clock = record {
  sends = λ q w. omega arith;
  checks = λ c d w. omega arith;
  sleeps = λ i w. omega arith;
  expires = λ t w w' h. ground arith;
}

execute-returns_example : (x : Error × ℕ) × (H.execute outside (suc 9) http_test "web" 0 ≡ some x)
execute-returns_example =
    execute-returns outside (λ w. w) clock http_test "web" (pos 9) (pos 9) 0 refl refl (omega arith)

-- Prometheus answers every query with 99.
abbrev prometheus : P.Outside ℕ ℕ
prometheus = record {
  parse = λ t. none;
  execute = λ t c. P.text t;
  query = λ a q w. (P.answer (P.vector (99 ∷ [])), w + 1);
  to_int = λ s. pos s;
  show_interval = λ i. "30s";
}

abbrev success_rate : P.Query
success_rate = record {
  name = "request-success";
  preset = "";
  query = "up";
  min = some (pos 99);
  max = none;
}

abbrev monitor : P.Plugin
monitor = record {
  runtime = "kubernetes";
  name = "web";
  namespace = "default";
  config = record { address = "localhost"; queries = success_rate ∷ [] };
}

check-Passes_example :
    (P.check prometheus monitor "web" (pos 30) 0 ≡ some (CheckResult.check_success, none, 1))
    ↔ Passes prometheus monitor
        (P.context prometheus monitor "web" (pos 30))
        (success_rate ∷ [])
        0
        1
check-Passes_example = check-Passes prometheus monitor "web" (pos 30) 0 1
