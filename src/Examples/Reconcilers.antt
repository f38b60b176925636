-- ===== src/Examples/Reconcilers.antt =====
-- A release that is destroyed while the reconciler waits.
use consul_release_controlle.Prelude.{◌≡◌, ℕ, ◌+◌, leb, none, some, [], true, false, arith}
use consul_release_controlle.Interfaces.{State}
use consul_release_controlle.Release.{Release}
use consul_release_controlle.Storage.{found}
use consul_release_controlle.Storage.Kv.{ok}
use consul_release_controlle.Reconciler.{Outside, not_there, wait_destroyed}
use consul_release_controlle.Reconciler.Waiting.{Clock, Ended, wait_destroyed-Ended}

abbrev web : Release
web = record {
  name = "web";
  namespace = "default";
  version = "1";
  created = 10;
  last_updated = 10;
  releaser = none;
  runtime = none;
  strategy = none;
  monitor = none;
  webhooks = [];
  post_deployment_test = none;
  state_history = [];
}

-- The world is a clock. The destroy ends after five seconds.
abbrev outside : Outside Unit ℕ
outside = record {
  get_resource = λ n w. (not_there, w);
  update_resource = λ rc w. (none, w);
  get_release = λ n w. (found web, w);
  upsert_release = λ r w. (none, w);
  delete_release = λ n w. (none, w);
  get_state_machine = λ r w. (ok tt, w);
  delete_state_machine = λ r w. w;
  configure = λ m w. (none, w);
  deploy = λ m w. (none, w);
  destroy = λ m w. (none, w);
  machine_state = λ m w. elim (leb 5 w) [ true ↦ State.idle | false ↦ State.destroy ];
  sleep = λ n w. w + n;
  is_done = λ t w w'. leb (w + t) w';
}

clock : Clock outside (λ w. w)
clock = record { sleeps = λ n w. omega arith; expires = λ t w w' h. ground arith }

wait_destroyed-Ended_example :
    (w : ℕ) × ((wait_destroyed outside 151 web tt 0 0 ≡ some w) × Ended outside web tt 0 w)
wait_destroyed-Ended_example = wait_destroyed-Ended outside web tt 0 (λ w. w) clock
