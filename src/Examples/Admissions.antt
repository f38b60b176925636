-- ===== src/Examples/Admissions.antt =====
-- One release for the deployments named `api-v2`, and a machine that is its state.
use consul_release_controlle.Prelude.{◌≡◌, refl, ℕ, ◌+◌, none, some, [], ◌∷◌, true, str_eq}
use consul_release_controlle.Interfaces.{State}
use consul_release_controlle.Release.{Release}
use consul_release_controlle.Storage.Kv.{ok}
use consul_release_controlle.Admission.{Provider, is_own_change, selects, check}
use consul_release_controlle.Admission.Decisions.{is_rejected, any_selects, is_rejected-check}

abbrev release : Release
release = record {
  name = "api";
  namespace = "default";
  version = "1";
  created = 10;
  last_updated = 10;
  releaser = none;
  runtime = none;
  strategy = none;
  monitor = none;
  webhooks = [];
  post_deployment_test = none;
  state_history = [];
}

-- The world counts the deployments that were started.
abbrev pub provider : State → Provider ℕ State
provider d = record {
  list_releases = λ r w. (ok (release ∷ []), w);
  base_config = λ r. record { deployment_selector = "api-v2$"; namespace = "default" };
  compile = λ s. some (λ n. str_eq n "api-v2");
  has_suffix = λ s t. true;
  get_state_machine = λ r w. (ok d, w);
  delete_state_machine = λ r w. w;
  current_state = λ m w. m;
  deploy = λ m w. (none, w + 1);
  read_state = λ r w. (record { candidate_name = ""; primary_name = "" }, w);
  marshal_state = λ s. ok "{}";
  upsert_state = λ r t w. (none, w);
  state_name = λ s. "state_monitor";
}

is_rejected-check_example :
    is_rejected (check (provider State.monitor) "api-v2" "default" none "7" "kubernetes" 0).0 ≡ true
unfolding is_own_change selects any_selects
is_rejected-check_example =
    is_rejected-check (provider State.monitor) "api-v2" "default" none "7" "kubernetes" [] release
      [] State.monitor 0 0 0 refl refl refl refl refl
