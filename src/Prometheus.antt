-- ===== src/Prometheus.antt =====
-- pkg/plugins/prometheus/monitor.go: the check of a release's metrics.
pub mod Queries
pub mod Answers
pub mod Thresholds
use Prim.Native.String.{◌++◌ as append}
use consul_release_controlle.Prelude.{
  ℤ, ltb_ℤ, String, Option, none, some, List, [], ◌∷◌, Bool, true, false, ◌||◌, if◌then◌else◌,
  str_eq,
}
use consul_release_controlle.Interfaces.{CheckResult}
use consul_release_controlle.Storage.Kv.{Result, ok, err}
use Queries.{
  kubernetes_envoy_request_success, kubernetes_envoy_request_duration, nomad_envoy_request_success,
  nomad_envoy_request_duration,
}

pub record Query : Type 0 where
  pub name : String
  pub preset : String
  pub query : String
  pub min : Option ℤ
  pub max : Option ℤ

pub record PluginConfig : Type 0 where
  pub address : String
  pub queries : List Query

pub record Plugin : Type 0 where
  pub runtime : String
  pub name : String
  pub namespace : String
  pub config : PluginConfig

decoded : Result PluginConfig → Result PluginConfig
decoded (ok c) = ok c
decoded (err e) = err (append "unable to decode Monitoring config: " e)

-- `Configure`; `unmarshal` is `json.Unmarshal`.
unfoldable pub configure : (String → Result PluginConfig) → String → Result PluginConfig
unfolding decoded
configure unmarshal d = decoded (unmarshal d)

-- The values of a query's template.
pub record Context : Type 0 where
  pub release_name : String
  pub candidate_name : String
  pub namespace : String
  pub interval : String

-- The errors of `Check`, with the texts and values they are written with.
pub data Fault : Type 0 where
  preset_does_not_exist : String → Fault
  query_is_empty : String → Fault
  unable_to_process_template : String → Fault
  unable_to_query : String → Fault
  null_value : String → String → Fault
  got_value : String → String → ℤ → Fault
  invalid_value : String → String → Fault

pub data Executed : Type 0 where
  not_executed : String → Executed
  text : String → Executed

-- `model.Value`: a vector of samples, or a value of another type.
pub data Value (S : Type 0) : Type 0 where
  vector : List S → Value S
  other_type : Value S

pub data Answer (S : Type 0) : Type 0 where
  no_answer : String → Answer S
  answer : Value S → Answer S

-- What the plugin is given, over a state `W` and samples `S`: `Parse` and `Execute` of a template,
-- `Query` of the client at an address, now, Go's conversion of a sample's value to `int`, and
-- `String` of the interval.
pub record Outside (S W : Type 0) : Type 0 where
  pub parse : String → Option String
  pub execute : String → Context → Executed
  pub query : String → String → W → Answer S × W
  pub to_int : S → ℤ
  pub show_interval : ℤ → String

-- How a query of the second loop ends: with a return, or with the next query.
pub data Outcome (W : Type 0) : Type 0 where
  returns : CheckResult → Fault → W → Outcome W
  continues : W → Outcome W

pub data Resolved : Type 0 where
  unresolved : Fault → Resolved
  resolved : List String → Resolved

unfoldable pub preset_query : String → Option String
preset_query preset =
    if str_eq preset "kubernetes-envoy-request-success"
    then some kubernetes_envoy_request_success
    else if str_eq preset "kubernetes-envoy-request-duration"
    then some kubernetes_envoy_request_duration
    else if str_eq preset "nomad-envoy-request-success"
    then some nomad_envoy_request_success
    else if str_eq preset "nomad-envoy-request-duration"
    then some nomad_envoy_request_duration
    else none

abbrev pub preset_name : String → Query → String
preset_name runtime q = append runtime (append "-" q.preset)

-- The text of a query: `none` is a preset that does not exist.
unfoldable pub query_text : String → Query → Option String
query_text runtime q =
    if str_eq q.preset "" then some q.query else preset_query (preset_name runtime q)

unfoldable pub add_text : String → Query → Option String → Resolved → Resolved
add_text runtime q none rest = unresolved (preset_does_not_exist (preset_name runtime q))
add_text runtime q (some t) (unresolved e) = unresolved e
add_text runtime q (some t) (resolved ts) = resolved (t ∷ ts)

-- The first loop.
unfoldable pub resolve : String → List Query → Resolved
resolve runtime [] = resolved []
resolve runtime (q ∷ qs) = add_text runtime q (query_text runtime q) (resolve runtime qs)

unfoldable pub is_below : ℤ → Option ℤ → Bool
is_below v none = false
is_below v (some m) = ltb_ℤ v m

unfoldable pub is_above : ℤ → Option ℤ → Bool
is_above v none = false
is_above v (some m) = ltb_ℤ m v

unfoldable pub went_on :
    {W : Type 0}
    → (W → Option (CheckResult × Option Fault × W))
    → Outcome W
    → Option (CheckResult × Option Fault × W)
went_on next (returns r e w) = some (r, some e, w)
went_on next (continues w) = next w

module _ {S W : Type 0} (o : Outside S W) where
  unfoldable pub judged : Query → Value S → W → Outcome W
  judged q (vector []) w = returns CheckResult.check_no_metrics (null_value q.name q.preset) w
  judged q (vector (s ∷ ss)) w =
      if is_below (o.to_int s) q.min || is_above (o.to_int s) q.max
      then returns CheckResult.check_failed (got_value q.name q.preset (o.to_int s)) w
      else continues w
  judged q other_type w = returns CheckResult.check_no_metrics (invalid_value q.name q.preset) w

  unfoldable pub answered : Query → Answer S × W → Outcome W
  answered q (no_answer e, w) = returns CheckResult.check_error (unable_to_query e) w
  answered q (answer v, w) = judged q v w

  unfoldable pub executed : String → Query → Executed → W → Outcome W
  executed address q (not_executed e) w =
      returns CheckResult.check_error (unable_to_process_template e) w
  executed address q (text out) w = answered q (o.query address out w)

  unfoldable pub parsed : String → Query → String → Context → Option String → W → Outcome W
  parsed address q t c (some e) w = returns CheckResult.check_error (unable_to_process_template e) w
  parsed address q t c none w = executed address q (o.execute t c) w

  -- The body of the second loop.
  unfoldable pub run_query : String → Query → String → Context → W → Outcome W
  run_query address q t c w =
      if str_eq t ""
      then returns CheckResult.check_error (query_is_empty q.name) w
      else parsed address q t c (o.parse t) w

  -- The second loop goes through the texts and reads the query at each one's index: `none` is a panic,
  -- there is no query at the index.
  unfoldable pub run_queries :
      String → Context → List Query → List String → W → Option (CheckResult × Option Fault × W)
  run_queries address c qs [] w = some (CheckResult.check_success, none, w)
  run_queries address c [] (t ∷ ts) w = none
  run_queries address c (q ∷ qs) (t ∷ ts) w =
      went_on (λ w'. run_queries address c qs ts w') (run_query address q t c w)

  unfoldable pub run_resolved :
      Plugin → Context → Resolved → W → Option (CheckResult × Option Fault × W)
  run_resolved p c (unresolved e) w = some (CheckResult.check_error, some e, w)
  run_resolved p c (resolved ts) w = run_queries p.config.address c p.config.queries ts w

  unfoldable pub context : Plugin → String → ℤ → Context
  context p candidate interval = record {
    release_name = p.name;
    candidate_name = candidate;
    namespace = p.namespace;
    interval = o.show_interval interval;
  }

  unfoldable pub check : Plugin → String → ℤ → W → Option (CheckResult × Option Fault × W)
  check p candidate interval w =
      run_resolved p (context p candidate interval) (resolve p.runtime p.config.queries) w
