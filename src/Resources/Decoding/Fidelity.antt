-- ===== src/Resources/Decoding/Fidelity.antt =====
-- The plugins read what the resource says.
use consul_release_controlle.Prelude.{
  ◌≡◌, refl, ◌∙◌, ℤ, String, none, some, List, [], ◌∷◌, Bool, true, false, map,
}
use consul_release_controlle.Canary as Canary
use consul_release_controlle.HttpTest as HttpTest
use consul_release_controlle.Prometheus as Prometheus
use consul_release_controlle.Releaser as Releaser
use consul_release_controlle.Webhooks.{SlackConfig, DiscordConfig}
use consul_release_controlle.Resources.{
  StrategyConfig, TestConfig, WebhookConfig, ReleaserConfig, MonitorConfig, Query,
  strategy_config_snake, runtime_config_snake, releaser_config_snake, test_config_snake,
  webhook_config_snake, monitor_query_snake, monitor_config_snake, queries_snake,
}
use consul_release_controlle.Resources.Json.{
  text, number, flat, Value, Tagged, tagged, tagged_at, after, encode, is_empty, is_empty_flat,
  field, visible, read_text, read_number, read_flag, read_texts, not_zero, field-encode,
  field-absent, find-encode, objects, texts, read_text-visible, read_number-visible,
  read_texts-visible, read_pointer-visible,
}
use consul_release_controlle.Resources.Decoding.{
  decode_strategy, decode_runtime, decode_releaser, decode_test, decode_slack, decode_discord,
  decode_query, decode_queries, read_queries, decode_monitor,
}

text-encode :
    (k t : String) (b : Bool) (ts : List (Tagged Value))
    → tagged_at k ts ≡ some (tagged k b (flat (text t)))
    → tagged_at k (after k ts) ≡ none
    → field read_text k (encode is_empty ts) ≡ some t
text-encode k t b ts at once =
    field-encode read_text k b (text t) ts at once ∙ read_text-visible k t b

number-encode :
    (k : String) (n : ℤ) (b : Bool) (ts : List (Tagged Value))
    → tagged_at k ts ≡ some (tagged k b (flat (number n)))
    → tagged_at k (after k ts) ≡ none
    → field read_number k (encode is_empty ts) ≡ some n
number-encode k n b ts at once =
    field-encode read_number k b (number n) ts at once ∙ read_number-visible k n b

-- The configuration of the strategy; the resource has no field for the two flags.
abbrev pub strategy_of : StrategyConfig → Canary.PluginConfig
strategy_of c = record {
  initial_delay = c.initial_delay;
  interval = c.interval;
  initial_traffic = c.initial_traffic;
  traffic_step = c.traffic_step;
  max_traffic = c.max_traffic;
  error_threshold = c.error_threshold;
  delete_canary_on_failed = false;
  manual_promotion = false;
}

pub decode-strategy :
    (c : StrategyConfig)
    → decode_strategy (encode is_empty (strategy_config_snake c)) ≡ some (strategy_of c)
unfolding decode_strategy strategy_config_snake tagged_at after read_flag
decode-strategy c =
    let ts = strategy_config_snake c in
    rw
      (
        text-encode "initial_delay" c.initial_delay true ts refl refl,
        text-encode "interval" c.interval true ts refl refl,
        number-encode "initial_traffic" c.initial_traffic true ts refl refl,
        number-encode "traffic_step" c.traffic_step true ts refl refl,
        number-encode "max_traffic" c.max_traffic true ts refl refl,
        number-encode "error_threshold" c.error_threshold true ts refl refl,
        field-absent read_flag "delete_canary_on_failed" ts refl,
        field-absent read_flag "manual_promotion" ts refl,
      )
      refl

pub decode-runtime :
    (deployment namespace : String)
    → decode_runtime (encode is_empty (runtime_config_snake deployment namespace))
      ≡ some (record { deployment_selector = deployment; namespace = namespace })
unfolding decode_runtime runtime_config_snake tagged_at after
decode-runtime deployment namespace =
    let ts = runtime_config_snake deployment namespace in
    rw
      (
        text-encode "deployment" deployment true ts refl refl,
        text-encode "namespace" namespace true ts refl refl,
      )
      refl

abbrev pub releaser_of : ReleaserConfig → Releaser.PluginConfig
releaser_of c = record {
  consul_service = c.consul_service;
  options = record { namespace = c.namespace; partition = c.partition };
}

pub decode-releaser :
    (c : ReleaserConfig)
    → decode_releaser (encode is_empty (releaser_config_snake c)) ≡ some (releaser_of c)
unfolding decode_releaser releaser_config_snake tagged_at after
decode-releaser c =
    let ts = releaser_config_snake c in
    rw
      (
        text-encode "consul_service" c.consul_service false ts refl refl,
        text-encode "namespace" c.namespace true ts refl refl,
        text-encode "partition" c.partition true ts refl refl,
      )
      refl

abbrev pub plugin_test_of : TestConfig → HttpTest.PluginConfig
plugin_test_of c = record {
  path = c.path;
  method = c.method;
  payload = c.payload;
  required_test_passes = c.required_test_passes;
  interval = c.interval;
  timeout = c.timeout;
}

pub decode-test :
    (c : TestConfig) → decode_test (encode is_empty (test_config_snake c)) ≡ some (plugin_test_of c)
unfolding decode_test test_config_snake tagged_at after
decode-test c =
    let ts = test_config_snake c in
    rw
      (
        text-encode "path" c.path false ts refl refl,
        text-encode "method" c.method false ts refl refl,
        text-encode "payload" c.payload true ts refl refl,
        number-encode "required_test_passes" c.required_test_passes false ts refl refl,
        text-encode "interval" c.interval false ts refl refl,
        text-encode "timeout" c.timeout false ts refl refl,
      )
      refl

abbrev pub slack_of : WebhookConfig → SlackConfig
slack_of c = record { url = c.url; template = c.template; status = c.status }

abbrev pub discord_of : WebhookConfig → DiscordConfig
discord_of c = record { id = c.id; token = c.token; template = c.template; status = c.status }

status-encode :
    (c : WebhookConfig)
    → field read_texts "status" (encode is_empty (webhook_config_snake c)) ≡ some c.status
unfolding webhook_config_snake tagged_at after
status-encode c =
    field-encode read_texts "status" true (texts c.status) (webhook_config_snake c) refl refl
    ∙ read_texts-visible "status" c.status true

pub decode-slack :
    (c : WebhookConfig)
    → decode_slack (encode is_empty (webhook_config_snake c)) ≡ some (slack_of c)
unfolding decode_slack webhook_config_snake tagged_at after
decode-slack c =
    let ts = webhook_config_snake c in
    rw
      (
        text-encode "url" c.url false ts refl refl,
        text-encode "template" c.template false ts refl refl,
        status-encode c,
      )
      refl

pub decode-discord :
    (c : WebhookConfig)
    → decode_discord (encode is_empty (webhook_config_snake c)) ≡ some (discord_of c)
unfolding decode_discord webhook_config_snake tagged_at after
decode-discord c =
    let ts = webhook_config_snake c in
    rw
      (
        text-encode "id" c.id false ts refl refl,
        text-encode "token" c.token false ts refl refl,
        text-encode "template" c.template false ts refl refl,
        status-encode c,
      )
      refl

-- A bound of zero is left out, and is no bound to the monitor.
abbrev pub query_of : Query → Prometheus.Query
query_of q = record {
  name = q.name;
  preset = q.preset;
  query = q.query;
  min = not_zero q.min;
  max = not_zero q.max;
}

pub decode-query :
    (q : Query) → decode_query (encode is_empty_flat (monitor_query_snake q)) ≡ some (query_of q)
unfolding decode_query monitor_query_snake tagged_at after
decode-query q =
    let ts = monitor_query_snake q in
    rw
      (
        find-encode is_empty_flat "name" ts refl,
        find-encode is_empty_flat "preset" ts refl,
        find-encode is_empty_flat "query" ts refl,
        find-encode is_empty_flat "min" ts refl,
        find-encode is_empty_flat "max" ts refl,
        read_text-visible "name" q.name true,
        read_text-visible "preset" q.preset true,
        read_text-visible "query" q.query true,
        read_pointer-visible "min" q.min,
        read_pointer-visible "max" q.max,
      )
      refl

pub decode-queries : (qs : List Query) → decode_queries (queries_snake qs) ≡ some (map query_of qs)
unfolding decode_queries queries_snake
decode-queries [] = refl
decode-queries (q ∷ qs) = rw (decode-query q, decode-queries qs) refl

abbrev pub monitor_of : MonitorConfig → Prometheus.PluginConfig
monitor_of c = record { address = c.address; queries = map query_of c.queries }

read_queries-visible :
    (k : String) (qs : List Query)
    → read_queries (visible is_empty (some (tagged k true (objects (queries_snake qs)))))
      ≡ some (map query_of qs)
unfolding read_queries visible is_empty queries_snake
read_queries-visible k [] = refl
read_queries-visible k (q ∷ qs) = decode-queries (q ∷ qs)

pub decode-monitor :
    (c : MonitorConfig)
    → decode_monitor (encode is_empty (monitor_config_snake c)) ≡ some (monitor_of c)
unfolding decode_monitor monitor_config_snake tagged_at after
decode-monitor c =
    let ts = monitor_config_snake c in
    rw
      (
        text-encode "address" c.address true ts refl refl,
        find-encode is_empty "queries" ts refl,
        read_queries-visible "queries" c.queries,
      )
      refl
