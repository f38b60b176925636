-- ===== src/Resources.antt =====
-- pkg/controllers/kubernetes/api/v1/release_types.go and convert.go: the resource of a release, and the
-- release that it is converted to.
pub mod Json
pub mod Decoding
use consul_release_controlle.Prelude.{
  ℕ, ℤ, String, Option, none, some, List, [], ◌∷◌, Bool, true, false, if◌then◌else◌, str_eq,
}
use consul_release_controlle.Release.{Release, PluginConfig}
use Json.{
  Flat, text, number, texts, Object, Value, flat, objects, Document, is_empty_flat, is_empty,
  Tagged, tagged, encode,
}

pub record WebhookConfig : Type 0 where
  pub id : String
  pub token : String
  pub url : String
  pub template : String
  pub status : List String

pub record ReleaserConfig : Type 0 where
  pub consul_service : String
  pub namespace : String
  pub partition : String

pub record RuntimeConfig : Type 0 where
  pub deployment : String

pub record StrategyConfig : Type 0 where
  pub initial_delay : String
  pub interval : String
  pub initial_traffic : ℤ
  pub traffic_step : ℤ
  pub max_traffic : ℤ
  pub error_threshold : ℤ

pub record Query : Type 0 where
  pub name : String
  pub preset : String
  pub min : ℤ
  pub max : ℤ
  pub query : String

pub record MonitorConfig : Type 0 where
  pub address : String
  pub queries : List Query

pub record TestConfig : Type 0 where
  pub path : String
  pub method : String
  pub payload : String
  pub required_test_passes : ℤ
  pub interval : String
  pub timeout : String

-- `PluginName` and `Config` of a plugin.
pub record Plugin (C : Type 0) : Type 0 where
  pub plugin_name : String
  pub config : C

-- `Release`, with the fields of its metadata and of its specification that are converted.
pub record Resource : Type 0 where
  pub name : String
  pub namespace : String
  pub generation : ℕ
  pub webhooks : List (Plugin WebhookConfig)
  pub releaser : Plugin ReleaserConfig
  pub runtime : Plugin RuntimeConfig
  pub strategy : Plugin StrategyConfig
  pub monitor : Plugin MonitorConfig
  pub post_deployment_test : Plugin TestConfig

abbrev field_of : String → Bool → Flat → Tagged Value
field_of name omitempty v = tagged name omitempty (flat v)

-- The structs of convert.go with their tags.
unfoldable pub webhook_config_snake : WebhookConfig → List (Tagged Value)
webhook_config_snake c =
    field_of "id" false (text c.id)
    ∷ field_of "token" false (text c.token)
    ∷ field_of "url" false (text c.url)
    ∷ field_of "template" false (text c.template)
    ∷ field_of "status" true (texts c.status)
    ∷ []

unfoldable pub releaser_config_snake : ReleaserConfig → List (Tagged Value)
releaser_config_snake c =
    field_of "consul_service" false (text c.consul_service)
    ∷ field_of "namespace" true (text c.namespace)
    ∷ field_of "partition" true (text c.partition)
    ∷ []

unfoldable pub runtime_config_snake : String → String → List (Tagged Value)
runtime_config_snake deployment namespace =
    field_of "deployment" true (text deployment) ∷ field_of "namespace" true (text namespace) ∷ []

unfoldable pub strategy_config_snake : StrategyConfig → List (Tagged Value)
strategy_config_snake c =
    field_of "initial_delay" true (text c.initial_delay)
    ∷ field_of "interval" true (text c.interval)
    ∷ field_of "initial_traffic" true (number c.initial_traffic)
    ∷ field_of "traffic_step" true (number c.traffic_step)
    ∷ field_of "max_traffic" true (number c.max_traffic)
    ∷ field_of "error_threshold" true (number c.error_threshold)
    ∷ []

unfoldable pub monitor_query_snake : Query → List (Tagged Flat)
monitor_query_snake q =
    tagged "name" true (text q.name)
    ∷ tagged "preset" true (text q.preset)
    ∷ tagged "min" true (number q.min)
    ∷ tagged "max" true (number q.max)
    ∷ tagged "query" true (text q.query)
    ∷ []

-- The loop over the queries.
unfoldable pub queries_snake : List Query → List (Object Flat)
unfolding monitor_query_snake
queries_snake [] = []
queries_snake (q ∷ qs) = encode is_empty_flat (monitor_query_snake q) ∷ queries_snake qs

unfoldable pub monitor_config_snake : MonitorConfig → List (Tagged Value)
unfolding queries_snake
monitor_config_snake c =
    field_of "address" true (text c.address)
    ∷ tagged "queries" true (objects (queries_snake c.queries))
    ∷ []

unfoldable pub test_config_snake : TestConfig → List (Tagged Value)
test_config_snake c =
    field_of "path" false (text c.path)
    ∷ field_of "method" false (text c.method)
    ∷ field_of "payload" true (text c.payload)
    ∷ field_of "required_test_passes" false (number c.required_test_passes)
    ∷ field_of "interval" false (text c.interval)
    ∷ field_of "timeout" false (text c.timeout)
    ∷ []

-- The text of a document, and that of a generation.
pub record Printer : Type 0 where
  pub print : Document → String
  pub format : ℕ → String

module _ (p : Printer) where
  unfoldable pub get_json_raw : List (Tagged Value) → String
  get_json_raw ts = p.print (encode is_empty ts)

  abbrev plugin_config : String → List (Tagged Value) → PluginConfig
  plugin_config name ts = record { name = name; config = get_json_raw ts }

  -- The loop over the webhooks.
  unfoldable pub webhooks_of : List (Plugin WebhookConfig) → List PluginConfig
  unfolding webhook_config_snake get_json_raw
  webhooks_of [] = []
  webhooks_of (w ∷ ws) =
      plugin_config w.plugin_name (webhook_config_snake w.config) ∷ webhooks_of ws

  unfoldable pub test_of : Plugin TestConfig → Option PluginConfig
  unfolding test_config_snake get_json_raw
  test_of t =
      if str_eq t.plugin_name ""
      then none
      else some (plugin_config t.plugin_name (test_config_snake t.config))

  -- `ConvertToModel`; the fields that it does not set have the zero value.
  unfoldable pub convert_to_model : Resource → Release
  unfolding webhooks_of test_of releaser_config_snake runtime_config_snake strategy_config_snake
      monitor_config_snake get_json_raw
  convert_to_model r = record {
    name = r.name;
    namespace = r.namespace;
    version = p.format r.generation;
    created = 0;
    last_updated = 0;
    releaser =
        some (plugin_config r.releaser.plugin_name (releaser_config_snake r.releaser.config));
    runtime = some (
        plugin_config r.runtime.plugin_name
          (runtime_config_snake r.runtime.config.deployment r.namespace));
    strategy =
        some (plugin_config r.strategy.plugin_name (strategy_config_snake r.strategy.config));
    monitor = some (plugin_config r.monitor.plugin_name (monitor_config_snake r.monitor.config));
    webhooks = webhooks_of r.webhooks;
    post_deployment_test = test_of r.post_deployment_test;
    state_history = [];
  }
