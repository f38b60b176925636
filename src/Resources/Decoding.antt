-- ===== src/Resources/Decoding.antt =====
-- What the plugins read from the configurations that `ConvertToModel` writes: `json.Unmarshal` at the
-- structs of the plugins, by the names of their fields.
pub mod Fidelity
pub mod Conversion
use consul_release_controlle.Prelude.{◌≡◌, refl, ℤ, String, Option, none, some, List, [], ◌∷◌, Bool}
use consul_release_controlle.Interfaces.{RuntimeBaseConfig}
use consul_release_controlle.Canary as Canary
use consul_release_controlle.HttpTest as HttpTest
use consul_release_controlle.Prometheus as Prometheus
use consul_release_controlle.Releaser as Releaser
use consul_release_controlle.Webhooks.{SlackConfig, DiscordConfig}
use consul_release_controlle.Resources.Json.{
  Flat, Object, Value, flat, objects, Document, find, field, read_text, read_number, read_pointer,
  read_flag, read_texts,
}

infixl 5 ◌<*>◌
abbrev pub ◌<*>◌ : {A B : Type 0} → Option (A → B) → Option A → Option B
none <*> a = none
some f <*> none = none
some f <*> some a = some (f a)

-- PluginConfig of pkg/plugins/canary/plugin.go
unfoldable pub decode_strategy : Document → Option Canary.PluginConfig
decode_strategy d =
    some (λ delay interval initial step max threshold delete manual. record {
      initial_delay = delay;
      interval = interval;
      initial_traffic = initial;
      traffic_step = step;
      max_traffic = max;
      error_threshold = threshold;
      delete_canary_on_failed = delete;
      manual_promotion = manual;
    })
    <*> field read_text "initial_delay" d
    <*> field read_text "interval" d
    <*> field read_number "initial_traffic" d
    <*> field read_number "traffic_step" d
    <*> field read_number "max_traffic" d
    <*> field read_number "error_threshold" d
    <*> field read_flag "delete_canary_on_failed" d
    <*> field read_flag "manual_promotion" d

-- RuntimeBaseConfig of pkg/plugins/interfaces/runtime.go
unfoldable pub decode_runtime : Document → Option RuntimeBaseConfig
decode_runtime d =
    some
      (λ deployment namespace. record { deployment_selector = deployment; namespace = namespace })
    <*> field read_text "deployment" d
    <*> field read_text "namespace" d

-- ReleaserBaseConfig of pkg/plugins/interfaces/releaser.go
unfoldable pub decode_releaser : Document → Option Releaser.PluginConfig
decode_releaser d =
    some (λ service namespace partition. record {
      consul_service = service;
      options = record { namespace = namespace; partition = partition };
    })
    <*> field read_text "consul_service" d
    <*> field read_text "namespace" d
    <*> field read_text "partition" d

-- PluginConfig of pkg/plugins/httptest/plugin.go
unfoldable pub decode_test : Document → Option HttpTest.PluginConfig
decode_test d =
    some (λ path method payload passes interval timeout. record {
      path = path;
      method = method;
      payload = payload;
      required_test_passes = passes;
      interval = interval;
      timeout = timeout;
    })
    <*> field read_text "path" d
    <*> field read_text "method" d
    <*> field read_text "payload" d
    <*> field read_number "required_test_passes" d
    <*> field read_text "interval" d
    <*> field read_text "timeout" d

-- PluginConfig of pkg/plugins/slack/plugin.go
unfoldable pub decode_slack : Document → Option SlackConfig
decode_slack d =
    some (λ url template status. record { url = url; template = template; status = status })
    <*> field read_text "url" d
    <*> field read_text "template" d
    <*> field read_texts "status" d

-- PluginConfig of pkg/plugins/discord/plugin.go
unfoldable pub decode_discord : Document → Option DiscordConfig
decode_discord d =
    some (λ id token template status. record {
      id = id;
      token = token;
      template = template;
      status = status;
    })
    <*> field read_text "id" d
    <*> field read_text "token" d
    <*> field read_text "template" d
    <*> field read_texts "status" d

-- Query and PluginConfig of pkg/plugins/prometheus/monitor.go
unfoldable pub decode_query : Object Flat → Option Prometheus.Query
decode_query o =
    some (λ name preset query min max. record {
      name = name;
      preset = preset;
      query = query;
      min = min;
      max = max;
    })
    <*> read_text (find "name" o)
    <*> read_text (find "preset" o)
    <*> read_text (find "query" o)
    <*> read_pointer (find "min" o)
    <*> read_pointer (find "max" o)

unfoldable pub decode_queries : List (Object Flat) → Option (List Prometheus.Query)
unfolding decode_query
decode_queries [] = some []
decode_queries (o ∷ os) = some (λ q qs. q ∷ qs) <*> decode_query o <*> decode_queries os

unfoldable pub read_queries : Option Value → Option (List Prometheus.Query)
unfolding decode_queries
read_queries none = some []
read_queries (some (flat v)) = none
read_queries (some (objects os)) = decode_queries os

unfoldable pub decode_monitor : Document → Option Prometheus.PluginConfig
unfolding read_queries
decode_monitor d =
    some (λ address queries. record { address = address; queries = queries })
    <*> field read_text "address" d
    <*> read_queries (find "queries" d)
