-- ===== src/Examples/Resources.antt =====
-- The resource of a release with one query, no webhooks and no post deployment test.
use consul_release_controlle.Prelude.{
  ◌≡◌, refl, pos, String, Option, none, some, List, [], ◌∷◌, if◌then◌else◌, str_eq,
}
use consul_release_controlle.Resources.{
  Resource, Printer, get_json_raw, convert_to_model, releaser_config_snake, runtime_config_snake,
  strategy_config_snake, monitor_config_snake, test_config_snake,
}
use consul_release_controlle.Resources.Json.{Document, Value, Tagged, encode, is_empty}
use consul_release_controlle.Resources.Decoding.Conversion.{
  IsWritten, for_releaser, for_runtime, for_strategy, for_monitor, for_test, for_webhook,
  CarriesOver, convert_to_model-CarriesOver,
}

abbrev resource : Resource
resource = record {
  name = "api";
  namespace = "default";
  generation = 3;
  webhooks = [];
  releaser = record {
    plugin_name = "consul";
    config = record { consul_service = "api"; namespace = ""; partition = "" };
  };
  runtime = record { plugin_name = "kubernetes"; config = record { deployment = "api-(.*)" } };
  strategy = record {
    plugin_name = "canary";
    config = record {
      initial_delay = "";
      interval = "30s";
      initial_traffic = pos 10;
      traffic_step = pos 20;
      max_traffic = pos 100;
      error_threshold = pos 5;
    };
  };
  monitor = record {
    plugin_name = "prometheus";
    config = record {
      address = "http://prometheus:9090";
      queries =
          record {
            name = "success";
            preset = "envoy-request-success";
            min = pos 99;
            max = pos 0;
            query = "";
          }
          ∷ [];
    };
  };
  post_deployment_test = record {
    plugin_name = "";
    config = record {
      path = "";
      method = "";
      payload = "";
      required_test_passes = pos 0;
      interval = "";
      timeout = "";
    };
  };
}

-- A document is printed as the name of its first field.
abbrev first_name : Document → String
first_name [] = ""
first_name ((k, v) ∷ d) = k

abbrev printer : Printer
printer = record { print = first_name; format = λ n. "3" }

abbrev parse : String → Option Document
parse t =
    if str_eq t "consul_service"
    then some (encode is_empty (releaser_config_snake resource.releaser.config))
    else if str_eq t "deployment"
    then some (encode is_empty (runtime_config_snake "api-(.*)" "default"))
    else if str_eq t "interval"
    then some (encode is_empty (strategy_config_snake resource.strategy.config))
    else if str_eq t "address"
    then some (encode is_empty (monitor_config_snake resource.monitor.config))
    else if str_eq t "path"
    then some (encode is_empty (test_config_snake resource.post_deployment_test.config))
    else none

law :
    (ts : List (Tagged Value))
    → IsWritten resource ts
    → parse (get_json_raw printer ts) ≡ some (encode is_empty ts)
unfolding get_json_raw encode is_empty releaser_config_snake runtime_config_snake
    strategy_config_snake monitor_config_snake test_config_snake
law ts for_releaser = refl
law ts for_runtime = refl
law ts for_strategy = refl
law ts for_monitor = refl
law ts for_test = refl
law ts (for_webhook m) = elim m [ ]

convert_to_model-CarriesOver_example :
    CarriesOver printer parse resource (convert_to_model printer resource)
convert_to_model-CarriesOver_example = convert_to_model-CarriesOver printer parse resource law
