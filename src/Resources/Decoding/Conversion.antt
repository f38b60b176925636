-- ===== src/Resources/Decoding/Conversion.antt =====
-- `ConvertToModel` and the plugins: what a plugin reads from the release of a resource.
use consul_release_controlle.Prelude.{
  ◌≡◌, ◌≢◌, refl, sym, ap, ◌∙◌, ℤ, pos, eqb_ℤ, map, Bool-cases, inl, inr, eqb_ℤ-true, String,
  Option, none, some, List, [], ◌∷◌, true, false, str_eq,
}
use consul_release_controlle.Release.{Release, PluginConfig}
use consul_release_controlle.Prometheus
use consul_release_controlle.Resources.{
  Resource, Plugin, Query, MonitorConfig, WebhookConfig, TestConfig, Printer, get_json_raw,
  webhooks_of, test_of, convert_to_model, webhook_config_snake, test_config_snake,
  strategy_config_snake, releaser_config_snake, runtime_config_snake, monitor_config_snake,
}
use consul_release_controlle.Resources.Json.{Document, Value, Tagged, encode, is_empty, not_zero}
use consul_release_controlle.Resources.Decoding.{
  decode_strategy, decode_runtime, decode_releaser, decode_test, decode_slack, decode_discord,
  decode_monitor,
}
use consul_release_controlle.Resources.Decoding.Fidelity.{
  strategy_of, releaser_of, plugin_test_of, slack_of, discord_of, monitor_of, query_of,
  decode-strategy, decode-runtime, decode-releaser, decode-test, decode-slack, decode-discord,
  decode-monitor,
}

-- The webhook is one of the list.
pub data IsOneOf (w : Plugin WebhookConfig) : List (Plugin WebhookConfig) → Type 0 where
  first : {ws : List (Plugin WebhookConfig)} → IsOneOf w (w ∷ ws)
  later :
      {v : Plugin WebhookConfig} {ws : List (Plugin WebhookConfig)}
      → IsOneOf w ws
      → IsOneOf w (v ∷ ws)

-- The configurations that `ConvertToModel` writes for the resource.
pub data IsWritten (r : Resource) : List (Tagged Value) → Type 0 where
  for_releaser : IsWritten r (releaser_config_snake r.releaser.config)
  for_runtime : IsWritten r (runtime_config_snake r.runtime.config.deployment r.namespace)
  for_strategy : IsWritten r (strategy_config_snake r.strategy.config)
  for_monitor : IsWritten r (monitor_config_snake r.monitor.config)
  for_test : IsWritten r (test_config_snake r.post_deployment_test.config)
  for_webhook :
      {w : Plugin WebhookConfig}
      → IsOneOf w r.webhooks
      → IsWritten r (webhook_config_snake w.config)

-- What a monitor reads as a bound of a query for a number of the resource: 0 is lost, since `omitempty`
-- leaves it out.
pub data IsBound : ℤ → Option ℤ → Type 0 where
  kept : {n : ℤ} → n ≢ pos 0 → IsBound n (some n)
  zero_is_lost : IsBound (pos 0) none

pub record IsQuery (q : Query) (read : Prometheus.Query) : Type 0 where
  pub same_name : read.name ≡ q.name
  pub same_preset : read.preset ≡ q.preset
  pub same_query : read.query ≡ q.query
  pub min_is : IsBound q.min read.min
  pub max_is : IsBound q.max read.max

pub data AreQueries : List Query → List Prometheus.Query → Type 0 where
  none_left : AreQueries [] []
  one_more :
      {q : Query} {x : Prometheus.Query} {qs : List Query} {xs : List Prometheus.Query}
      → IsQuery q x
      → AreQueries qs xs
      → AreQueries (q ∷ qs) (x ∷ xs)

IsBound-not_zero : (n : ℤ) → IsBound n (not_zero n)
unfolding not_zero
IsBound-not_zero n = elim (Bool-cases (eqb_ℤ n (pos 0))) [
  | inl is_zero ↦ rw is_zero (rw (eqb_ℤ-true n (pos 0) is_zero) zero_is_lost)
  | inr differs ↦ rw differs (
      kept (λ same.
        let zero : true ≡ false = sym (ap (λ (x : ℤ). eqb_ℤ x (pos 0)) same) ∙ differs in cc))
]

AreQueries-query_of : (qs : List Query) → AreQueries qs (map query_of qs)
AreQueries-query_of [] = none_left
AreQueries-query_of (q ∷ qs) =
    one_more
      (record {
        same_name = refl;
        same_preset = refl;
        same_query = refl;
        min_is = IsBound-not_zero q.min;
        max_is = IsBound-not_zero q.max;
      })
      (AreQueries-query_of qs)

parsed : {C : Type 0} → Option Document → (Document → Option C) → Option C
parsed none decode = none
parsed (some d) decode = decode d

module _ (p : Printer) (parse : String → Option Document) where
  -- `json.Unmarshal` of a plugin's configuration, at the struct of the plugin.
  unfoldable pub read : {C : Type 0} → (Document → Option C) → PluginConfig → Option C
  unfolding parsed
  read decode c = parsed (parse c.config) decode

  -- The plugin has the name, and reads the value from its configuration.
  unfoldable pub Configures :
      {C : Type 0} → (Document → Option C) → Option PluginConfig → String → C → Type 0
  Configures decode o name value =
      (c : PluginConfig) × (o ≡ some c) × (c.name ≡ name) × (read decode c ≡ some value)

  -- What the webhooks are called and read, in order.
  unfoldable pub all_read :
      {C : Type 0} → (Document → Option C) → List PluginConfig → List (String × Option C)
  all_read decode [] = []
  all_read decode (c ∷ cs) = (c.name, read decode c) ∷ all_read decode cs

  unfoldable pub all_said :
      {C : Type 0} → (WebhookConfig → C) → List (Plugin WebhookConfig) → List (String × Option C)
  all_said f [] = []
  all_said f (w ∷ ws) = (w.plugin_name, some (f w.config)) ∷ all_said f ws

  -- The monitor reads the address and the queries of the resource, but for bounds of 0.
  unfoldable pub ConfiguresMonitor : Option PluginConfig → Plugin MonitorConfig → Type 0
  ConfiguresMonitor o m =
      (c : PluginConfig) × (o ≡ some c)
      × (c.name ≡ m.plugin_name)
      × ((v : Prometheus.PluginConfig) × (read decode_monitor c ≡ some v)
          × (v.address ≡ m.config.address)
          × AreQueries m.config.queries v.queries)

  -- The release of a resource gives each plugin the configuration of the resource, but for bounds of 0
  -- of the monitor's queries. The runtime's namespace is that of the resource, the two flags of the
  -- strategy are not set, and there is a post deployment test if its plugin has a name.
  pub record CarriesOver (r : Resource) (m : Release) : Type 0 where
    pub same_name : m.name ≡ r.name
    pub same_namespace : m.namespace ≡ r.namespace
    pub same_version : m.version ≡ p.format r.generation
    pub same_releaser :
        Configures decode_releaser m.releaser r.releaser.plugin_name (releaser_of r.releaser.config)
    pub same_runtime :
        Configures decode_runtime m.runtime r.runtime.plugin_name
          (record { deployment_selector = r.runtime.config.deployment; namespace = r.namespace })
    pub same_strategy :
        Configures decode_strategy m.strategy r.strategy.plugin_name (strategy_of r.strategy.config)
    pub same_monitor : ConfiguresMonitor m.monitor r.monitor
    pub same_slack : all_read decode_slack m.webhooks ≡ all_said slack_of r.webhooks
    pub same_discord : all_read decode_discord m.webhooks ≡ all_said discord_of r.webhooks
    pub no_test :
        str_eq r.post_deployment_test.plugin_name "" ≡ true → m.post_deployment_test ≡ none
    pub same_test :
        str_eq r.post_deployment_test.plugin_name "" ≡ false
        → Configures decode_test m.post_deployment_test r.post_deployment_test.plugin_name
            (plugin_test_of r.post_deployment_test.config)

  -- The text of a configuration is parsed back.
  Parses : List (Tagged Value) → Type 0
  Parses ts = parse (get_json_raw p ts) ≡ some (encode is_empty ts)

  read-raw :
      {C : Type 0} (decode : Document → Option C) (name : String) (ts : List (Tagged Value))
      → Parses ts
      → read decode (record { name = name; config = get_json_raw p ts })
        ≡ decode (encode is_empty ts)
  unfolding read Parses
  read-raw decode name ts h = rw h refl

  all_read-webhooks_of :
      {C : Type 0} (decode : Document → Option C) (f : WebhookConfig → C)
      → ((c : WebhookConfig) → decode (encode is_empty (webhook_config_snake c)) ≡ some (f c))
      → (ws : List (Plugin WebhookConfig))
      → ((w : Plugin WebhookConfig) → IsOneOf w ws → Parses (webhook_config_snake w.config))
      → all_read decode (webhooks_of p ws) ≡ all_said f ws
  unfolding all_read all_said webhooks_of
  all_read-webhooks_of decode f h [] law = refl
  all_read-webhooks_of decode f h (w ∷ ws) law =
      rw
        (
          read-raw decode w.plugin_name (webhook_config_snake w.config) (law w first),
          h w.config,
          all_read-webhooks_of decode f h ws (λ v m. law v (later m)),
        )
        refl

  test_of-Configures :
      (t : Plugin TestConfig)
      → Parses (test_config_snake t.config)
      → str_eq t.plugin_name "" ≡ false
      → Configures decode_test (test_of p t) t.plugin_name (plugin_test_of t.config)
  unfolding test_of Configures
  test_of-Configures t law h = (
    record { name = t.plugin_name; config = get_json_raw p (test_config_snake t.config) },
    rw h refl,
    refl,
    read-raw decode_test t.plugin_name (test_config_snake t.config) law ∙ decode-test t.config,
  )

  test_of-none : (t : Plugin TestConfig) → str_eq t.plugin_name "" ≡ true → test_of p t ≡ none
  unfolding test_of
  test_of-none t h = rw h refl

  -- If the configurations that are printed for a resource are parsed back, then every plugin of the
  -- release that `ConvertToModel` makes of it reads from its configuration what the resource says, with
  -- one exception: a query's bound of 0 is lost, the monitor reads no bound for it.
  pub convert_to_model-CarriesOver :
      (r : Resource)
      → ((ts : List (Tagged Value))
          → IsWritten r ts
          → parse (get_json_raw p ts) ≡ some (encode is_empty ts))
      → CarriesOver r (convert_to_model p r)
  unfolding convert_to_model Configures ConfiguresMonitor Parses
  convert_to_model-CarriesOver r law = record {
    same_name = refl;
    same_namespace = refl;
    same_version = refl;
    same_releaser = (
      _,
      refl,
      refl,
      read-raw decode_releaser r.releaser.plugin_name _ (law _ for_releaser)
          ∙ decode-releaser r.releaser.config,
    );
    same_runtime = (
      _,
      refl,
      refl,
      read-raw decode_runtime r.runtime.plugin_name _ (law _ for_runtime)
          ∙ decode-runtime r.runtime.config.deployment r.namespace,
    );
    same_strategy = (
      _,
      refl,
      refl,
      read-raw decode_strategy r.strategy.plugin_name _ (law _ for_strategy)
          ∙ decode-strategy r.strategy.config,
    );
    same_monitor = (
      _,
      refl,
      refl,
      (
        monitor_of r.monitor.config,
        read-raw decode_monitor r.monitor.plugin_name _ (law _ for_monitor)
            ∙ decode-monitor r.monitor.config,
        refl,
        AreQueries-query_of r.monitor.config.queries,
      ),
    );
    same_slack =
        all_read-webhooks_of decode_slack slack_of decode-slack r.webhooks
          (λ w m. law _ (for_webhook m));
    same_discord =
        all_read-webhooks_of decode_discord discord_of decode-discord r.webhooks
          (λ w m. law _ (for_webhook m));
    no_test = test_of-none r.post_deployment_test;
    same_test = test_of-Configures r.post_deployment_test (law _ for_test);
  }
