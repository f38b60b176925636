-- ===== src/Provider.antt =====
-- pkg/plugins/provider.go: the plugins by their names, and the state machines of the releases.
pub mod Machines
use Prim.Native.String.{◌++◌ as append}
use consul_release_controlle.Prelude.{
  String, Option, none, some, List, [], ◌∷◌, Bool, true, false, if◌then◌else◌, str_eq,
}
use consul_release_controlle.Release.{Release}
use consul_release_controlle.Storage.Kv.{Result, ok, err}

-- pkg/plugins/registered_types.go
abbrev pub plugin_runtime_type_kubernetes : String
plugin_runtime_type_kubernetes = "kubernetes"

abbrev pub plugin_runtime_type_nomad : String
plugin_runtime_type_nomad = "nomad"

abbrev pub plugin_monitor_type_prometheus : String
plugin_monitor_type_prometheus = "prometheus"

abbrev pub plugin_strategy_type_canary : String
plugin_strategy_type_canary = "canary"

abbrev pub plugin_webhook_type_discord : String
plugin_webhook_type_discord = "discord"

abbrev pub plugin_webhook_type_slack : String
plugin_webhook_type_slack = "slack"

abbrev pub plugin_deployment_test_type_http : String
plugin_deployment_test_type_http = "http"

-- The plugin that a `Create…` function makes, with what it is given. `C` is the type of the clients of
-- the platforms.
pub data Plugin (C : Type 0) : Type 0 where
  runtime_over : C → Plugin C
  prometheus : String → String → String → Plugin C
  canary : Plugin C
  discord : Plugin C
  slack : Plugin C
  http_test : String → String → String → Plugin C

invalid : {C : Type 0} → String → String → Result (Plugin C)
invalid kind name = err (append (append (append "invalid " kind) " plugin type: ") name)

unfoldable pub create_monitor : {C : Type 0} → String → String → String → String → Result (Plugin C)
unfolding invalid
create_monitor plugin_name name namespace runtime =
    if str_eq plugin_name plugin_monitor_type_prometheus
    then ok (prometheus name namespace runtime)
    else invalid "Monitor" plugin_name

unfoldable pub create_strategy : {C : Type 0} → String → Result (Plugin C)
unfolding invalid
create_strategy plugin_name =
    if str_eq plugin_name plugin_strategy_type_canary
    then ok canary
    else invalid "Strategy" plugin_name

unfoldable pub create_webhook : {C : Type 0} → String → Result (Plugin C)
unfolding invalid
create_webhook plugin_name =
    if str_eq plugin_name plugin_webhook_type_discord
    then ok discord
    else if str_eq plugin_name plugin_webhook_type_slack
    then ok slack
    else invalid "Webhook" plugin_name

unfoldable pub create_post_deployment_test :
    {C : Type 0} → String → String → String → String → Result (Plugin C)
unfolding invalid
create_post_deployment_test plugin_name name namespace runtime =
    if str_eq plugin_name plugin_deployment_test_type_http
    then ok (http_test name namespace runtime)
    else invalid "Post deployment test" plugin_name

-- What the provider calls, over clients `C`, state machines `M` and a state `W`: `NewKubernetes` and
-- `NewNomad` of pkg/clients, and `New` of the state machine.
pub record Makers (C M W : Type 0) : Type 0 where
  pub new_kubernetes : W → Result C × W
  pub new_nomad : W → Result C × W
  pub new_machine : Release → W → Result M × W

-- The map of the state machines.
abbrev pub Machines : Type 0 → Type 0
Machines M = List (String × M)

unfoldable pub get_release_key : Release → String
get_release_key r = append (append r.name "-") r.namespace

unfoldable pub machine_at : {M : Type 0} → String → Machines M → Option M
machine_at k [] = none
machine_at k ((j, m) ∷ ms) = if str_eq j k then some m else machine_at k ms

unfoldable pub without_machine : {M : Type 0} → String → Machines M → Machines M
without_machine k [] = []
without_machine k ((j, m) ∷ ms) =
    let rest = without_machine k ms in if str_eq j k then rest else (j, m) ∷ rest

unfoldable pub delete_state_machine : {M : Type 0} → Release → Machines M → Machines M
unfolding without_machine
delete_state_machine r ms = without_machine (get_release_key r) ms

module _ {C M W : Type 0} (o : Makers C M W) where
  client_made : String → Result C × W → Result C × W
  client_made text (ok c, w) = (ok c, w)
  client_made text (err e, w) = (err (append text e), w)

  unfoldable pub get_runtime_client : String → W → Result C × W
  unfolding client_made
  get_runtime_client name w =
      if str_eq name plugin_runtime_type_kubernetes
      then client_made "unable to create Kubernetes client: " (o.new_kubernetes w)
      else if str_eq name plugin_runtime_type_nomad
      then client_made "unable to create Nomad client: " (o.new_nomad w)
      else (err (append (append "runtime " name) " not implemented"), w)

  runtime_of : String → Result C × W → Result (Plugin C) × W
  unfolding invalid
  runtime_of name (err e, w) = (err (append "unable to create runtime client: " e), w)
  runtime_of name (ok c, w) =
      if str_eq name plugin_runtime_type_kubernetes
      then (ok (runtime_over c), w)
      else if str_eq name plugin_runtime_type_nomad
      then (ok (runtime_over c), w)
      else (invalid "Runtime" name, w)

  unfoldable pub create_runtime : String → W → Result (Plugin C) × W
  unfolding runtime_of
  create_runtime name w = runtime_of name (get_runtime_client name w)

  machine_made : Release → Machines M → Result M × W → Result M × Machines M × W
  machine_made r ms (err e, w) = (err (append "unable to create new statemachine: " e), ms, w)
  machine_made r ms (ok m, w) =
      (ok m, (get_release_key r, m) ∷ without_machine (get_release_key r) ms, w)

  machine_or_new : Option M → Release → Machines M → W → Result M × Machines M × W
  unfolding machine_made
  machine_or_new (some m) r ms w = (ok m, ms, w)
  machine_or_new none r ms w = machine_made r ms (o.new_machine r w)

  unfoldable pub get_state_machine : Release → Machines M → W → Result M × Machines M × W
  unfolding machine_or_new
  get_state_machine r ms w = machine_or_new (machine_at (get_release_key r) ms) r ms w
