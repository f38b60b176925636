-- ===== src/Examples/Releases.antt =====
-- A key/value store that is a function from keys.
use Prim.Native.String.{◌++◌ as append}
use text.Mathlib.Text.{starts_with}
use text.Mathlib.TextEquality.{starts_with_iff}
use text.Mathlib.TextPositions.{starts_with-append}
use consul_release_controlle.Prelude.{
  ◌≡◌, ◌≢◌, refl, sym, String, Option, none, some, true, if◌then◌else◌, str_eq, eq_iff, Bool-cases,
  inl, inr, [], ◌∷◌,
}
use consul_release_controlle.Interfaces.{RuntimeBaseState}
use consul_release_controlle.Release.{Release, PluginConfig}
use consul_release_controlle.Runtime.{Plugin}
use consul_release_controlle.Runtime.Configure.{with_namespace, configure, save_state}
use consul_release_controlle.Runtime.Configure.Restart.{Json, consul_sources, configure-save_state}
use consul_release_controlle.Storage.{
  Codec, found, get_release_at, failed, release_not_found, release_config_path, state_config_path,
  Storage, upsert_release, get_release, delete_release, upsert_state,
}
use consul_release_controlle.Storage.Kv.{
  Result, ok, ConsulOptions, Api, IsKv, set_kv, get_kv, delete_kv,
}
use consul_release_controlle.Server.{rehydrate_releases}
use consul_release_controlle.Server.Rehydration.{
  HasRuntime, consul_provider, rehydrate_releases-none,
}
use consul_release_controlle.Storage.Listing.{get_release_at-unmarshal}
use consul_release_controlle.Storage.Roundtrip.{get_release-upsert_release, delete_release-prefix}

abbrev Store : Type 0
Store = String → Option String

abbrev assign : String → String → Store → Store
assign k v w = λ j. if str_eq j k then some v else w j

abbrev remove : String → Store → Store
remove k w = λ j. if starts_with j k then none else w j

abbrev api : Api Store
api = record {
  put = λ o k v w. (none, assign k v w);
  get = λ o k w. (ok (w k), w);
  delete_tree = λ o k w. (none, remove k w);
  keys = λ o k w. (ok ("consul-release-controller/releases/api/config" ∷ []), w);
}

assign_same : (k v : String) (w : Store) → assign k v w k ≡ some v
assign_same k v w = rw ((eq_iff k k).1 refl) refl

assign_other : (k v j : String) (w : Store) → j ≢ k → assign k v w j ≡ w j
assign_other k v j w h = elim (Bool-cases (str_eq j k)) [
  | inl same ↦ absurd (h ((eq_iff j k).0 same))
  | inr other ↦ rw other refl
]

remove_below : (k rest : String) (w : Store) → remove k w (append k rest) ≡ none
remove_below k rest w = rw (starts_with-append k rest) refl

remove_other :
    (k j : String) (w : Store) → ((rest : String) → j ≢ append k rest) → remove k w j ≡ w j
remove_other k j w h = elim (Bool-cases (starts_with j k)) [
  | inl below ↦ let (rest, e) = (starts_with_iff j k).0 below in absurd (h rest (sym e))
  | inr other ↦ rw other refl
]

options : ConsulOptions
options = record { namespace = ""; partition = "" }

abbrev storage : Storage
storage = record { options = options; release_name = "api"; plugin_name = "runtime" }

api-IsKv : IsKv api options
api-IsKv = record {
  value = λ w k. w k;
  get_reads = λ k w h. cc;
  get_keeps = λ k j w. refl;
  put_sets = λ k v w h. assign_same k v w;
  put_keeps = λ k v j w h. assign_other k v j w;
  delete_removes = λ k rest w h. remove_below k rest w;
  delete_keeps = λ k j w h. remove_other k j w;
}

abbrev release : Release
release = record {
  name = "api";
  namespace = "default";
  version = "1";
  created = 10;
  last_updated = 10;
  releaser = none;
  runtime = none;
  strategy = none;
  monitor = none;
  webhooks = [];
  post_deployment_test = none;
  state_history = [];
}

-- A codec that knows one release.
abbrev codec : Codec
codec = record { marshal = λ r. ok "{api}"; unmarshal = λ d. ok release; has_suffix = λ s t. true }

abbrev empty : Store
empty k = none

-- There is a value under every key.
abbrev full : Store
full k = some "{api}"

other_name : ◌≢◌ {A = String} "db" "api"
other_name h = cc

get_release-upsert_release_example :
    (get_release api codec storage "api" (upsert_release api codec storage release empty).1).0
    ≡ found release
unfolding upsert_release set_kv get_kv release_config_path
get_release-upsert_release_example =
    get_release-upsert_release api codec storage api-IsKv release "{api}" empty (some "{api}") refl
      refl refl refl refl

delete_release-prefix_example :
    (get_release api codec storage "api-v2" (delete_release api codec storage "api" full).1).0
    ≡ failed release_not_found
unfolding delete_release delete_kv get_kv release_config_path
delete_release-prefix_example =
    delete_release-prefix api codec storage api-IsKv "api" "-v2" full none refl refl

-- The release runs on Kubernetes.
abbrev kubernetes : PluginConfig
kubernetes = record { name = "kubernetes"; config = "{}" }

abbrev kubernetes_release : Release
kubernetes_release = record release { runtime = some kubernetes }

abbrev kubernetes_codec : Codec
kubernetes_codec = record codec { unmarshal = λ d. ok kubernetes_release }

abbrev machine_of : Release → Store → Result String × Store
machine_of r w = (ok r.name, w)

runs_on_kubernetes : (r : Release) (d : String) → kubernetes_codec.unmarshal d ≡ ok r → HasRuntime r
unfolding HasRuntime
runs_on_kubernetes r d h c has same = cc

stored :
    (k : String) (w : Store) (r : Release)
    → (get_release_at api kubernetes_codec storage k w).0 ≡ found r
    → HasRuntime r
stored k w r h =
    let (d, q) = get_release_at-unmarshal api kubernetes_codec storage k w r h in
    runs_on_kubernetes r d q

rehydrate_releases-none_example :
    (rehydrate_releases (consul_provider api kubernetes_codec storage machine_of) full).1 ≡ []
rehydrate_releases-none_example =
    rehydrate_releases-none api kubernetes_codec storage machine_of stored full

-- The state of a runtime plugin in JSON.
abbrev names : RuntimeBaseState
names = record { candidate_name = "api-v2"; primary_name = "api-primary" }

abbrev json : Json
json = record {
  unmarshal_config = λ d. ok (record { deployment_selector = "api-(.*)"; namespace = "" });
  unmarshal_state = λ d. names;
  marshal_state = λ s. some "{names}";
}

abbrev runtime : Plugin
runtime = record {
  deployment_selector = "api-(.*)";
  namespace = "default";
  candidate_name = "api-v2";
  primary_name = "api-primary";
}

configure-save_state_example :
    (configure
      (consul_sources api codec storage json)
      "{}"
      (save_state (consul_sources api codec storage json) "api-v2" "api-primary" empty)).0
    ≡ ok runtime
unfolding upsert_state set_kv get_kv state_config_path with_namespace
configure-save_state_example =
    configure-save_state api codec storage api-IsKv json "{}" empty
      (record { deployment_selector = "api-(.*)"; namespace = "" }) runtime "{names}"
      (some "{names}") refl refl refl refl refl refl refl
