-- ===== src/Storage.antt =====
-- pkg/plugins/consul/storage.go: releases and plugin states in Consul's key/value store.
pub mod Kv
pub mod Roundtrip
pub mod Listing
use Prim.Native.String.{◌++◌ as append}
use consul_release_controlle.Prelude.{
  String, Option, none, some, List, [], ◌∷◌, Bool, true, false, ◌||◌, not, if◌then◌else◌, str_eq,
}
use consul_release_controlle.Release.{Release, PluginConfig}
use Kv.{Result, ok, err, ConsulOptions, Api, set_kv, get_kv, delete_kv, list_kv}

-- `json.MarshalIndent` and `json.Unmarshal` at `Release`, and `strings.HasSuffix`.
pub record Codec : Type 0 where
  pub marshal : Release → Result String
  pub unmarshal : String → Result Release
  pub has_suffix : String → String → Bool

-- The errors of the store: the sentinels, and another error with its text.
pub data StoreError : Type 0 where
  release_not_found plugin_state_not_found : StoreError
  other : String → StoreError

pub data Found (A : Type 0) : Type 0 where
  found : A → Found A
  failed : StoreError → Found A

abbrev pub base_path : String
base_path = "consul-release-controller/releases"

unfoldable pub release_path : String → String
release_path name = append base_path (append "/" name)

unfoldable pub release_config_path : String → String
unfolding release_path
release_config_path name = append (release_path name) "/config"

unfoldable pub state_config_path : String → String → String
unfolding release_path
state_config_path name plugin_name =
    append (release_path name) (append "/plugin-state/" plugin_name)

-- `options` of the client, and what `CreatePluginStateStore` sets.
pub record Storage : Type 0 where
  pub options : ConsulOptions
  pub release_name : String
  pub plugin_name : String

unfoldable pub create_plugin_state_store : Storage → Release → String → Storage
create_plugin_state_store s r plugin_name = record s {
  release_name = r.name;
  plugin_name = plugin_name;
}

module _ {W : Type 0} (api : Api W) (codec : Codec) (s : Storage) where
  unfoldable pub upsert_release : Release → W → Option String × W
  upsert_release r w = elim (codec.marshal r) [
    | err e ↦ (some e, w)
    | ok d ↦ set_kv api s.options (release_config_path r.name) d w
  ]

  decoded : Result Release → Found Release
  decoded (ok r) = found r
  decoded (err e) = failed (other e)

  -- An empty value counts as no release.
  read_release : Result (Option String) → Found Release
  unfolding decoded
  read_release (err e) = failed (other e)
  read_release (ok none) = failed release_not_found
  read_release (ok (some d)) =
      if str_eq d "" then failed release_not_found else decoded (codec.unmarshal d)

  unfoldable pub get_release_at : String → W → Found Release × W
  unfolding read_release
  get_release_at path w = let (r, w') = get_kv api s.options path w in (read_release r, w')

  unfoldable pub get_release : String → W → Found Release × W
  unfolding get_release_at
  get_release name w = get_release_at (release_config_path name) w

  -- `options == nil` is `none`; a release without a runtime never matches.
  matches : Option String → Option PluginConfig → Bool
  matches none runtime = true
  matches (some wanted) none = false
  matches (some wanted) (some runtime) = str_eq wanted runtime.name

  keep_release : Option String → Release → Found (List Release) → Found (List Release)
  unfolding matches
  keep_release options r (found rs) = found (if matches options r.runtime then r ∷ rs else rs)
  keep_release options r (failed e) = failed e

  -- A key of a release: an error of reading it ends the loop.
  at_key :
      Option String → Found Release × W → (W → Found (List Release) × W) → Found (List Release) × W
  unfolding keep_release
  at_key options (failed e, w) later = (failed e, w)
  at_key options (found r, w) later = let (rest, w') = later w in (keep_release options r rest, w')

  -- The loop of `ListReleases` over the keys.
  unfoldable pub list_from : Option String → List String → W → Found (List Release) × W
  unfolding at_key
  list_from options [] w = (found [], w)
  list_from options (k ∷ ks) w =
      let skipped = list_from options ks w in
      if codec.has_suffix k "config"
      then at_key options (get_release_at k w) (λ w'. list_from options ks w')
      else skipped

  keys_listed : Option String → Result (List String) × W → Found (List Release) × W
  unfolding list_from
  keys_listed options (err e, w) = (failed (other e), w)
  keys_listed options (ok ks, w) = list_from options ks w

  unfoldable pub list_releases : Option String → W → Found (List Release) × W
  unfolding keys_listed
  list_releases options w = keys_listed options (list_kv api s.options base_path w)

  unfoldable pub delete_release : String → W → Option String × W
  delete_release name w = delete_kv api s.options (release_path name) w

  abbrev pub is_configured : Bool
  is_configured = not (str_eq s.plugin_name "" || str_eq s.release_name "")

  unfoldable pub upsert_state : String → W → Option String × W
  upsert_state d w =
      if is_configured
      then set_kv api s.options (state_config_path s.release_name s.plugin_name) d w
      else (some "storage incorrectly configured, no pluginName or releaseName", w)

  read_state : Result (Option String) → Found String
  read_state (err e) = failed (other (append "unable to retrieve key from Consul: " e))
  read_state (ok none) = failed plugin_state_not_found
  read_state (ok (some d)) = if str_eq d "" then failed plugin_state_not_found else found d

  unfoldable pub get_state : W → Found String × W
  unfolding read_state
  get_state w =
      let (r, w') = get_kv api s.options (state_config_path s.release_name s.plugin_name) w in
      if is_configured
      then (read_state r, w')
      else (failed (other "storage incorrectly configured, no pluginName or releaseName"), w)
