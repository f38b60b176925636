-- ===== src/Runtime/Configure/Restart.antt =====
-- The runtime plugin of a controller that was restarted.
use consul_release_controlle.Prelude.{◌≡◌, refl, String, Option, none, some, true, false, str_eq}
use consul_release_controlle.Interfaces.{RuntimeBaseConfig, RuntimeBaseState}
use consul_release_controlle.Storage.Kv.{Result, ok, Api, IsKv, get_kv}
use consul_release_controlle.Storage.{
  Codec, Storage, Found, found, is_configured, upsert_state, get_state, state_config_path,
}
use consul_release_controlle.Storage.Roundtrip.{get_state-upsert_state}
use consul_release_controlle.Runtime.{Plugin}
use consul_release_controlle.Runtime.Configure.{
  Sources, with_namespace, plugin_of, state_of, loaded, state_loaded, unmarshalled, configure,
  saved, save_state,
}

-- JSON at the plugin's configuration and state.
pub record Json : Type 0 where
  pub unmarshal_config : String → Result RuntimeBaseConfig
  pub unmarshal_state : String → RuntimeBaseState
  pub marshal_state : RuntimeBaseState → Option String

-- The plugin over the store in Consul.
unfoldable pub consul_sources : {W : Type 0} → Api W → Codec → Storage → Json → Sources W
consul_sources api codec s json = record {
  unmarshal_config = json.unmarshal_config;
  unmarshal_state = json.unmarshal_state;
  marshal_state = json.marshal_state;
  get_state = get_state api codec s;
  upsert_state = upsert_state api codec s;
}

module _ {W : Type 0} (api : Api W) (codec : Codec) (s : Storage) (kv : IsKv api s.options)
    (json : Json) where
  abbrev sources : Sources W
  sources = consul_sources api codec s json

  loaded_found :
      (t : String) (state : RuntimeBaseState)
      → json.unmarshal_state t ≡ state
      → loaded sources (found t) ≡ state
  unfolding loaded consul_sources
  loaded_found t state h = h

  -- The configuration that was read gives the plugin, with the namespace `default` if it has none.
  configure-loaded :
      (d : String) (w : W) (c : RuntimeBaseConfig) (f : Found String) (state : RuntimeBaseState)
      → json.unmarshal_config d ≡ ok c
      → (get_state api codec s w).0 ≡ f
      → loaded sources f ≡ state
      → (configure sources d w).0 ≡ ok (plugin_of (with_namespace c) state)
  unfolding configure consul_sources unmarshalled state_loaded
  configure-loaded d w c f state h g l = rw (h, unmarshalled, g, l) refl

  -- A plugin that saved its state to the store in Consul, and is configured anew from the state that this
  -- leaves, has the names of the candidate and the primary that were saved. The state is not empty in
  -- JSON and is read back from it, and the calls of Consul succeed.
  pub configure-save_state :
      (d : String) (w : W) (c : RuntimeBaseConfig) (p : Plugin) (t : String) (v : Option String)
      → json.unmarshal_config d ≡ ok c
      → json.marshal_state (state_of p) ≡ some t
      → json.unmarshal_state t ≡ state_of p
      → is_configured api codec s ≡ true
      → str_eq t "" ≡ false
      → (upsert_state api codec s t w).0 ≡ none
      → (get_kv api s.options
          (state_config_path s.release_name s.plugin_name)
          (upsert_state api codec s t w).1).0
        ≡ ok v
      → (configure
          (consul_sources api codec s json)
          d
          (save_state (consul_sources api codec s json) p.candidate_name p.primary_name w)).0
        ≡ ok (plugin_of (with_namespace c) (state_of p))
  unfolding save_state consul_sources saved loaded
  configure-save_state d w c p t v h m u set full done read =
      rw (m, saved)
        (configure-loaded d (upsert_state api codec s t w).1 c (found t) (state_of p) h
          (get_state-upsert_state api codec s kv t w v set full done read)
          (loaded_found t (state_of p) u))
