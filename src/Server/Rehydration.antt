-- ===== src/Server/Rehydration.antt =====
-- What the server resumes from the store in Consul after it was restarted.
use consul_release_controlle.Prelude.{◌≡◌, ◌≢◌, refl, sym, String, some, List, [], ◌∷◌}
use consul_release_controlle.Release.{Release, PluginConfig}
use consul_release_controlle.Storage.{
  Codec, Storage, Found, found, failed, list_releases, get_release_at,
}
use consul_release_controlle.Storage.Listing.{
  RunsOn, IsRead, AllListed, and_more, list_releases-AllListed,
}
use consul_release_controlle.Storage.Kv.{Result, Api}
use consul_release_controlle.Server.{Provider, releases_listed, rehydrate_all, rehydrate_releases}

-- The runtime of the release has a name, as `kubernetes` and `nomad` are.
unfoldable pub HasRuntime : Release → Type 0
HasRuntime r = (c : PluginConfig) → r.runtime ≡ some c → c.name ≢ ""

-- The provider over the store in Consul.
unfoldable pub consul_provider :
    {M W : Type 0} → Api W → Codec → Storage → (Release → W → Result M × W) → Provider M W
unfolding list_releases
consul_provider api codec s get = record {
  list_releases = λ options w. list_releases api codec s options w;
  get_state_machine = get;
}

module _ {M W : Type 0} (api : Api W) (codec : Codec) (s : Storage)
    (get : Release → W → Result M × W) where
  abbrev provider : Provider M W
  provider = consul_provider api codec s get

  module _
      (stored : (k : String) (w : W) (r : Release)
        → (get_release_at api codec s k w).0 ≡ found r
        → HasRuntime r) where
    no-AllListed : (r : Release) (rs : List Release) → AllListed api codec s "" (r ∷ rs) → ⊥
    unfolding RunsOn IsRead HasRuntime
    no-AllListed r rs (and_more (k, w, read) (c, has, same) all) =
        stored k w r read c has (sym same)

    releases-none :
        (l : Found (List Release)) (w : W)
        → ((rs : List Release) → l ≡ found rs → AllListed api codec s "" rs)
        → (releases_listed provider (l, w)).1 ≡ []
    unfolding releases_listed rehydrate_all
    releases-none (failed e) w all = refl
    releases-none (found []) w all = refl
    releases-none (found (r ∷ rs)) w all = absurd (no-AllListed r rs (all (r ∷ rs) refl))

  -- If every release that can be read from the store in Consul has a runtime whose name is not empty, or
  -- none, then a restarted server resumes no state machine at all, whatever was under way.
  pub rehydrate_releases-none :
      ((k : String) (w : W) (r : Release)
        → (get_release_at api codec s k w).0 ≡ found r
        → HasRuntime r)
      → (w : W) → (rehydrate_releases (consul_provider api codec s get) w).1 ≡ []
  unfolding rehydrate_releases consul_provider
  rehydrate_releases-none stored w =
      let (l, w') = list_releases api codec s (some "") w in
      releases-none stored l w' (λ rs h. list_releases-AllListed api codec s "" w h)
