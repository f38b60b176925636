-- ===== src/Storage/Listing.antt =====
-- What `ListReleases` of pkg/plugins/consul/storage.go returns.
use consul_release_controlle.Prelude.{
  ◌≡◌, refl, String, Option, none, some, List, [], ◌∷◌, Bool, true, false, Bool-cases, inl, inr,
  if◌then◌else◌, str_eq, eq_iff,
}
use consul_release_controlle.Release.{Release, PluginConfig}
use consul_release_controlle.Storage.{
  Codec, Storage, Found, found, failed, release_not_found, decoded, read_release, matches,
  keep_release, get_release_at, at_key, list_from, keys_listed, base_path, list_releases,
}
use consul_release_controlle.Storage.Kv.{Result, ok, err, Api, get_kv, list_kv}

-- The release has a runtime of the name.
unfoldable pub RunsOn : String → Release → Type 0
RunsOn name r = (c : PluginConfig) × (r.runtime ≡ some c) × (name ≡ c.name)

module _ {W : Type 0} (api : Api W) (codec : Codec) (s : Storage) where
  -- The release is read under some key, in some state.
  unfoldable pub IsRead : Release → Type 0
  IsRead r = (k : String) × (w : W) × ((get_release_at api codec s k w).0 ≡ found r)

  decoded-ok : (d : Result Release) (r : Release) → decoded api codec s d ≡ found r → d ≡ ok r
  unfolding decoded
  decoded-ok (ok x) r h = cc
  decoded-ok (err e) r h = cc

  read-unmarshal :
      (v : Result (Option String)) (r : Release)
      → read_release api codec s v ≡ found r
      → (d : String) × (codec.unmarshal d ≡ ok r)
  unfolding read_release
  read-unmarshal (err e) r h = absurd (cc)
  read-unmarshal (ok none) r h = absurd (cc)
  read-unmarshal (ok (some d)) r h = text_read (str_eq d "") h
    where
      text_read :
          (b : Bool)
          → (if b then failed release_not_found else decoded api codec s (codec.unmarshal d))
            ≡ found r
          → (d : String) × (codec.unmarshal d ≡ ok r)
      text_read true h = absurd (cc)
      text_read false h = (d, decoded-ok (codec.unmarshal d) r h)

  -- A release that is read was decoded from some text.
  pub get_release_at-unmarshal :
      (k : String) (w : W) (r : Release)
      → (get_release_at api codec s k w).0 ≡ found r
      → (d : String) × (codec.unmarshal d ≡ ok r)
  unfolding get_release_at
  get_release_at-unmarshal k w r h = read-unmarshal (get_kv api s.options k w).0 r h

  pub data AllListed (name : String) : List Release → Type 0 where
    no_more : AllListed name []
    and_more :
        {r : Release} {rs : List Release}
        → IsRead r
        → RunsOn name r
        → AllListed name rs
        → AllListed name (r ∷ rs)

  matches-RunsOn :
      (name : String) (r : Release) (c : Option PluginConfig)
      → r.runtime ≡ c
      → matches api codec s (some name) c ≡ true
      → RunsOn name r
  unfolding matches RunsOn
  matches-RunsOn name r none q h = absurd (cc)
  matches-RunsOn name r (some c) q h = (c, q, (eq_iff name c.name).0 h)

  listed_if :
      (name : String) (r : Release) (ls rs : List Release) (b : Bool)
      → IsRead r
      → AllListed name ls
      → matches api codec s (some name) r.runtime ≡ b
      → (if b then r ∷ ls else ls) ≡ rs
      → AllListed name rs
  listed_if name r ls rs true read all m q =
      rw (← q) (and_more read (matches-RunsOn name r r.runtime refl m) all)
  listed_if name r ls rs false read all m q = rw (← q) all

  keep-AllListed :
      (name : String) (r : Release) (later : Found (List Release)) (rs : List Release)
      → IsRead r
      → ((ls : List Release) → later ≡ found ls → AllListed name ls)
      → keep_release api codec s (some name) r later ≡ found rs
      → AllListed name rs
  unfolding keep_release
  keep-AllListed name r (failed e) rs read all h = absurd (cc)
  keep-AllListed name r (found ls) rs read all h =
      listed_if name r ls rs (matches api codec s (some name) r.runtime) read (all ls refl) refl
        (cc)

  at_key-AllListed :
      (name k : String) (r : Found Release) (w w' : W) (later : W → Found (List Release) × W)
      (rs : List Release)
      → (get_release_at api codec s k w).0 ≡ r
      → ((ls : List Release) → (later w').0 ≡ found ls → AllListed name ls)
      → (at_key api codec s (some name) (r, w') later).0 ≡ found rs
      → AllListed name rs
  unfolding at_key IsRead
  at_key-AllListed name k (found r) w w' later rs q all h =
      keep-AllListed name r (later w').0 rs (k, w, q) all h
  at_key-AllListed name k (failed e) w w' later rs q all h = absurd (cc)

  list_from-AllListed :
      (name : String) (ks : List String) (w : W) (rs : List Release)
      → (list_from api codec s (some name) ks w).0 ≡ found rs
      → AllListed name rs
  unfolding list_from
  list_from-AllListed name [] w rs = nothing rs
    where
      nothing : (rs : List Release) → found [] ≡ found rs → AllListed name rs
      nothing [] h = no_more
      nothing (r ∷ rs) h = absurd (cc)
  list_from-AllListed name (k ∷ ks) w rs =
      let (r, w') = get_release_at api codec s k w in
      elim (Bool-cases (codec.has_suffix k "config")) [
        | inl is_config ↦ rw is_config (
            at_key-AllListed name k r w w' (λ v. list_from api codec s (some name) ks v) rs refl
              (list_from-AllListed name ks w'))
        | inr is_other ↦ rw is_other (list_from-AllListed name ks w rs)
      ]

  keys-AllListed :
      (name : String) (r : Result (List String) × W) (rs : List Release)
      → (keys_listed api codec s (some name) r).0 ≡ found rs
      → AllListed name rs
  unfolding keys_listed
  keys-AllListed name (err e, w) rs h = absurd (cc)
  keys-AllListed name (ok ks, w) rs h = list_from-AllListed name ks w rs h

  -- `ListReleases` with options returns releases that were read from the store, and of them only those
  -- that have a runtime of the name in the options.
  pub list_releases-AllListed :
      (name : String) (w : W) {rs : List Release}
      → (list_releases api codec s (some name) w).0 ≡ found rs
      → AllListed name rs
  unfolding list_releases
  list_releases-AllListed name w {rs} h =
      keys-AllListed name (list_kv api s.options base_path w) rs h
