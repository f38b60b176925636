-- ===== src/Storage/Roundtrip.antt =====
-- What a reader of the store in pkg/plugins/consul/storage.go finds after a write.
use Prim.Native.String.{◌++◌ as append}
use text.Mathlib.TextLemmas.{append_assoc, append_cancel_left, append_cancel_right}
use consul_release_controlle.Prelude.{
  ◌≡◌, ◌≢◌, sym, ap, ◌∙◌, String, Option, none, some, true, false, str_eq,
}
use consul_release_controlle.Release.{Release}
use consul_release_controlle.Storage.{
  Codec, found, failed, release_not_found, base_path, release_path, release_config_path,
  state_config_path, Storage, read_release, decoded, upsert_release, get_release_at, get_release,
  delete_release, is_configured, read_state, upsert_state, get_state,
}
use consul_release_controlle.Storage.Kv.{
  ok, Api, IsKv, get_kv, value-set_kv, value-set_kv_ne, value-delete_kv, get_kv-eq-value,
}

-- Different names have different keys.
release_config_path-injective :
    (a b : String) → release_config_path a ≡ release_config_path b → a ≡ b
unfolding release_config_path release_path
release_config_path-injective a b h = append_cancel_left "/" a b (
    append_cancel_left base_path (append "/" a) (append "/" b)
      (append_cancel_right (release_path a) (release_path b) "/config" h))

-- The key of a longer name begins with the path of the shorter name.
release_config_path-append :
    (name rest : String)
    → release_config_path (append name rest) ≡ append (release_path name) (append rest "/config")
unfolding release_config_path release_path
release_config_path-append name rest =
    ap (λ p. append p "/config")
      (ap (append base_path) (sym (append_assoc "/" name rest))
        ∙ sym (append_assoc base_path (append "/" name) rest))
    ∙ append_assoc (append base_path (append "/" name)) rest "/config"

some-injective : {A : Type 0} {a b : A} → some a ≡ some b → a ≡ b
some-injective h = cc

module _ {W : Type 0} (api : Api W) (codec : Codec) (s : Storage) (kv : IsKv api s.options) where
  -- What `Get` found under the key of a release decides what a reader of the release sees.
  reads :
      (path : String) (w : W) (v : Option String)
      → (get_kv api s.options path w).0 ≡ ok v
      → (get_release_at api codec s path w).0 ≡ read_release api codec s (ok (kv.value w path))
  unfolding get_release_at
  reads path w v h = rw (h, get_kv-eq-value api s.options kv path w h)

  value-upsert_release :
      (r : Release) (d : String) (w : W)
      → codec.marshal r ≡ ok d
      → (upsert_release api codec s r w).0 ≡ none
      → kv.value (upsert_release api codec s r w).1 (release_config_path r.name) ≡ some d
  unfolding upsert_release
  value-upsert_release r d w m =
      rw (upsert_release, m) (value-set_kv api s.options kv (release_config_path r.name) d w)

  value-upsert_release_ne :
      (r : Release) (d name : String) (w : W)
      → codec.marshal r ≡ ok d
      → name ≢ r.name
      → (upsert_release api codec s r w).0 ≡ none
      → kv.value (upsert_release api codec s r w).1 (release_config_path name)
        ≡ kv.value w (release_config_path name)
  unfolding upsert_release
  value-upsert_release_ne r d name w m n =
      rw (upsert_release, m)
        (λ done.
          value-set_kv_ne api s.options kv (release_config_path r.name) d (release_config_path name)
            w done (λ q. n (release_config_path-injective name r.name q)))

  value-delete_release :
      (name rest : String) (w : W)
      → (delete_release api codec s name w).0 ≡ none
      → kv.value (delete_release api codec s name w).1 (release_config_path (append name rest))
        ≡ none
  unfolding delete_release
  value-delete_release name rest w done =
      rw (release_config_path-append name rest)
        (value-delete_kv api s.options kv (release_path name) (append rest "/config") w done)

  value-upsert_state :
      (d : String) (w : W)
      → is_configured api codec s ≡ true
      → (upsert_state api codec s d w).0 ≡ none
      → kv.value (upsert_state api codec s d w).1 (state_config_path s.release_name s.plugin_name)
        ≡ some d
  unfolding upsert_state
  value-upsert_state d w c =
      rw c (value-set_kv api s.options kv (state_config_path s.release_name s.plugin_name) d w)

  reads_back :
      (r : Release) (d : String)
      → codec.unmarshal d ≡ ok r
      → str_eq d "" ≡ false
      → read_release api codec s (ok (some d)) ≡ found r
  unfolding read_release decoded
  reads_back r d u n = rw (n, u)

  -- A release that was written without an error is the one read under its name, when its JSON decodes
  -- to it and is not empty and the reader's call to Consul succeeds.
  pub get_release-upsert_release :
      (r : Release) (d : String) (w : W) (v : Option String)
      → codec.marshal r ≡ ok d
      → codec.unmarshal d ≡ ok r
      → str_eq d "" ≡ false
      → (upsert_release api codec s r w).0 ≡ none
      → (get_kv api s.options (release_config_path r.name) (upsert_release api codec s r w).1).0
        ≡ ok v
      → (get_release api codec s r.name (upsert_release api codec s r w).1).0 ≡ found r
  unfolding get_release upsert_release
  get_release-upsert_release r d w v m u n done h =
      reads (release_config_path r.name) (upsert_release api codec s r w).1 v h
      ∙ rw (value-upsert_release r d w m done) (reads_back r d u n)

  -- Writing one release without an error keeps what is read under every other name, when the calls
  -- to Consul that read it before and after succeed.
  pub get_release-upsert_release_ne :
      (r : Release) (d name : String) (w : W) (v v' : Option String)
      → codec.marshal r ≡ ok d
      → name ≢ r.name
      → (upsert_release api codec s r w).0 ≡ none
      → (get_kv api s.options (release_config_path name) w).0 ≡ ok v
      → (get_kv api s.options (release_config_path name) (upsert_release api codec s r w).1).0
        ≡ ok v'
      → (get_release api codec s name (upsert_release api codec s r w).1).0
        ≡ (get_release api codec s name w).0
  unfolding get_release
  get_release-upsert_release_ne r d name w v v' m n done h h' =
      reads (release_config_path name) (upsert_release api codec s r w).1 v' h'
      ∙ ap (λ x. read_release api codec s (ok x)) (value-upsert_release_ne r d name w m n done)
      ∙ sym (reads (release_config_path name) w v h)

  -- A deletion of a release that succeeds removes every release whose name begins with the deleted
  -- name: none of them is found by a later read whose call to Consul succeeds.
  pub delete_release-prefix :
      (name rest : String) (w : W) (v : Option String)
      → (delete_release api codec s name w).0 ≡ none
      → (get_kv api s.options
          (release_config_path (append name rest))
          (delete_release api codec s name w).1).0
        ≡ ok v
      → (get_release api codec s (append name rest) (delete_release api codec s name w).1).0
        ≡ failed release_not_found
  unfolding get_release read_release
  delete_release-prefix name rest w v done h =
      reads (release_config_path (append name rest)) (delete_release api codec s name w).1 v h
      ∙ ap (λ x. read_release api codec s (ok x)) (value-delete_release name rest w done)

  -- A plugin's state that was written without an error and is not empty is the one the plugin reads
  -- back, when the call to Consul succeeds.
  pub get_state-upsert_state :
      (d : String) (w : W) (v : Option String)
      → is_configured api codec s ≡ true
      → str_eq d "" ≡ false
      → (upsert_state api codec s d w).0 ≡ none
      → (get_kv api s.options
          (state_config_path s.release_name s.plugin_name)
          (upsert_state api codec s d w).1).0
        ≡ ok v
      → (get_state api codec s (upsert_state api codec s d w).1).0 ≡ found d
  unfolding get_state read_state
  get_state-upsert_state d w v c n done h =
      let path = state_config_path s.release_name s.plugin_name in
      rw (
        c,
        h,
        get_kv-eq-value api s.options kv path (upsert_state api codec s d w).1 h,
        value-upsert_state d w c done,
        n,
      )
