-- ===== src/Storage/Kv.antt =====
-- The key/value part of pkg/clients/consul.go. Consul's API is not part of the repository: `Api` is
-- what the code calls of it, and `IsKv` is its documented behaviour.
use Prim.Native.String.{◌++◌ as append}
use consul_release_controlle.Prelude.{◌≡◌, ◌≢◌, refl, String, Option, none, some, List}

pub data Result (A : Type 0) : Type 0 where
  ok : A → Result A
  err : String → Result A

-- ConsulOptions
pub record ConsulOptions : Type 0 where
  pub namespace : String
  pub partition : String

-- `KV().Put`, `Get`, `DeleteTree` and `Keys` of the API, over a state `W`. An error is its text.
pub record Api (W : Type 0) : Type 0 where
  pub put : ConsulOptions → String → String → W → Option String × W
  pub get : ConsulOptions → String → W → Result (Option String) × W
  pub delete_tree : ConsulOptions → String → W → Option String × W
  pub keys : ConsulOptions → String → W → Result (List String) × W

-- The values under the keys of the namespace and partition of the options. `Get` reads; a `Put`
-- without an error sets its key and no other; a `DeleteTree` without an error removes the keys that
-- begin with the given text and no other.
pub record IsKv {W : Type 0} (api : Api W) (o : ConsulOptions) : Type 0 where
  pub value : W → String → Option String
  pub get_reads :
      (k : String) (w : W) {v : Option String} → (api.get o k w).0 ≡ ok v → v ≡ value w k
  pub get_keeps : (k j : String) (w : W) → value (api.get o k w).1 j ≡ value w j
  pub put_sets :
      (k v : String) (w : W) → (api.put o k v w).0 ≡ none → value (api.put o k v w).1 k ≡ some v
  pub put_keeps :
      (k v j : String) (w : W)
      → (api.put o k v w).0 ≡ none
      → j ≢ k
      → value (api.put o k v w).1 j ≡ value w j
  pub delete_removes :
      (k rest : String) (w : W)
      → (api.delete_tree o k w).0 ≡ none
      → value (api.delete_tree o k w).1 (append k rest) ≡ none
  pub delete_keeps :
      (k j : String) (w : W)
      → (api.delete_tree o k w).0 ≡ none
      → ((rest : String) → j ≢ append k rest)
      → value (api.delete_tree o k w).1 j ≡ value w j

module _ {W : Type 0} (api : Api W) (o : ConsulOptions) where
  written : Option String × W → Option String × W
  written (none, w) = (none, w)
  written (some e, w) = (some (append "unable to write data to Consul KV: " e), w)

  unfoldable pub set_kv : String → String → W → Option String × W
  unfolding written
  set_kv path v w = written (api.put o path v w)

  fetched : Result (Option String) × W → String → Result (Option String) × W
  fetched (ok v, w) path = (ok v, w)
  fetched (err e, w) path =
      (err (append (append "unable to fetch key from path " path) (append " in Consul KV: " e)), w)

  -- A key that does not exist is `none`, without an error.
  unfoldable pub get_kv : String → W → Result (Option String) × W
  unfolding fetched
  get_kv path w = fetched (api.get o path w) path

  deleted : Option String × W → String → Option String × W
  deleted (none, w) path = (none, w)
  deleted (some e, w) path = (
    some (append (append "unable to delete key from path " path) (append " in Consul KV: " e)),
    w,
  )

  unfoldable pub delete_kv : String → W → Option String × W
  unfolding deleted
  delete_kv path w = deleted (api.delete_tree o path w) path

  unfoldable pub list_kv : String → W → Result (List String) × W
  list_kv path w = api.keys o path w

  module _ (kv : IsKv api o) where
    written-none :
        (r : Option String × W) → (written r).0 ≡ none → (r.0 ≡ none) × ((written r).1 ≡ r.1)
    unfolding written
    written-none (none, w) h = (refl, refl)
    written-none (some e, w) h = cc

    pub value-set_kv :
        (path v : String) (w : W)
        → (set_kv path v w).0 ≡ none
        → kv.value (set_kv path v w).1 path ≡ some v
    unfolding set_kv
    value-set_kv path v w h =
        let (done, same) = written-none (api.put o path v w) h in
        rw same (kv.put_sets path v w done)

    pub value-set_kv_ne :
        (path v j : String) (w : W)
        → (set_kv path v w).0 ≡ none
        → j ≢ path
        → kv.value (set_kv path v w).1 j ≡ kv.value w j
    unfolding set_kv
    value-set_kv_ne path v j w h n =
        let (done, same) = written-none (api.put o path v w) h in
        rw same (kv.put_keeps path v j w done n)

    deleted-none :
        (r : Option String × W) (path : String)
        → (deleted r path).0 ≡ none
        → (r.0 ≡ none) × ((deleted r path).1 ≡ r.1)
    unfolding deleted
    deleted-none (none, w) path h = (refl, refl)
    deleted-none (some e, w) path h = cc

    pub value-delete_kv :
        (path rest : String) (w : W)
        → (delete_kv path w).0 ≡ none
        → kv.value (delete_kv path w).1 (append path rest) ≡ none
    unfolding delete_kv
    value-delete_kv path rest w h =
        let (done, same) = deleted-none (api.delete_tree o path w) path h in
        rw same (kv.delete_removes path rest w done)

    pub value-delete_kv_ne :
        (path j : String) (w : W)
        → (delete_kv path w).0 ≡ none
        → ((rest : String) → j ≢ append path rest)
        → kv.value (delete_kv path w).1 j ≡ kv.value w j
    unfolding delete_kv
    value-delete_kv_ne path j w h n =
        let (done, same) = deleted-none (api.delete_tree o path w) path h in
        rw same (kv.delete_keeps path j w done n)

    fetched_ok :
        (r : Result (Option String) × W) (path : String) {v : Option String}
        → (fetched r path).0 ≡ ok v
        → r.0 ≡ ok v
    unfolding fetched
    fetched_ok (ok v, w) path h = h
    fetched_ok (err e, w) path h = cc

    pub get_kv-eq-value :
        (path : String) (w : W) {v : Option String} → (get_kv path w).0 ≡ ok v → v ≡ kv.value w path
    unfolding get_kv
    get_kv-eq-value path w h = kv.get_reads path w (fetched_ok (api.get o path w) path h)
