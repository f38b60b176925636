-- ===== src/ConfigEntries.antt =====
-- The config entries of pkg/clients/consul.go: what the code does with `ConfigEntries()` of Consul's
-- API, which is not part of the repository. `EntryApi` is what is called for one kind of entry, and
-- `IsEntries` its documented behaviour.
pub mod Defaults
pub mod Intentions
pub mod Upstreams
pub mod Resolvers
pub mod Splitters
pub mod Routers
pub mod Keeping
pub mod Reading
use consul_release_controlle.Prelude.{
  ◌≡◌, String, Option, none, some, List, [], ◌∷◌, Bool, true, false, if◌then◌else◌, str_eq,
}
use consul_release_controlle.Storage.Kv.{Result, ok, err, ConsulOptions}

abbrev pub created_tag : String
created_tag = "external-source"

abbrev pub created_value : String
created_value = "consul-release-controller"

abbrev pub upstream_router_name : String
upstream_router_name = "consul-release-controller-upstreams"

abbrev pub controller_service_name : String
controller_service_name = "consul-release-controller"

-- `map[string]string`; a missing key reads as the empty text.
abbrev pub Meta : Type 0
Meta = List (String × String)

unfoldable pub get_meta : String → Meta → String
get_meta k [] = ""
get_meta k ((j, v) ∷ m) = if str_eq j k then v else get_meta k m

abbrev pub created_meta : Meta
created_meta = (created_tag, created_value) ∷ []

-- The entry was created by the release controller.
unfoldable pub is_created : Meta → Bool
unfolding get_meta
is_created m = str_eq (get_meta created_tag m) created_value

-- `Get`, `Set` and `Delete` for the entries of one kind, over a state `W`; the entry of `Get` may be
-- nil, and an error is its text. `has_404` is `strings.Contains(…, "404")`.
pub record EntryApi (E : Type 0) (W : Type 0) : Type 0 where
  pub get : ConsulOptions → String → W → (Option E × Option String) × W
  pub set : ConsulOptions → E → W → Option String × W
  pub delete : ConsulOptions → String → W → Option String × W
  pub has_404 : String → Bool

-- The entries by their names. `Get` reads; it gives no entry with an error, and a 404 only for a name
-- without an entry. A `Set` or a `Delete` without an error does what it says.
pub record IsEntries {E : Type 0} {W : Type 0} (api : EntryApi E W) (o : ConsulOptions)
    (name_of : E → String) : Type 0 where
  pub value : W → String → Option E
  pub named : (n : String) (w : W) {d : E} → value w n ≡ some d → name_of d ≡ n
  pub get_reads :
      (n : String) (w : W) {ce : Option E} → (api.get o n w).0 ≡ (ce, none) → ce ≡ value w n
  pub get_fails :
      (n : String) (w : W) {ce : Option E} {e : String}
      → (api.get o n w).0 ≡ (ce, some e)
      → ce ≡ none
  pub get_missing :
      (n : String) (w : W) {ce : Option E} {e : String}
      → (api.get o n w).0 ≡ (ce, some e)
      → api.has_404 e ≡ true
      → value w n ≡ none
  pub get_keeps : (n j : String) (w : W) → value (api.get o n w).1 j ≡ value w j
  pub set_sets :
      (d : E) (w : W) → (api.set o d w).0 ≡ none → value (api.set o d w).1 (name_of d) ≡ some d
  pub delete_deletes :
      (n : String) (w : W) → (api.delete o n w).0 ≡ none → value (api.delete o n w).1 n ≡ none

-- What a deletion finds: nothing to do, with the result, or an entry.
pub data Removable (E : Type 0) : Type 0 where
  nothing : Option String → Removable E
  entry : E → Removable E

module _ {E : Type 0} {W : Type 0} (api : EntryApi E W) where
  -- The test of a creation: an error that is not a 404 ends it.
  unfoldable pub existing : Option E × Option String → Result (Option E)
  existing (ce, none) = ok ce
  existing (ce, some e) = if api.has_404 e then ok ce else err e

  -- The two tests of a deletion.
  unfoldable pub to_remove : Option E × Option String → Removable E
  to_remove (some ce, some e) = nothing none
  to_remove (some ce, none) = entry ce
  to_remove (none, e) = nothing e
