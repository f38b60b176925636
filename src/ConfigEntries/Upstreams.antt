-- ===== src/ConfigEntries/Upstreams.antt =====
-- CreateUpstreamRouter and DeleteUpstreamRouter of pkg/clients/consul.go: one router for all
-- services, with a route for each of them.
pub mod Restore
pub mod Frame
use Prim.Native.String.{◌++◌ as append}
use consul_release_controlle.Prelude.{
  ℕ, String, Option, none, some, List, [], ◌∷◌, ◌++◌, if◌then◌else◌, str_eq,
}
use consul_release_controlle.Storage.Kv.{Result, ok, err, ConsulOptions}
use consul_release_controlle.ConfigEntries.{
  upstream_router_name, Meta, created_meta, EntryApi, Removable, nothing, entry, existing,
  to_remove,
}

-- api.ServiceRouteDestination
pub record Destination : Type 0 where
  pub service : String
  pub service_subset : String
  pub num_retries : ℕ
  pub retry_on_status_codes : List ℕ

-- api.ServiceRoute: the header that it matches, and its destination, which may be nil.
pub record Route : Type 0 where
  pub header : String
  pub exact : String
  pub destination : Option Destination

-- api.ServiceRouterConfigEntry
pub record ServiceRouter : Type 0 where
  pub name : String
  pub namespace : String
  pub partition : String
  pub meta : Meta
  pub routes : List Route

unfoldable pub host_namespace : ConsulOptions → String
host_namespace o = if str_eq o.namespace "" then "default" else o.namespace

unfoldable pub upstream_route : ConsulOptions → String → Route
unfolding host_namespace
upstream_route o name = record {
  header = "HOST";
  exact = append name (append "." (host_namespace o));
  destination = some (record {
    service = name;
    service_subset = append "crc-" (append name "-candidate");
    num_retries = 5;
    retry_on_status_codes = 503 ∷ [];
  });
}

abbrev pub new_router : ConsulOptions → ServiceRouter
new_router o = record {
  name = upstream_router_name;
  namespace = o.namespace;
  partition = o.partition;
  meta = created_meta;
  routes = [];
}

abbrev pub add_route : ConsulOptions → String → ServiceRouter → ServiceRouter
add_route o name d = record d { routes = d.routes ++ upstream_route o name ∷ [] }

unfoldable pub keep_unless :
    String → Route → Option Destination → Option (List Route) → Option (List Route)
keep_unless name r none rest = none
keep_unless name r (some d) none = none
keep_unless name r (some d) (some rs) = some (if str_eq d.service name then rs else r ∷ rs)

-- The loop of `DeleteUpstreamRouter`: `none` is a panic, at a route without a destination.
unfoldable pub routes_without : String → List Route → Option (List Route)
unfolding keep_unless
routes_without name [] = some []
routes_without name (r ∷ rs) = keep_unless name r r.destination (routes_without name rs)

module _ {W : Type 0} (api : EntryApi ServiceRouter W) (o : ConsulOptions) where
  create_with : String → Result (Option ServiceRouter) → W → Option String × W
  create_with name (err e) w = (some e, w)
  create_with name (ok none) w = api.set o (add_route o name (new_router o)) w
  create_with name (ok (some d)) w = api.set o (add_route o name d) w

  unfoldable pub create_upstream_router : String → W → Option String × W
  unfolding create_with
  create_upstream_router name w =
      let (found, w') = api.get o upstream_router_name w in create_with name (existing api found) w'

  keep_routes : ServiceRouter → List Route → W → Option String × W
  keep_routes d [] w = api.delete o upstream_router_name w
  keep_routes d (r ∷ rs) w = api.set o (record d { routes = r ∷ rs }) w

  keep_found : ServiceRouter → Option (List Route) → W → Option (Option String × W)
  unfolding keep_routes
  keep_found d none w = none
  keep_found d (some rs) w = some (keep_routes d rs w)

  remove_from : String → Removable ServiceRouter → W → Option (Option String × W)
  unfolding keep_found
  remove_from name (nothing e) w = some (e, w)
  remove_from name (entry d) w = keep_found d (routes_without name d.routes) w

  -- No result is a panic.
  unfoldable pub delete_upstream_router : String → W → Option (Option String × W)
  unfolding remove_from
  delete_upstream_router name w =
      let (found, w') = api.get o upstream_router_name w in
      remove_from name (to_remove api found) w'
