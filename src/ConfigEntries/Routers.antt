-- ===== src/ConfigEntries/Routers.antt =====
-- CreateServiceRouter and DeleteServiceRouter of pkg/clients/consul.go: a router of one service, with
-- a route to each of its subsets.
use consul_release_controlle.Prelude.{
  String, Option, none, some, List, Bool, true, false, ◌&&◌, [], ◌∷◌, ◌++◌, if◌then◌else◌,
}
use consul_release_controlle.Storage.Kv.{Result, ok, err, ConsulOptions}
use consul_release_controlle.ConfigEntries.{
  created_meta, is_created, EntryApi, Removable, nothing, entry, existing, to_remove,
}
use consul_release_controlle.ConfigEntries.Upstreams.{Route, ServiceRouter}
use consul_release_controlle.ConfigEntries.Resolvers.{primary_subset, candidate_subset}

-- The route for requests with a header that is "true".
unfoldable pub subset_route : String → String → String → Route
subset_route header name subset = record {
  header = header;
  exact = "true";
  destination = some (record {
    service = name;
    service_subset = subset;
    num_retries = 5;
    retry_on_status_codes = 503 ∷ [];
  });
}

unfoldable pub add_subset_routes : String → ServiceRouter → ServiceRouter
add_subset_routes name d = record d {
  routes =
      d.routes
      ++ subset_route "x-primary" name (primary_subset name)
        ∷ subset_route "x-candidate" name (candidate_subset name)
        ∷ [];
}

unfoldable pub new_service_router : ConsulOptions → String → ServiceRouter
new_service_router o name = record {
  name = name;
  namespace = o.namespace;
  partition = o.partition;
  meta = created_meta;
  routes = [];
}

has_destination : Route → Bool
has_destination r = elim r.destination [ none ↦ false | some d ↦ true ]

unfoldable pub all_lead_somewhere : List Route → Bool
unfolding has_destination
all_lead_somewhere [] = true
all_lead_somewhere (r ∷ rs) = has_destination r && all_lead_somewhere rs

module _ {W : Type 0} (api : EntryApi ServiceRouter W) (o : ConsulOptions) where
  unfoldable pub create_router_with : String → Result (Option ServiceRouter) → W → Option String × W
  create_router_with name (err e) w = (some e, w)
  create_router_with name (ok none) w =
      api.set o (add_subset_routes name (new_service_router o name)) w
  create_router_with name (ok (some d)) w = api.set o (add_subset_routes name d) w

  unfoldable pub create_service_router : String → W → Option String × W
  create_service_router name w =
      let (found, w') = api.get o name w in create_router_with name (existing api found) w'

  -- The list of the routes that the loop keeps is not put into the entry, but it reads the destination
  -- of every route: no result is a panic.
  unfoldable pub remove_router_from :
      String → Removable ServiceRouter → W → Option (Option String × W)
  remove_router_from name (nothing e) w = some (e, w)
  remove_router_from name (entry d) w =
      if is_created d.meta
      then some (api.delete o name w)
      else if all_lead_somewhere d.routes
      then some (api.set o d w)
      else none

  unfoldable pub delete_service_router : String → W → Option (Option String × W)
  delete_service_router name w =
      let (found, w') = api.get o name w in remove_router_from name (to_remove api found) w'
