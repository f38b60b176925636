-- ===== src/Examples/Releasers.antt =====
-- A Consul with one entry of each kind, and the releaser that uses it.
use mathlib.Core.Path.{subst}
use consul_release_controlle.Prelude.{
  ◌≡◌, refl, sym, String, Option, none, some, List, [], ◌∷◌, Bool, false, true,
}
use consul_release_controlle.ConfigEntries.{EntryApi, IsEntries}
use consul_release_controlle.ConfigEntries.Intentions.{ServiceIntentions}
use consul_release_controlle.ConfigEntries.Upstreams.{ServiceRouter}
use consul_release_controlle.ConfigEntries.Defaults.{ServiceDefaults}
use consul_release_controlle.ConfigEntries.Resolvers.{ServiceResolver}
use consul_release_controlle.ConfigEntries.Splitters.{ServiceSplitter}
use consul_release_controlle.Releaser.{Consul, PluginConfig, setup, destroy}
use consul_release_controlle.Releaser.Effects.{IsConsul}
use consul_release_controlle.Releaser.Restore.{Agrees, destroy-setup}
use consul_release_controlle.Releaser.Health.{
  ServiceEntry, HealthApi, WasHealthy, first_failing, check_entries, check_connect, check_health,
  wait_until_service_healthy, wait_until_service_healthy-WasHealthy,
}
use consul_release_controlle.Storage.Kv.{ok}
use consul_release_controlle.Examples.Entries.{
  find, drop_named, find-named, find-set, find-drop_named, options, intentions, upstreams,
}

record World : Type 0 where
  defaults : Option ServiceDefaults
  resolver : Option ServiceResolver
  router : Option ServiceRouter
  intention : Option ServiceIntentions
  splitter : Option ServiceSplitter

-- The entries of one kind are a part of the world.
abbrev part :
    {E : Type 0} → (E → String) → (World → Option E) → (Option E → World → World) → EntryApi E World
part name_of get put = record {
  get = λ o n w. ((find name_of (get w) n, none), w);
  set = λ o d w. (none, put (some d) w);
  delete = λ o n w. (none, put (drop_named name_of (get w) n) w);
  has_404 = λ e. true;
}

abbrev part-IsEntries :
    {E : Type 0} (name_of : E → String) (get : World → Option E) (put : Option E → World → World)
    → ((x : Option E) (w : World) → get (put x w) ≡ x)
    → IsEntries (part name_of get put) options name_of
part-IsEntries name_of get put same = record {
  value = λ w n. find name_of (get w) n;
  named = λ n w {d} h. find-named name_of n (get w) h;
  get_reads = λ n w h. cc;
  get_fails = λ n w h. cc;
  get_missing = λ n w h m. cc;
  get_keeps = λ n j w. refl;
  set_sets = λ d w h.
      subst (λ x. find name_of x (name_of d) ≡ some d) (sym (same (some d) w)) (find-set name_of d);
  delete_deletes = λ n w h.
      subst (λ x. find name_of x n ≡ none) (sym (same (drop_named name_of (get w) n) w))
        (find-drop_named name_of n (get w));
}

abbrev consul : Consul World
consul = record {
  defaults = part (λ d. d.name) (λ w. w.defaults) (λ x w. record w { defaults = x });
  resolvers = part (λ d. d.name) (λ w. w.resolver) (λ x w. record w { resolver = x });
  routers = part (λ d. d.name) (λ w. w.router) (λ x w. record w { router = x });
  intentions = part (λ d. d.name) (λ w. w.intention) (λ x w. record w { intention = x });
  splitters = part (λ d. d.name) (λ w. w.splitter) (λ x w. record w { splitter = x });
  sleep = λ w. w;
}

abbrev config : PluginConfig
config = record { consul_service = "api"; options = options }

abbrev consul-IsConsul : IsConsul consul config
consul-IsConsul = record {
  resolvers =
      part-IsEntries (λ d. d.name) (λ w. w.resolver) (λ x w. record w { resolver = x })
        (λ x w. refl);
  routers =
      part-IsEntries (λ d. d.name) (λ w. w.router) (λ x w. record w { router = x }) (λ x w. refl);
  intentions =
      part-IsEntries (λ d. d.name) (λ w. w.intention) (λ x w. record w { intention = x })
        (λ x w. refl);
  resolver_outlasts = record {
    delays = λ w. refl;
    defaults = record { gets = λ n w. refl; sets = λ d w. refl; deletes = λ n w. refl };
    splitters = record { gets = λ n w. refl; sets = λ d w. refl; deletes = λ n w. refl };
  };
  resolver_routers = record { gets = λ n w. refl; sets = λ d w. refl; deletes = λ n w. refl };
  resolver_intentions = record { gets = λ n w. refl; sets = λ d w. refl; deletes = λ n w. refl };
  router_outlasts = record {
    delays = λ w. refl;
    defaults = record { gets = λ n w. refl; sets = λ d w. refl; deletes = λ n w. refl };
    splitters = record { gets = λ n w. refl; sets = λ d w. refl; deletes = λ n w. refl };
  };
  router_resolvers = record { gets = λ n w. refl; sets = λ d w. refl; deletes = λ n w. refl };
  router_intentions = record { gets = λ n w. refl; sets = λ d w. refl; deletes = λ n w. refl };
  intentions_outlast = record {
    delays = λ w. refl;
    defaults = record { gets = λ n w. refl; sets = λ d w. refl; deletes = λ n w. refl };
    splitters = record { gets = λ n w. refl; sets = λ d w. refl; deletes = λ n w. refl };
  };
  intentions_resolvers = record { gets = λ n w. refl; sets = λ d w. refl; deletes = λ n w. refl };
  intentions_routers = record { gets = λ n w. refl; sets = λ d w. refl; deletes = λ n w. refl };
}

-- A router and intentions that somebody else made, and nothing else.
abbrev before : World
before = record {
  defaults = none;
  resolver = none;
  router = some upstreams;
  intention = some intentions;
  splitter = none;
}

abbrev world_of : Option (Option String × World) → World
world_of none = before
world_of (some (e, w)) = w

abbrev running : World
running = world_of (setup consul config "v1" "v2" before)

abbrev removed : World
removed = world_of (destroy consul config running)

destroy-setup_example : Agrees consul config consul-IsConsul removed before
unfolding setup destroy consul_release_controlle.Releaser.and_then
    consul_release_controlle.Releaser.went_on consul_release_controlle.ConfigEntries.existing
    consul_release_controlle.ConfigEntries.to_remove
    consul_release_controlle.ConfigEntries.is_created
    consul_release_controlle.ConfigEntries.get_meta
    consul_release_controlle.ConfigEntries.Defaults.create_service_defaults
    consul_release_controlle.ConfigEntries.Defaults.delete_service_defaults
    consul_release_controlle.ConfigEntries.Intentions.create_service_intention
    consul_release_controlle.ConfigEntries.Intentions.delete_service_intention
    consul_release_controlle.ConfigEntries.Intentions.has_controller
    consul_release_controlle.ConfigEntries.Intentions.controller_source
    consul_release_controlle.ConfigEntries.Intentions.without_controller
    consul_release_controlle.ConfigEntries.Upstreams.create_upstream_router
    consul_release_controlle.ConfigEntries.Upstreams.delete_upstream_router
    consul_release_controlle.ConfigEntries.Upstreams.routes_without
    consul_release_controlle.ConfigEntries.Upstreams.upstream_route
    consul_release_controlle.ConfigEntries.Upstreams.host_namespace
    consul_release_controlle.ConfigEntries.Upstreams.Restore.has_route
    consul_release_controlle.ConfigEntries.Upstreams.Restore.leads_to
    consul_release_controlle.ConfigEntries.Upstreams.Restore.is_empty
    consul_release_controlle.ConfigEntries.Resolvers.create_service_resolver
    consul_release_controlle.ConfigEntries.Resolvers.delete_service_resolver
    consul_release_controlle.ConfigEntries.Resolvers.new_resolver
    consul_release_controlle.ConfigEntries.Resolvers.with_subsets
    consul_release_controlle.ConfigEntries.Resolvers.without_subsets
    consul_release_controlle.ConfigEntries.Resolvers.drop_subsets
    consul_release_controlle.ConfigEntries.Resolvers.primary_subset
    consul_release_controlle.ConfigEntries.Resolvers.candidate_subset
    consul_release_controlle.ConfigEntries.Splitters.delete_service_splitter
destroy-setup_example =
    destroy-setup consul config consul-IsConsul "v1" "v2" before running running removed
      record {
        foreign_resolver = tt;
        without_route = (refl, refl);
        foreign_intentions = (refl, refl);
      }
      refl record { same_resolver = refl; same_router = refl; same_intentions = refl } refl

abbrev entries : List ServiceEntry
entries = record { id = "api-1"; aggregated_status = "passing" } ∷ []

-- The service has no instance until a retry.
abbrev listed : Bool → List ServiceEntry
listed true = entries
listed false = []

abbrev health : HealthApi Bool
health = record {
  service = λ o n f w. (ok (listed w), w);
  connect = λ o n f w. (ok entries, w);
  sleep = λ w. true;
}

wait_until_service_healthy-WasHealthy_example : WasHealthy health options 1 "api" "v2" false
unfolding wait_until_service_healthy check_health check_entries first_failing check_connect
    consul_release_controlle.Releaser.Health.retried
    consul_release_controlle.Releaser.Health.timed_out
wait_until_service_healthy-WasHealthy_example =
    wait_until_service_healthy-WasHealthy health options 1 "api" "v2" false refl
