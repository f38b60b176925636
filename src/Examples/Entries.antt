-- ===== src/Examples/Entries.antt =====
-- Config entries held in a function from names.
use consul_release_controlle.Prelude.{
  ◌≡◌, refl, String, Option, none, some, Bool, true, false, if◌then◌else◌, str_eq, eq_iff, [], ◌∷◌,
}
use consul_release_controlle.Storage.Kv.{ConsulOptions}
use consul_release_controlle.ConfigEntries.{
  EntryApi, IsEntries, existing, to_remove, is_created, get_meta, upstream_router_name,
}
use consul_release_controlle.ConfigEntries.Intentions.{
  ServiceIntentions, has_controller, create_service_intention, delete_service_intention,
}
use consul_release_controlle.ConfigEntries.Intentions.Restore.{delete-create_service_intention}
use consul_release_controlle.ConfigEntries.Upstreams.{
  ServiceRouter, create_upstream_router, delete_upstream_router, routes_without, upstream_route,
  host_namespace,
}
use consul_release_controlle.ConfigEntries.Upstreams.Restore.{
  has_route, leads_to, is_empty, delete-create_upstream_router,
}
use consul_release_controlle.ConfigEntries.Defaults.{ServiceDefaults, delete_service_defaults}
use consul_release_controlle.ConfigEntries.Defaults.Protocol.{delete_service_defaults-value}

-- One cell holds the entry of one name.
abbrev pub find : {E : Type 0} → (E → String) → Option E → String → Option E
find name_of none n = none
find name_of (some d) n = if str_eq (name_of d) n then some d else none

abbrev pub drop_named : {E : Type 0} → (E → String) → Option E → String → Option E
drop_named name_of none n = none
drop_named name_of (some d) n = if str_eq (name_of d) n then none else some d

abbrev cell : {E : Type 0} → (E → String) → EntryApi E (Option E)
cell name_of = record {
  get = λ o n w. ((find name_of w n, none), w);
  set = λ o d w. (none, some d);
  delete = λ o n w. (none, drop_named name_of w n);
  has_404 = λ e. true;
}

module _ {E : Type 0} (name_of : E → String) where
  pub find-named : (n : String) (w : Option E) {d : E} → find name_of w n ≡ some d → name_of d ≡ n
  find-named n none h = cc
  find-named n (some x) {d} h = by_name (str_eq (name_of x) n) refl h
    where
      by_name :
          (b : Bool)
          → str_eq (name_of x) n ≡ b
          → (if b then some x else none) ≡ some d
          → name_of d ≡ n
      by_name true e q = cc (q, (eq_iff (name_of x) n).0 e)
      by_name false e q = cc

  pub find-set : (d : E) → find name_of (some d) (name_of d) ≡ some d
  find-set d = rw ((eq_iff (name_of d) (name_of d)).1 refl) refl

  pub find-drop_named : (n : String) (w : Option E) → find name_of (drop_named name_of w n) n ≡ none
  find-drop_named n none = refl
  find-drop_named n (some d) = by_name (str_eq (name_of d) n) refl
    where
      by_name :
          (b : Bool) → str_eq (name_of d) n ≡ b → find name_of (if b then none else some d) n ≡ none
      by_name true e = refl
      by_name false e = rw e refl

  abbrev cell-IsEntries : (o : ConsulOptions) → IsEntries (cell name_of) o name_of
  cell-IsEntries o = record {
    value = λ w n. find name_of w n;
    named = find-named;
    get_reads = λ n w h. cc;
    get_fails = λ n w h. cc;
    get_missing = λ n w h m. cc;
    get_keeps = λ n j w. refl;
    set_sets = λ d w h. find-set d;
    delete_deletes = λ n w h. find-drop_named n w;
  }

abbrev pub options : ConsulOptions
options = record { namespace = ""; partition = "" }

-- Entries that somebody else made.
abbrev pub intentions : ServiceIntentions
intentions = record {
  name = "api";
  namespace = "";
  partition = "";
  meta = [];
  sources = record { name = "web"; action = "allow"; namespace = ""; partition = "" } ∷ [];
}

abbrev pub upstreams : ServiceRouter
upstreams = record {
  name = upstream_router_name;
  namespace = "";
  partition = "";
  meta = [];
  routes =
      record {
        header = "HOST";
        exact = "web.default";
        destination = some (record {
          service = "web";
          service_subset = "crc-web-candidate";
          num_retries = 5;
          retry_on_status_codes = 503 ∷ [];
        });
      }
      ∷ [];
}

abbrev defaults : ServiceDefaults
defaults = record { name = "api"; namespace = ""; partition = ""; meta = []; protocol = "tcp" }

delete-create_service_intention_example :
    find
      (λ d. d.name)
      (delete_service_intention
        (cell (λ d. d.name))
        options
        "api"
        (create_service_intention (cell (λ d. d.name)) options "api" (some intentions)).1).1
      "api"
    ≡ some intentions
unfolding create_service_intention delete_service_intention existing to_remove is_created get_meta
    has_controller
delete-create_service_intention_example =
    delete-create_service_intention (cell (λ d. d.name)) options
      (cell-IsEntries (λ d. d.name) options) "api" (some intentions) (refl, refl) refl refl

delete-create_upstream_router_example :
    find (λ d. d.name) (some upstreams) upstream_router_name ≡ some upstreams
unfolding create_upstream_router delete_upstream_router existing to_remove has_route is_empty
    routes_without upstream_route host_namespace leads_to
delete-create_upstream_router_example =
    delete-create_upstream_router (cell (λ d. d.name)) options
      (cell-IsEntries (λ d. d.name) options) "api" (some upstreams) (some upstreams) (refl, refl)
      refl refl

delete_service_defaults-value_example :
    find
      (λ d. d.name)
      (delete_service_defaults (cell (λ d. d.name)) options "api" (some defaults)).1
      "api"
    ≡ some defaults
unfolding delete_service_defaults to_remove is_created get_meta
delete_service_defaults-value_example =
    delete_service_defaults-value (cell (λ d. d.name)) options
      (cell-IsEntries (λ d. d.name) options) "api" (some defaults) refl
