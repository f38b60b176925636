-- ===== src/Releaser/Effects.antt =====
-- What Setup and Destroy do to each of the entries.
use mathlib.Core.Path.{subst}
use consul_release_controlle.Prelude.{◌≡◌, sym, ap, ◌∙◌, String, Option, none, some}
use consul_release_controlle.ConfigEntries.{
  IsEntries, controller_service_name, upstream_router_name,
}
use consul_release_controlle.ConfigEntries.Keeping.{Keeps}
use consul_release_controlle.ConfigEntries.Defaults.{create_service_defaults}
use consul_release_controlle.ConfigEntries.Defaults.Frame.{
  create_service_defaults-keeps, delete_service_defaults-keeps,
}
use consul_release_controlle.ConfigEntries.Intentions as I
use consul_release_controlle.ConfigEntries.Intentions.Frame.{
  create_service_intention-keeps, delete_service_intention-keeps,
}
use consul_release_controlle.ConfigEntries.Intentions.Restore as IR
use consul_release_controlle.ConfigEntries.Upstreams as U
use consul_release_controlle.ConfigEntries.Upstreams.Frame.{
  create_upstream_router-keeps, delete_upstream_router-keeps,
}
use consul_release_controlle.ConfigEntries.Upstreams.Restore as UR
use consul_release_controlle.ConfigEntries.Resolvers as R
use consul_release_controlle.ConfigEntries.Resolvers.Frame.{
  create_service_resolver-keeps, delete_service_resolver-keeps,
}
use consul_release_controlle.ConfigEntries.Resolvers.Restore as RR
use consul_release_controlle.ConfigEntries.Splitters.{delete_service_splitter}
use consul_release_controlle.Releaser.{Consul, PluginConfig, Action, safe, and_then, setup, destroy}
use consul_release_controlle.Releaser.Steps.{Takes, safe-Takes, keeps-Takes, and_then-Takes}

-- A view of the state that neither a delay nor the service defaults and splitters have a part in.
pub record Outlasts {W V : Type 0} (c : Consul W) (p : PluginConfig) (view : W → V) : Type 0 where
  pub delays : (w : W) → view (c.sleep w) ≡ view w
  pub defaults : Keeps c.defaults p.options view
  pub splitters : Keeps c.splitters p.options view

-- Consul keeps the entries of the kinds apart, and nobody else changes those of the service during a
-- call or a delay.
pub record IsConsul {W : Type 0} (c : Consul W) (p : PluginConfig) : Type 0 where
  pub resolvers : IsEntries c.resolvers p.options (λ d. d.name)
  pub routers : IsEntries c.routers p.options (λ d. d.name)
  pub intentions : IsEntries c.intentions p.options (λ d. d.name)
  pub resolver_outlasts : Outlasts c p (λ w. resolvers.value w p.consul_service)
  pub resolver_routers : Keeps c.routers p.options (λ w. resolvers.value w p.consul_service)
  pub resolver_intentions : Keeps c.intentions p.options (λ w. resolvers.value w p.consul_service)
  pub router_outlasts : Outlasts c p (λ w. routers.value w upstream_router_name)
  pub router_resolvers : Keeps c.resolvers p.options (λ w. routers.value w upstream_router_name)
  pub router_intentions : Keeps c.intentions p.options (λ w. routers.value w upstream_router_name)
  pub intentions_outlast : Outlasts c p (λ w. intentions.value w p.consul_service)
  pub intentions_resolvers : Keeps c.resolvers p.options (λ w. intentions.value w p.consul_service)
  pub intentions_routers : Keeps c.routers p.options (λ w. intentions.value w p.consul_service)

module _ {W V : Type 0} (c : Consul W) (p : PluginConfig) (view : W → V)
    (keep : Outlasts c p view) where
  after :
      (a b d : V) (f rest : Action W)
      → Takes view a b f
      → Takes view b d rest
      → Takes view a d (and_then c.sleep f rest)
  after = and_then-Takes view c.sleep keep.delays

  defaults-Takes :
      (v : V) (n : String) → Takes view v v (safe (create_service_defaults c.defaults p.options n))
  defaults-Takes v n =
      keeps-Takes view v _ (create_service_defaults-keeps c.defaults p.options view keep.defaults n)

  setup-Takes :
      (primary candidate : String) (v0 v1 v2 v3 : V)
      → Takes view v0 v1
          (R.create_service_resolver c.resolvers p.options p.consul_service primary candidate)
      → Takes view v1 v2 (safe (U.create_upstream_router c.routers p.options p.consul_service))
      → Takes view v2 v3 (safe (I.create_service_intention c.intentions p.options p.consul_service))
      → Takes view v0 v3 (setup c p primary candidate)
  unfolding setup
  setup-Takes primary candidate v0 v1 v2 v3 resolver router intention =
      after v0 v0 v3 _ _ (defaults-Takes v0 p.consul_service) (
        after v0 v0 v3 _ _ (defaults-Takes v0 controller_service_name) (
          after v0 v0 v3 _ _ (defaults-Takes v0 upstream_router_name)
            (after v0 v1 v3 _ _ resolver (after v1 v2 v3 _ _ router intention))))

  destroy-Takes :
      (v0 v1 v2 v3 : V)
      → Takes view v0 v1 (U.delete_upstream_router c.routers p.options p.consul_service)
      → Takes view v1 v2 (safe (R.delete_service_resolver c.resolvers p.options p.consul_service))
      → Takes view v2 v3 (safe (I.delete_service_intention c.intentions p.options p.consul_service))
      → Takes view v0 v3 (destroy c p)
  unfolding destroy delete_service_splitter
  destroy-Takes v0 v1 v2 v3 router resolver intention =
      after v0 v0 v3 _ _ (keeps-Takes view v0 _ (keep.splitters.deletes p.consul_service)) (
        after v0 v1 v3 _ _ router (
          after v1 v2 v3 _ _ resolver (
            after v2 v3 v3 _ _ intention (
              keeps-Takes view v3 _ (
                delete_service_defaults-keeps c.defaults p.options view keep.defaults
                  p.consul_service)))))

module _ {W : Type 0} (c : Consul W) (p : PluginConfig) (laws : IsConsul c p) where
  abbrev pub resolver : W → Option R.ServiceResolver
  resolver w = laws.resolvers.value w p.consul_service

  abbrev pub router : W → Option U.ServiceRouter
  router w = laws.routers.value w upstream_router_name

  abbrev pub intentions : W → Option I.ServiceIntentions
  intentions w = laws.intentions.value w p.consul_service

  pub resolver-setup :
      (primary candidate : String) (a : Option R.ServiceResolver)
      → Takes resolver a
          (RR.added p.options p.consul_service primary candidate a)
          (setup c p primary candidate)
  resolver-setup primary candidate a =
      let b = RR.added p.options p.consul_service primary candidate a in
      setup-Takes c p resolver laws.resolver_outlasts primary candidate a b b b
        (λ w w1 at q.
          RR.create_service_resolver-value c.resolvers p.options laws.resolvers p.consul_service
            primary candidate w w1 q
          ∙ ap (RR.added p.options p.consul_service primary candidate) at)
        (keeps-Takes resolver b _ (
          create_upstream_router-keeps c.routers p.options resolver laws.resolver_routers
            p.consul_service))
        (keeps-Takes resolver b _ (
          create_service_intention-keeps c.intentions p.options resolver laws.resolver_intentions
            p.consul_service))

  pub resolver-destroy :
      (a : Option R.ServiceResolver)
      → Takes resolver a (RR.removed p.consul_service a) (destroy c p)
  resolver-destroy a =
      let b = RR.removed p.consul_service a in
      destroy-Takes c p resolver laws.resolver_outlasts a a b b
        (λ w w1 at q.
          delete_upstream_router-keeps c.routers p.options resolver laws.resolver_routers
            p.consul_service w w1 none q
          ∙ at)
        (safe-Takes resolver a b _ (λ w at done.
          RR.delete_service_resolver-value c.resolvers p.options laws.resolvers p.consul_service ""
            "" w done
          ∙ ap (RR.removed p.consul_service) at))
        (keeps-Takes resolver b _ (
          delete_service_intention-keeps c.intentions p.options resolver laws.resolver_intentions
            p.consul_service))

  pub router-setup :
      (primary candidate : String) (a : Option U.ServiceRouter)
      → Takes router a (some (UR.added p.options p.consul_service a)) (setup c p primary candidate)
  router-setup primary candidate a =
      let b = some (UR.added p.options p.consul_service a) in
      setup-Takes c p router laws.router_outlasts primary candidate a a b b
        (λ w w1 at q.
          create_service_resolver-keeps c.resolvers p.options router laws.router_resolvers
            p.consul_service primary candidate w w1 none q
          ∙ at)
        (safe-Takes router a b _ (λ w at done.
          UR.create_upstream_router-value c.routers p.options laws.routers p.consul_service w done
          ∙ ap (λ v. some (UR.added p.options p.consul_service v)) at))
        (keeps-Takes router b _ (
          create_service_intention-keeps c.intentions p.options router laws.router_intentions
            p.consul_service))

  pub router-destroy :
      (a : Option U.ServiceRouter) → Takes router a (UR.removed p.consul_service a) (destroy c p)
  router-destroy a =
      let b = UR.removed p.consul_service a in
      destroy-Takes c p router laws.router_outlasts a b b b
        (λ w w1 at q.
          UR.delete_upstream_router-value c.routers p.options laws.routers p.consul_service w w1 q
          ∙ ap (UR.removed p.consul_service) at)
        (keeps-Takes router b _ (
          delete_service_resolver-keeps c.resolvers p.options router laws.router_resolvers
            p.consul_service "" ""))
        (keeps-Takes router b _ (
          delete_service_intention-keeps c.intentions p.options router laws.router_intentions
            p.consul_service))

  pub intentions-setup :
      (primary candidate : String) (a : Option I.ServiceIntentions)
      → IR.IsForeign a
      → Takes intentions a
          (some (IR.added p.options p.consul_service a))
          (setup c p primary candidate)
  intentions-setup primary candidate a foreign =
      let b = some (IR.added p.options p.consul_service a) in
      setup-Takes c p intentions laws.intentions_outlast primary candidate a a a b
        (λ w w1 at q.
          create_service_resolver-keeps c.resolvers p.options intentions laws.intentions_resolvers
            p.consul_service primary candidate w w1 none q
          ∙ at)
        (keeps-Takes intentions a _ (
          create_upstream_router-keeps c.routers p.options intentions laws.intentions_routers
            p.consul_service))
        (safe-Takes intentions a b _ (λ w at done.
          IR.create_service_intention-value c.intentions p.options laws.intentions p.consul_service
            w (subst IR.IsForeign (sym at) foreign) done
          ∙ ap (λ v. some (IR.added p.options p.consul_service v)) at))

  pub intentions-destroy :
      (a : Option I.ServiceIntentions) → Takes intentions a (IR.removed a) (destroy c p)
  intentions-destroy a =
      let b = IR.removed a in
      destroy-Takes c p intentions laws.intentions_outlast a a a b
        (λ w w1 at q.
          delete_upstream_router-keeps c.routers p.options intentions laws.intentions_routers
            p.consul_service w w1 none q
          ∙ at)
        (keeps-Takes intentions a _ (
          delete_service_resolver-keeps c.resolvers p.options intentions laws.intentions_resolvers
            p.consul_service "" ""))
        (safe-Takes intentions a b _ (λ w at done.
          IR.delete_service_intention-value c.intentions p.options laws.intentions p.consul_service
            w done
          ∙ ap IR.removed at))
