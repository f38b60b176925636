-- ===== src/Releaser/Restore.antt =====
-- Destroy undoes what Setup has written.
use consul_release_controlle.Prelude.{◌≡◌, refl, sym, ◌∙◌, String, none, some}
use consul_release_controlle.ConfigEntries.Intentions.Restore as IR
use consul_release_controlle.ConfigEntries.Upstreams.Restore as UR
use consul_release_controlle.ConfigEntries.Resolvers.Restore as RR
use consul_release_controlle.Releaser.{Consul, PluginConfig, setup, destroy}
use consul_release_controlle.Releaser.Effects.{
  IsConsul, resolver, router, intentions, resolver-setup, resolver-destroy, router-setup,
  router-destroy, intentions-setup, intentions-destroy,
}

module _ {W : Type 0} (c : Consul W) (p : PluginConfig) (laws : IsConsul c p) where
  -- The entries of the service, and the router that all services share, are the same in two states.
  pub record Agrees (w w' : W) : Type 0 where
    pub same_resolver : resolver c p laws w ≡ resolver c p laws w'
    pub same_router : router c p laws w ≡ router c p laws w'
    pub same_intentions : intentions c p laws w ≡ intentions c p laws w'

  -- What was there before is not the controller's.
  pub record IsUntouched (w : W) : Type 0 where
    pub foreign_resolver : RR.IsForeign p.consul_service (resolver c p laws w)
    pub without_route : UR.IsWithout p.consul_service (router c p laws w)
    pub foreign_intentions : IR.IsForeign (intentions c p laws w)

  -- Destroy undoes Setup: if both return without an error, and the resolver, the router of the
  -- upstreams and the intentions have not changed in between, then these are after Destroy what they
  -- were before Setup, provided that they were not there or had nothing of the controller's.
  pub destroy-setup :
      (primary candidate : String) (w0 w1 w2 w3 : W)
      → IsUntouched w0
      → setup c p primary candidate w0 ≡ some (none, w1)
      → Agrees w1 w2
      → destroy c p w2 ≡ some (none, w3)
      → Agrees w3 w0
  destroy-setup primary candidate w0 w1 w2 w3 before up between down = record {
    same_resolver =
        resolver-destroy c p laws _ w2 w3
          (sym between.same_resolver ∙ resolver-setup c p laws primary candidate _ w0 w1 refl up)
          down
        ∙ RR.removed-added p.options p.consul_service primary candidate (resolver c p laws w0)
            before.foreign_resolver;
    same_router =
        router-destroy c p laws _ w2 w3
          (sym between.same_router ∙ router-setup c p laws primary candidate _ w0 w1 refl up) down
        ∙ UR.removed-added p.options p.consul_service (router c p laws w0) before.without_route;
    same_intentions =
        intentions-destroy c p laws _ w2 w3
          (sym between.same_intentions
            ∙ intentions-setup c p laws primary candidate _ before.foreign_intentions w0 w1 refl up)
          down
        ∙ IR.removed-added p.options p.consul_service (intentions c p laws w0)
            before.foreign_intentions;
  }
