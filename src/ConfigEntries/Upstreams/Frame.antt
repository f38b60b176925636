-- ===== src/ConfigEntries/Upstreams/Frame.antt =====
-- What the operations on the upstream router leave as it is.
use mathlib.Core.Option.{some-injective}
use consul_release_controlle.Prelude.{
  ◌≡◌, refl, sym, ap, ◌∙◌, String, Option, none, some, List, [], ◌∷◌,
}
use consul_release_controlle.Storage.Kv.{Result, ok, err, ConsulOptions}
use consul_release_controlle.ConfigEntries.{
  EntryApi, Removable, nothing, entry, upstream_router_name,
}
use consul_release_controlle.ConfigEntries.Keeping.{Keeps}
use consul_release_controlle.ConfigEntries.Upstreams.{
  ServiceRouter, Route, keep_routes, keep_found, create_upstream_router, delete_upstream_router,
  create_with, remove_from,
}

module _ {W V : Type 0} (api : EntryApi ServiceRouter W) (o : ConsulOptions) (view : W → V)
    (k : Keeps api o view) (name : String) where
  create_with-keeps :
      (r : Result (Option ServiceRouter)) (w : W) → view (create_with api o name r w).1 ≡ view w
  unfolding create_with
  create_with-keeps (err e) w = refl
  create_with-keeps (ok none) w = k.sets _ w
  create_with-keeps (ok (some d)) w = k.sets _ w

  pub create_upstream_router-keeps : (w : W) → view (create_upstream_router api o name w).1 ≡ view w
  unfolding create_upstream_router
  create_upstream_router-keeps w = create_with-keeps _ _ ∙ k.gets upstream_router_name w

  keep_routes-keeps :
      (d : ServiceRouter) (rs : List Route) (w : W) → view (keep_routes api o d rs w).1 ≡ view w
  unfolding keep_routes
  keep_routes-keeps d [] w = k.deletes upstream_router_name w
  keep_routes-keeps d (r ∷ rs) w = k.sets _ w

  keep_found-keeps :
      (d : ServiceRouter) (kept : Option (List Route)) (w w1 : W) (e : Option String)
      → keep_found api o d kept w ≡ some (e, w1)
      → view w1 ≡ view w
  unfolding keep_found
  keep_found-keeps d none w w1 e q = cc
  keep_found-keeps d (some rs) w w1 e q =
      ap (λ x. view x.1) (sym (some-injective _ _ q)) ∙ keep_routes-keeps d rs w

  remove_from-keeps :
      (r : Removable ServiceRouter) (w w1 : W) (e : Option String)
      → remove_from api o name r w ≡ some (e, w1)
      → view w1 ≡ view w
  unfolding remove_from
  remove_from-keeps (nothing x) w w1 e q = ap (λ x. view x.1) (sym (some-injective _ _ q))
  remove_from-keeps (entry d) w w1 e q = keep_found-keeps d _ w w1 e q

  pub delete_upstream_router-keeps :
      (w w1 : W) (e : Option String)
      → delete_upstream_router api o name w ≡ some (e, w1)
      → view w1 ≡ view w
  unfolding delete_upstream_router
  delete_upstream_router-keeps w w1 e q =
      remove_from-keeps _ _ w1 e q ∙ k.gets upstream_router_name w
