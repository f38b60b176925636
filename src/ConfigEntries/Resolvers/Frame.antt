-- ===== src/ConfigEntries/Resolvers/Frame.antt =====
-- What the operations on resolvers leave as it is.
use mathlib.Core.Option.{some-injective, none-ne-some}
use consul_release_controlle.Prelude.{◌≡◌, refl, sym, ap, ◌∙◌, String, Option, none, some}
use consul_release_controlle.Storage.Kv.{Result, ok, err, ConsulOptions}
use consul_release_controlle.ConfigEntries.{EntryApi, Removable, nothing, entry, is_created}
use consul_release_controlle.ConfigEntries.Keeping.{Keeps, if-keeps}
use consul_release_controlle.ConfigEntries.Resolvers.{
  ServiceResolver, Subsets, new_resolver, set_subsets, create_service_resolver,
  delete_service_resolver, create_with, remove_from,
}

module _ {W V : Type 0} (api : EntryApi ServiceResolver W) (o : ConsulOptions) (view : W → V)
    (k : Keeps api o view) (name primary candidate : String) where
  set_subsets-keeps :
      (d : ServiceResolver) (m : Option Subsets) (w w1 : W) (e : Option String)
      → set_subsets api o name primary candidate d m w ≡ some (e, w1)
      → view w1 ≡ view w
  unfolding set_subsets
  set_subsets-keeps d none w w1 e q = absurd (none-ne-some _ q)
  set_subsets-keeps d (some f) w w1 e q =
      ap (λ r. view r.1) (sym (some-injective _ _ q)) ∙ k.sets _ w

  create_with-keeps :
      (r : Result (Option ServiceResolver)) (w w1 : W) (e : Option String)
      → create_with api o name primary candidate r w ≡ some (e, w1)
      → view w1 ≡ view w
  unfolding create_with
  create_with-keeps (err x) w w1 e q = ap (λ r. view r.1) (sym (some-injective _ _ q))
  create_with-keeps (ok none) w w1 e q =
      set_subsets-keeps (new_resolver o name) (new_resolver o name).subsets w w1 e q
  create_with-keeps (ok (some d)) w w1 e q = set_subsets-keeps d d.subsets w w1 e q

  pub create_service_resolver-keeps :
      (w w1 : W) (e : Option String)
      → create_service_resolver api o name primary candidate w ≡ some (e, w1)
      → view w1 ≡ view w
  unfolding create_service_resolver
  create_service_resolver-keeps w w1 e q = create_with-keeps _ _ w1 e q ∙ k.gets name w

  remove_from-keeps :
      (r : Removable ServiceResolver) (w : W) → view (remove_from api o name r w).1 ≡ view w
  unfolding remove_from
  remove_from-keeps (nothing e) w = refl
  remove_from-keeps (entry d) w =
      if-keeps view (is_created d.meta) _ _ _ (k.deletes name w) (k.sets _ w)

  pub delete_service_resolver-keeps :
      (w : W) → view (delete_service_resolver api o name w).1 ≡ view w
  unfolding delete_service_resolver
  delete_service_resolver-keeps w = remove_from-keeps _ _ ∙ k.gets name w
