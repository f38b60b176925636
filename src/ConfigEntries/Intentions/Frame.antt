-- ===== src/ConfigEntries/Intentions/Frame.antt =====
-- What the operations on intentions leave as it is.
use consul_release_controlle.Prelude.{◌≡◌, refl, ◌∙◌, String, Option, none, some}
use consul_release_controlle.Storage.Kv.{Result, ok, err, ConsulOptions}
use consul_release_controlle.ConfigEntries.{EntryApi, Removable, nothing, entry, is_created}
use consul_release_controlle.ConfigEntries.Keeping.{Keeps, if-keeps}
use consul_release_controlle.ConfigEntries.Intentions.{
  ServiceIntentions, has_controller, create_service_intention, delete_service_intention,
  create_with, remove_from,
}

module _ {W V : Type 0} (api : EntryApi ServiceIntentions W) (o : ConsulOptions) (view : W → V)
    (k : Keeps api o view) (name : String) where
  create_with-keeps :
      (r : Result (Option ServiceIntentions)) (w : W) → view (create_with api o name r w).1 ≡ view w
  unfolding create_with
  create_with-keeps (err e) w = refl
  create_with-keeps (ok none) w = k.sets _ w
  create_with-keeps (ok (some d)) w =
      if-keeps view (has_controller d.sources) _ _ _ refl (k.sets _ w)

  pub create_service_intention-keeps :
      (w : W) → view (create_service_intention api o name w).1 ≡ view w
  unfolding create_service_intention
  create_service_intention-keeps w = create_with-keeps _ _ ∙ k.gets name w

  remove_from-keeps :
      (r : Removable ServiceIntentions) (w : W) → view (remove_from api o name r w).1 ≡ view w
  unfolding remove_from
  remove_from-keeps (nothing e) w = refl
  remove_from-keeps (entry d) w =
      if-keeps view (is_created d.meta) _ _ _ (k.deletes name w) (k.sets _ w)

  pub delete_service_intention-keeps :
      (w : W) → view (delete_service_intention api o name w).1 ≡ view w
  unfolding delete_service_intention
  delete_service_intention-keeps w = remove_from-keeps _ _ ∙ k.gets name w
