-- ===== src/ConfigEntries/Defaults/Frame.antt =====
-- What the operations on service defaults leave as it is.
use consul_release_controlle.Prelude.{◌≡◌, refl, ◌∙◌, String, Option, none, some, str_eq}
use consul_release_controlle.Storage.Kv.{Result, ok, err, ConsulOptions}
use consul_release_controlle.ConfigEntries.{
  EntryApi, Removable, nothing, entry, existing, is_created,
}
use consul_release_controlle.ConfigEntries.Keeping.{Keeps, if-keeps}
use consul_release_controlle.ConfigEntries.Defaults.{
  ServiceDefaults, create_service_defaults, delete_service_defaults, create_with, update_existing,
  remove_from,
}

module _ {W V : Type 0} (api : EntryApi ServiceDefaults W) (o : ConsulOptions) (view : W → V)
    (k : Keeps api o view) (name : String) where
  update_existing-keeps :
      (d : ServiceDefaults) (w : W) → view (update_existing api o name d w).1 ≡ view w
  unfolding update_existing
  update_existing-keeps d w = if-keeps view (str_eq d.protocol "grpc") _ _ _ refl (
      if-keeps view (str_eq d.protocol "http2") _ _ _ refl (
        if-keeps view (str_eq d.protocol "http") _ _ _ refl
          (if-keeps view (str_eq d.protocol "tcp") _ _ _ (k.sets _ w) (k.sets _ w))))

  create_with-keeps :
      (r : Result (Option ServiceDefaults)) (w : W) → view (create_with api o name r w).1 ≡ view w
  unfolding create_with
  create_with-keeps (err e) w = refl
  create_with-keeps (ok none) w = k.sets _ w
  create_with-keeps (ok (some d)) w = update_existing-keeps d w

  pub create_service_defaults-keeps :
      (w : W) → view (create_service_defaults api o name w).1 ≡ view w
  unfolding create_service_defaults
  create_service_defaults-keeps w =
      create_with-keeps (existing api (api.get o name w).0) (api.get o name w).1 ∙ k.gets name w

  remove_from-keeps :
      (r : Removable ServiceDefaults) (w : W) → view (remove_from api o name r w).1 ≡ view w
  unfolding remove_from
  remove_from-keeps (nothing e) w = refl
  remove_from-keeps (entry d) w = if-keeps view (is_created d.meta) _ _ _ (k.deletes name w) refl

  pub delete_service_defaults-keeps :
      (w : W) → view (delete_service_defaults api o name w).1 ≡ view w
  unfolding delete_service_defaults
  delete_service_defaults-keeps w = remove_from-keeps _ _ ∙ k.gets name w
