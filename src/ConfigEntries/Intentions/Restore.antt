-- ===== src/ConfigEntries/Intentions/Restore.antt =====
-- Creating the controller's intention and deleting it again.
use mathlib.Core.Path.{subst}
use consul_release_controlle.Prelude.{
  ◌≡◌, refl, sym, ap, ◌∙◌, String, Option, none, some, List, [], ◌∷◌, ◌++◌, false, if◌then◌else◌,
  str_eq, Bool-cases, inl, inr, arith,
}
use consul_release_controlle.Storage.Kv.{Result, ok, err, ConsulOptions}
use consul_release_controlle.ConfigEntries.{
  controller_service_name, is_created, get_meta, EntryApi, IsEntries, Removable, nothing, entry,
  existing, to_remove,
}
use consul_release_controlle.ConfigEntries.Reading.{
  existing-value, to_remove-entry, to_remove-nothing,
}
use consul_release_controlle.ConfigEntries.Intentions.{
  ServiceIntentions, Source, controller_source, has_controller, without_controller, add_source,
  new_intentions, create_service_intention, delete_service_intention, create_with, remove_from,
}

-- There is no entry, or one that the controller did not create and that does not let it in.
abbrev pub IsForeign : Option ServiceIntentions → Type 0
IsForeign none = Unit
IsForeign (some d) = (is_created d.meta ≡ false) × (has_controller d.sources ≡ false)

abbrev pub added : ConsulOptions → String → Option ServiceIntentions → ServiceIntentions
added o name none = add_source o (new_intentions o name)
added o name (some d) = add_source o d

abbrev pub removed : Option ServiceIntentions → Option ServiceIntentions
removed none = none
removed (some d) =
    if is_created d.meta then none else some (record d { sources = without_controller d.sources })

without_controller-append :
    (o : ConsulOptions) (ss : List Source)
    → has_controller ss ≡ false
    → without_controller (ss ++ controller_source o ∷ []) ≡ ss
unfolding without_controller has_controller controller_source
without_controller-append o [] h = refl
without_controller-append o (s ∷ ss) h = elim (Bool-cases (str_eq s.name controller_service_name)) [
  | inl same ↦ ground arith
  | inr other ↦ rw (other, without_controller-append o ss (ground arith)) refl
]

pub removed-added :
    (o : ConsulOptions) (name : String) (v : Option ServiceIntentions)
    → IsForeign v
    → removed (some (added o name v)) ≡ v
unfolding is_created get_meta
removed-added o name none h = refl
removed-added o name (some d) (foreign, shut) =
    rw (foreign, without_controller-append o d.sources shut) refl

module _ {W : Type 0} (api : EntryApi ServiceIntentions W) (o : ConsulOptions)
    (laws : IsEntries api o (λ d. d.name)) (name : String) where
  create_with-set :
      (d : ServiceIntentions) (w : W)
      → has_controller d.sources ≡ false
      → create_with api o name (ok (some d)) w ≡ api.set o (add_source o d) w
  unfolding create_with
  create_with-set d w shut = rw shut refl

  create_with-value :
      (r : Result (Option ServiceIntentions)) (w w' : W)
      → ((ce : Option ServiceIntentions) → r ≡ ok ce → ce ≡ laws.value w name)
      → IsForeign (laws.value w name)
      → (create_with api o name r w').0 ≡ none
      → laws.value (create_with api o name r w').1 name ≡ some (added o name (laws.value w name))
  unfolding create_with
  create_with-value (err e) w w' reads foreign done = cc
  create_with-value (ok none) w w' reads foreign done =
      rw (← reads none refl) (laws.set_sets (add_source o (new_intentions o name)) w' done)
  create_with-value (ok (some d)) w w' reads foreign done =
      let q = sym (reads (some d) refl) in
      let e = create_with-set d w' (subst IsForeign q foreign).1 in
      rw (e, q)
        (subst (λ n. laws.value (api.set o (add_source o d) w').1 n ≡ some (add_source o d))
          (laws.named name w q) (laws.set_sets (add_source o d) w' (ap (λ r. r.0) (sym e) ∙ done)))

  pub create_service_intention-value :
      (w : W)
      → IsForeign (laws.value w name)
      → (create_service_intention api o name w).0 ≡ none
      → laws.value (create_service_intention api o name w).1 name
        ≡ some (added o name (laws.value w name))
  unfolding create_service_intention
  create_service_intention-value w foreign done =
      create_with-value (existing api (api.get o name w).0) w (api.get o name w).1
        (λ ce q. existing-value api o _ laws name w (api.get o name w).0 refl q) foreign done

  remove_from-value :
      (r : Removable ServiceIntentions) (w w' : W)
      → ((d : ServiceIntentions) → r ≡ entry d → laws.value w name ≡ some d)
      → (r ≡ nothing none → laws.value w name ≡ none)
      → laws.value w' name ≡ laws.value w name
      → (remove_from api o name r w').0 ≡ none
      → laws.value (remove_from api o name r w').1 name ≡ removed (laws.value w name)
  unfolding remove_from
  remove_from-value (nothing (some e)) w w' reads absent keeps done = cc
  remove_from-value (nothing none) w w' reads absent keeps done =
      keeps ∙ absent refl ∙ ap removed (sym (absent refl))
  remove_from-value (entry d) w w' reads absent keeps done =
      let q = reads d refl in
      let kept = record d { sources = without_controller d.sources } in
      rw q (elim (Bool-cases (is_created d.meta)) [
        | inl ours ↦
            let e : remove_from api o name (entry d) w' ≡ api.delete o name w' = rw ours refl in
            rw ours (laws.delete_deletes name w' (ap (λ r. r.0) (sym e) ∙ done))
        | inr foreign ↦
            let e : remove_from api o name (entry d) w' ≡ api.set o kept w' = rw foreign refl in
            rw foreign (
              subst (λ n. laws.value (api.set o kept w').1 n ≡ some kept) (laws.named name w q)
                (laws.set_sets kept w' (ap (λ r. r.0) (sym e) ∙ done)))
      ])

  pub delete_service_intention-value :
      (w : W)
      → (delete_service_intention api o name w).0 ≡ none
      → laws.value (delete_service_intention api o name w).1 name ≡ removed (laws.value w name)
  unfolding delete_service_intention
  delete_service_intention-value w done =
      remove_from-value (to_remove api (api.get o name w).0) w (api.get o name w).1
        (λ d q. to_remove-entry api o _ laws name w (api.get o name w).0 refl q)
        (λ q. to_remove-nothing api o _ laws name w (api.get o name w).0 refl q)
        (laws.get_keeps name name w) done

  -- Creating the intention and deleting it again, both without an error, leaves the entry of the
  -- service as it was, if there was none, or one that the controller did not create and that had no
  -- source of the controller's name.
  pub delete-create_service_intention :
      (w : W)
      → IsForeign (laws.value w name)
      → (create_service_intention api o name w).0 ≡ none
      → (delete_service_intention api o name (create_service_intention api o name w).1).0 ≡ none
      → laws.value
          (delete_service_intention api o name (create_service_intention api o name w).1).1
          name
        ≡ laws.value w name
  delete-create_service_intention w foreign created deleted =
      delete_service_intention-value (create_service_intention api o name w).1 deleted
      ∙ ap removed (create_service_intention-value w foreign created)
      ∙ removed-added o name (laws.value w name) foreign
