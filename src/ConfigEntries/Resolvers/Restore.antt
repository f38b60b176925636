-- ===== src/ConfigEntries/Resolvers/Restore.antt =====
-- Creating the subsets of a service and deleting them again.
use mathlib.Core.Path.{subst, fun_ext}
use mathlib.Core.Option.{some-injective, none-ne-some}
use consul_release_controlle.Prelude.{
  ◌≡◌, refl, sym, ap, ◌∙◌, String, Option, none, some, false, if◌then◌else◌, str_eq, eq_iff,
  Bool-cases, inl, inr,
}
use consul_release_controlle.Storage.Kv.{Result, ok, err, ConsulOptions}
use consul_release_controlle.ConfigEntries.{
  is_created, get_meta, EntryApi, IsEntries, Removable, nothing, entry, existing, to_remove,
}
use consul_release_controlle.ConfigEntries.Reading.{
  existing-value, to_remove-entry, to_remove-nothing,
}
use consul_release_controlle.ConfigEntries.Resolvers.{
  ServiceResolver, Subset, Subsets, passing, primary_subset, candidate_subset, with_subsets,
  without_subsets, drop_subsets, new_resolver, set_subsets, create_with, create_service_resolver,
  remove_from, delete_service_resolver,
}

-- There is a map, and neither of the two subsets is in it.
abbrev pub IsFree : String → Option Subsets → Type 0
IsFree name none = ⊥
IsFree name (some f) = (f (primary_subset name) ≡ none) × (f (candidate_subset name) ≡ none)

-- There is no entry, or one that the controller did not create and that is free of its subsets.
abbrev pub IsForeign : String → Option ServiceResolver → Type 0
IsForeign name none = Unit
IsForeign name (some d) = (is_created d.meta ≡ false) × IsFree name d.subsets

-- The entry that a creation leaves: `none` if it panics.
abbrev given : String → String → String → ServiceResolver → Option Subsets → Option ServiceResolver
given name primary candidate d none = none
given name primary candidate d (some f) =
    some (record d { subsets = some (with_subsets name primary candidate f) })

abbrev pub added :
    ConsulOptions → String → String → String → Option ServiceResolver → Option ServiceResolver
added o name primary candidate none =
    given name primary candidate (new_resolver o name) (new_resolver o name).subsets
added o name primary candidate (some d) = given name primary candidate d d.subsets

abbrev pub removed : String → Option ServiceResolver → Option ServiceResolver
removed name none = none
removed name (some d) =
    if is_created d.meta then none else some (record d { subsets = drop_subsets name d.subsets })

without-with_subset :
    (k j p : String) (f : Subsets) (c d : Option Subset)
    → f k ≡ none
    → f p ≡ none
    → (if str_eq k j
        then none
        else if str_eq p j
        then none
        else if str_eq k j
        then c
        else if str_eq p j
        then d
        else f j)
      ≡ f j
without-with_subset k j p f c d fk fp = elim (Bool-cases (str_eq k j)) [
  | inl here ↦ rw here (sym fk ∙ ap f ((eq_iff k j).0 here))
  | inr there ↦ rw there (elim (Bool-cases (str_eq p j)) [
    | inl here ↦ rw here (sym fp ∙ ap f ((eq_iff p j).0 here))
    | inr apart ↦ rw apart refl
  ])
]

without-with_subsets :
    (name primary candidate : String) (f : Subsets)
    → IsFree name (some f)
    → without_subsets name (with_subsets name primary candidate f) ≡ f
unfolding without_subsets with_subsets
without-with_subsets name primary candidate f (p, c) = fun_ext (λ j.
    without-with_subset (candidate_subset name) j (primary_subset name) f (passing candidate)
      (passing primary) c p)

removed-given :
    (name primary candidate : String) (d : ServiceResolver) (m : Option Subsets)
    → d.subsets ≡ m
    → is_created d.meta ≡ false
    → IsFree name m
    → removed name (given name primary candidate d m) ≡ some d
unfolding drop_subsets
removed-given name primary candidate d none q foreign free = absurd free
removed-given name primary candidate d (some f) q foreign free =
    rw (foreign, without-with_subsets name primary candidate f free)
      (ap (λ m. some (record d { subsets = m })) (sym q))

-- A deletion takes back what a creation has done to a foreign entry.
pub removed-added :
    (o : ConsulOptions) (name primary candidate : String) (v : Option ServiceResolver)
    → IsForeign name v
    → removed name (added o name primary candidate v) ≡ v
unfolding new_resolver is_created get_meta
removed-added o name primary candidate none h = refl
removed-added o name primary candidate (some d) (foreign, free) =
    removed-given name primary candidate d d.subsets refl foreign free

module _ {W : Type 0} (api : EntryApi ServiceResolver W) (o : ConsulOptions)
    (laws : IsEntries api o (λ d. d.name)) (name primary candidate : String) where
  set_subsets-value :
      (d : ServiceResolver) (m : Option Subsets) (w' w1 : W)
      → d.name ≡ name
      → set_subsets api o name primary candidate d m w' ≡ some (none, w1)
      → laws.value w1 name ≡ given name primary candidate d m
  unfolding set_subsets
  set_subsets-value d none w' w1 n q = absurd (none-ne-some _ q)
  set_subsets-value d (some f) w' w1 n q =
      let set = record d { subsets = some (with_subsets name primary candidate f) } in
      let done = some-injective _ _ q in
      subst (λ v. laws.value v name ≡ some set) (ap (λ r. r.1) done)
        (subst (λ x. laws.value (api.set o set w').1 x ≡ some set) n
          (laws.set_sets set w' (ap (λ r. r.0) done)))

  create_with-value :
      (r : Result (Option ServiceResolver)) (w w' w1 : W)
      → ((ce : Option ServiceResolver) → r ≡ ok ce → ce ≡ laws.value w name)
      → create_with api o name primary candidate r w' ≡ some (none, w1)
      → laws.value w1 name ≡ added o name primary candidate (laws.value w name)
  unfolding create_with new_resolver
  create_with-value (err e) w w' w1 reads q =
      absurd (none-ne-some e (sym (ap (λ r. r.0) (some-injective _ _ q))))
  create_with-value (ok none) w w' w1 reads q =
      rw (← reads none refl)
        (set_subsets-value (new_resolver o name) (new_resolver o name).subsets w' w1 refl q)
  create_with-value (ok (some d)) w w' w1 reads q =
      let there = sym (reads (some d) refl) in
      rw there (set_subsets-value d d.subsets w' w1 (laws.named name w there) q)

  pub create_service_resolver-value :
      (w w1 : W)
      → create_service_resolver api o name primary candidate w ≡ some (none, w1)
      → laws.value w1 name ≡ added o name primary candidate (laws.value w name)
  unfolding create_service_resolver
  create_service_resolver-value w w1 q =
      let r = api.get o name w in
      create_with-value (existing api r.0) w r.1 w1
        (λ ce h. existing-value api o _ laws name w r.0 refl h) q

  remove_from-value :
      (r : Removable ServiceResolver) (w w' : W)
      → ((d : ServiceResolver) → r ≡ entry d → laws.value w name ≡ some d)
      → (r ≡ nothing none → laws.value w name ≡ none)
      → laws.value w' name ≡ laws.value w name
      → (remove_from api o name r w').0 ≡ none
      → laws.value (remove_from api o name r w').1 name ≡ removed name (laws.value w name)
  unfolding remove_from
  remove_from-value (nothing (some e)) w w' reads absent keeps done = cc
  remove_from-value (nothing none) w w' reads absent keeps done =
      keeps ∙ absent refl ∙ ap (removed name) (sym (absent refl))
  remove_from-value (entry d) w w' reads absent keeps done =
      let q = reads d refl in
      let kept = record d { subsets = drop_subsets name d.subsets } in
      rw q (elim (Bool-cases (is_created d.meta)) [
        | inl ours ↦
            let e : remove_from api o name (entry d) w' ≡ api.delete o name w' = rw ours refl in
            rw ours (laws.delete_deletes name w' (ap (λ r. r.0) (sym e) ∙ done))
        | inr foreign ↦
            let e : remove_from api o name (entry d) w' ≡ api.set o kept w' = rw foreign refl in
            rw foreign (
              subst (λ n. laws.value (api.set o kept w').1 n ≡ some kept) (laws.named name w q)
                (laws.set_sets kept w' (ap (λ r. r.0) (sym e) ∙ done)))
      ])

  pub delete_service_resolver-value :
      (w : W)
      → (delete_service_resolver api o name w).0 ≡ none
      → laws.value (delete_service_resolver api o name w).1 name ≡ removed name (laws.value w name)
  unfolding delete_service_resolver
  delete_service_resolver-value w done =
      let r = api.get o name w in
      remove_from-value (to_remove api r.0) w r.1
        (λ d q. to_remove-entry api o _ laws name w r.0 refl q)
        (λ q. to_remove-nothing api o _ laws name w r.0 refl q) (laws.get_keeps name name w) done
