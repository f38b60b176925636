-- ===== src/ConfigEntries/Upstreams/Restore.antt =====
-- The upstream router after services are added to it and removed from it.
use mathlib.Core.Path.{subst}
use mathlib.Core.Option.{some-injective}
use consul_release_controlle.Prelude.{
  ◌≡◌, refl, sym, ap, ◌∙◌, String, Option, none, some, List, [], ◌∷◌, ◌++◌, Bool, true, false, ◌||◌,
  if◌then◌else◌, str_eq, eq_iff, Bool-cases, inl, inr, arith,
}
use consul_release_controlle.Storage.Kv.{Result, ok, err, ConsulOptions}
use consul_release_controlle.ConfigEntries.{
  upstream_router_name, EntryApi, IsEntries, Removable, nothing, entry, existing, to_remove,
}
use consul_release_controlle.ConfigEntries.Reading.{
  existing-value, to_remove-entry, to_remove-nothing,
}
use consul_release_controlle.ConfigEntries.Upstreams.{
  ServiceRouter, Destination, Route, keep_unless, keep_found, upstream_route, routes_without,
  add_route, new_router, create_upstream_router, delete_upstream_router, create_with, keep_routes,
  remove_from,
}

unfoldable pub leads_to : String → Option Destination → Bool
leads_to name none = false
leads_to name (some d) = str_eq d.service name

unfoldable pub has_route : String → List Route → Bool
has_route name [] = false
has_route name (r ∷ rs) = leads_to name r.destination || has_route name rs

unfoldable pub is_empty : List Route → Bool
is_empty [] = true
is_empty (r ∷ rs) = false

-- There is no router, or one with routes, of which none leads to the service.
abbrev pub IsWithout : String → Option ServiceRouter → Type 0
IsWithout name none = Unit
IsWithout name (some d) = (has_route name d.routes ≡ false) × (is_empty d.routes ≡ false)

abbrev pub added : ConsulOptions → String → Option ServiceRouter → ServiceRouter
added o name none = add_route o name (new_router o)
added o name (some d) = add_route o name d

-- A router with these routes, if there are any.
abbrev pub with_routes : ServiceRouter → List Route → Option ServiceRouter
with_routes d [] = none
with_routes d (r ∷ rs) = some (record d { routes = r ∷ rs })

-- The routes that do not lead to the service.
unfoldable pub other_routes : String → List Route → List Route
other_routes name [] = []
other_routes name (r ∷ rs) =
    let rest = other_routes name rs in if leads_to name r.destination then rest else r ∷ rest

abbrev pub removed : String → Option ServiceRouter → Option ServiceRouter
removed name none = none
removed name (some d) = with_routes d (other_routes name d.routes)

other_routes-append :
    (o : ConsulOptions) (name : String) (rs : List Route)
    → has_route name rs ≡ false
    → other_routes name (rs ++ upstream_route o name ∷ []) ≡ rs
unfolding other_routes has_route leads_to upstream_route
other_routes-append o name [] h = rw ((eq_iff name name).1 refl) refl
other_routes-append o name (r ∷ rs) h = elim (Bool-cases (leads_to name r.destination)) [
  | inl same ↦ ground arith
  | inr other ↦ rw (other, other_routes-append o name rs (ground arith)) refl
]

keep_unless-some :
    (name : String) (r : Route) (d : Option Destination) (rest : Option (List Route))
    (qs kept : List Route)
    → ((ps : List Route) → rest ≡ some ps → ps ≡ qs)
    → keep_unless name r d rest ≡ some kept
    → kept ≡ (if leads_to name d then qs else r ∷ qs)
unfolding keep_unless leads_to
keep_unless-some name r none rest qs kept reads h = cc
keep_unless-some name r (some d) none qs kept reads h = cc
keep_unless-some name r (some d) (some ps) qs kept reads h =
    sym (some-injective _ _ h)
    ∙ ap (λ xs. if str_eq d.service name then xs else r ∷ xs) (reads ps refl)

-- The loop keeps just these routes, if it does not panic.
routes_without-some :
    (name : String) (rs kept : List Route)
    → routes_without name rs ≡ some kept
    → kept ≡ other_routes name rs
unfolding routes_without other_routes
routes_without-some name [] kept h = sym (some-injective _ _ h)
routes_without-some name (r ∷ rs) kept h =
    keep_unless-some name r r.destination (routes_without name rs) (other_routes name rs) kept
      (λ ps q. routes_without-some name rs ps q) h

with_routes_lem :
    (d : ServiceRouter) (rs : List Route)
    → is_empty rs ≡ false
    → with_routes d rs ≡ some (record d { routes = rs })
unfolding is_empty
with_routes_lem d [] h = cc
with_routes_lem d (r ∷ rs) h = refl

pub removed-added :
    (o : ConsulOptions) (name : String) (v : Option ServiceRouter)
    → IsWithout name v
    → removed name (some (added o name v)) ≡ v
unfolding has_route
removed-added o name none h = rw (other_routes-append o name [] refl) refl
removed-added o name (some d) (without, more) =
    rw (other_routes-append o name d.routes without)
      (with_routes_lem (add_route o name d) d.routes more)

module _ {W : Type 0} (api : EntryApi ServiceRouter W) (o : ConsulOptions)
    (laws : IsEntries api o (λ d. d.name)) (name : String) where
  -- The router in the state that an operation leaves.
  abbrev pub router : W → Option ServiceRouter
  router w = laws.value w upstream_router_name

  create_with-value :
      (r : Result (Option ServiceRouter)) (w w' : W)
      → ((ce : Option ServiceRouter) → r ≡ ok ce → ce ≡ router w)
      → (create_with api o name r w').0 ≡ none
      → router (create_with api o name r w').1 ≡ some (added o name (router w))
  unfolding create_with
  create_with-value (err e) w w' reads done = cc
  create_with-value (ok none) w w' reads done =
      rw (← reads none refl) (laws.set_sets (add_route o name (new_router o)) w' done)
  create_with-value (ok (some d)) w w' reads done =
      let q = sym (reads (some d) refl) in
      rw q (
        subst (λ n. laws.value (api.set o (add_route o name d) w').1 n ≡ some (add_route o name d))
          (laws.named upstream_router_name w q) (laws.set_sets (add_route o name d) w' done))

  pub create_upstream_router-value :
      (w : W)
      → (create_upstream_router api o name w).0 ≡ none
      → router (create_upstream_router api o name w).1 ≡ some (added o name (router w))
  unfolding create_upstream_router
  create_upstream_router-value w done =
      let r = api.get o upstream_router_name w in
      create_with-value (existing api r.0) w r.1
        (λ ce q. existing-value api o _ laws upstream_router_name w r.0 refl q) done

  keep_routes-value :
      (d : ServiceRouter) (rs : List Route) (w : W)
      → d.name ≡ upstream_router_name
      → (keep_routes api o d rs w).0 ≡ none
      → router (keep_routes api o d rs w).1 ≡ with_routes d rs
  unfolding keep_routes
  keep_routes-value d [] w n done = laws.delete_deletes upstream_router_name w done
  keep_routes-value d (r ∷ rs) w n done =
      let kept = record d { routes = r ∷ rs } in
      subst (λ x. laws.value (api.set o kept w).1 x ≡ some kept) n (laws.set_sets kept w done)

  keep_found-value :
      (d : ServiceRouter) (kept : Option (List Route)) (w w1 : W)
      → d.name ≡ upstream_router_name
      → routes_without name d.routes ≡ kept
      → keep_found api o d kept w ≡ some (none, w1)
      → router w1 ≡ with_routes d (other_routes name d.routes)
  unfolding keep_found
  keep_found-value d none w w1 n q done = cc
  keep_found-value d (some rs) w w1 n q done =
      let ends = some-injective _ _ done in
      ap (λ x. router x.1) (sym ends)
      ∙ keep_routes-value d rs w n (ap (λ x. x.0) ends)
      ∙ ap (with_routes d) (routes_without-some name d.routes rs q)

  remove_from-value :
      (r : Removable ServiceRouter) (w w' w1 : W)
      → ((d : ServiceRouter) → r ≡ entry d → router w ≡ some d)
      → (r ≡ nothing none → router w ≡ none)
      → router w' ≡ router w
      → remove_from api o name r w' ≡ some (none, w1)
      → router w1 ≡ removed name (router w)
  unfolding remove_from
  remove_from-value (nothing (some e)) w w' w1 reads absent keeps done = cc
  remove_from-value (nothing none) w w' w1 reads absent keeps done =
      ap (λ x. router x.1) (sym (some-injective _ _ done))
      ∙ keeps
      ∙ absent refl
      ∙ ap (removed name) (sym (absent refl))
  remove_from-value (entry d) w w' w1 reads absent keeps done =
      let q = reads d refl in
      rw q (
        keep_found-value d (routes_without name d.routes) w' w1
          (laws.named upstream_router_name w q) refl done)

  pub delete_upstream_router-value :
      (w w1 : W)
      → delete_upstream_router api o name w ≡ some (none, w1)
      → router w1 ≡ removed name (router w)
  unfolding delete_upstream_router
  delete_upstream_router-value w w1 done =
      let r = api.get o upstream_router_name w in
      remove_from-value (to_remove api r.0) w r.1 w1
        (λ d q. to_remove-entry api o _ laws upstream_router_name w r.0 refl q)
        (λ q. to_remove-nothing api o _ laws upstream_router_name w r.0 refl q)
        (laws.get_keeps upstream_router_name upstream_router_name w) done

  -- Adding a service to the router of the upstreams and removing it again, both without an error,
  -- leaves the router as it was, if there was none, or one with routes of which none led to the
  -- service.
  pub delete-create_upstream_router :
      (w w1 : W)
      → IsWithout name (router w)
      → (create_upstream_router api o name w).0 ≡ none
      → delete_upstream_router api o name (create_upstream_router api o name w).1 ≡ some (none, w1)
      → router w1 ≡ router w
  delete-create_upstream_router w w1 without created deleted =
      delete_upstream_router-value (create_upstream_router api o name w).1 w1 deleted
      ∙ ap (removed name) (create_upstream_router-value w created)
      ∙ removed-added o name (router w) without
