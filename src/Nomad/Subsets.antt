-- ===== src/Nomad/Subsets.antt =====
-- The services of a clone fall into the subset that its label says: the primary's subset has the tag.
use consul_release_controlle.Prelude.{
  ◌≡◌, refl, sym, ap, ◌∙◌, String, List, [], ◌∷◌, ◌++◌, true, false, not, str_eq, eq_iff, map,
  Bool-cases, inl, inr, arith,
}
use consul_release_controlle.Runtime.Platform.{ok, Deployment, version_label}
use consul_release_controlle.Nomad.Tags.{
  Service, TaskGroup, Job, has_tag, with_tag, without_tag, relabel, relabel_group, relabelled,
  label_of,
}
use consul_release_controlle.Nomad.{
  Cluster, get_job, rescaled, clone_found, clone_deployment, with_count,
}

has_tag-append : (ts : List String) → has_tag (ts ++ version_label ∷ []) ≡ true
unfolding has_tag
has_tag-append [] = rw ((eq_iff version_label version_label).1 refl) refl
has_tag-append (t ∷ ts) = ground (arith, has_tag-append ts)

has_tag-with_tag : (ts : List String) → has_tag (with_tag ts) ≡ true
unfolding with_tag
has_tag-with_tag ts = elim (Bool-cases (has_tag ts)) [
  | inl there ↦ rw there there
  | inr missing ↦ rw missing (has_tag-append ts)
]

has_tag-without_tag : (ts : List String) → has_tag (without_tag ts) ≡ false
unfolding has_tag without_tag
has_tag-without_tag [] = refl
has_tag-without_tag (t ∷ ts) = ground (arith, has_tag-without_tag ts)

without_tag-append : (ts : List String) → without_tag (ts ++ version_label ∷ []) ≡ without_tag ts
unfolding without_tag
without_tag-append [] = refl
without_tag-append (t ∷ ts) = ground (arith, without_tag-append ts)

without_tag-with_tag : (ts : List String) → without_tag (with_tag ts) ≡ without_tag ts
unfolding with_tag
without_tag-with_tag ts = elim (Bool-cases (has_tag ts)) [
  | inl there ↦ rw there refl
  | inr missing ↦ rw missing (without_tag-append ts)
]

without_tag_twice : (ts : List String) → without_tag (without_tag ts) ≡ without_tag ts
unfolding without_tag
without_tag_twice [] = refl
without_tag_twice (t ∷ ts) = ground (arith, without_tag_twice ts)

-- The service of the clone has the tag just if the label is set, and its other tags are those of the
-- original, in their order.
pub record IsTagged (label : String) (s s' : Service) : Type 0 where
  pub tag : has_tag s'.tags ≡ not (str_eq label "")
  pub others : without_tag s'.tags ≡ without_tag s.tags

relabel-IsTagged : (label : String) (s : Service) → IsTagged label s (relabel label s)
unfolding relabel
relabel-IsTagged label s = elim (Bool-cases (str_eq label "")) [
  | inl unset ↦ rw unset (record {
    tag = has_tag-without_tag s.tags ∙ ap not (sym unset);
    others = without_tag_twice s.tags;
  })
  | inr set ↦ rw set (record {
    tag = has_tag-with_tag s.tags ∙ ap not (sym set);
    others = without_tag-with_tag s.tags;
  })
]

-- Both lists have the same length, and what stands at the same place is related.
abbrev pub Zip : {A B : Type 0} → (A → B → Type 0) → List A → List B → Type 0
Zip P [] [] = Unit
Zip P (x ∷ xs) (y ∷ ys) = P x y × Zip P xs ys
Zip P xs ys = ⊥

Zip-map :
    {A B : Type 0} (P : A → B → Type 0) (f : A → B)
    → ((x : A) → P x (f x))
    → (xs : List A) → Zip P xs (map f xs)
Zip-map P f h [] = tt
Zip-map P f h (x ∷ xs) = (h x, Zip-map P f h xs)

abbrev pub IsTaggedGroup : String → TaskGroup → TaskGroup → Type 0
IsTaggedGroup label g g' = Zip (IsTagged label) g.services g'.services

relabel_group-IsTaggedGroup :
    (label : String) (g : TaskGroup) → IsTaggedGroup label g (relabel_group label g)
relabel_group-IsTaggedGroup label g =
    Zip-map (IsTagged label) (relabel label) (relabel-IsTagged label) g.services

-- The clone of a job, as far as the deployment says what it is.
pub record IsClone (d : Deployment) (j j' : Job) : Type 0 where
  pub id : j'.id ≡ d.name
  pub name : j'.name ≡ d.name
  pub meta : j'.meta ≡ d.meta
  pub count : j'.groups.first.count ≡ d.instances
  pub first : IsTaggedGroup (label_of d) j.groups.first j'.groups.first
  pub others : Zip (IsTaggedGroup (label_of d)) j.groups.others j'.groups.others

Zip-relabel_group :
    (d : Deployment) (gs : List TaskGroup)
    → Zip
        (IsTaggedGroup (label_of d))
        gs
        (map (relabel_group (label_of d)) (map (with_count d.instances) gs))
Zip-relabel_group d [] = tt
Zip-relabel_group d (g ∷ gs) =
    (relabel_group-IsTaggedGroup (label_of d) (with_count d.instances g), Zip-relabel_group d gs)

relabelled-IsClone :
    (d : Deployment) (j : Job) → IsClone d j (relabelled d (rescaled d.instances j))
unfolding relabelled
relabelled-IsClone d j = record {
  id = refl;
  name = refl;
  meta = refl;
  count = refl;
  first = relabel_group-IsTaggedGroup (label_of d) (with_count d.instances j.groups.first);
  others = Zip-relabel_group d j.groups.others;
}

-- When the job of the existing deployment is found, `CloneDeployment` registers a job with the name,
-- the meta and the instances of the new deployment; each of its services has the release
-- controller's tag just if the new deployment has the version label, and its other tags as before.
pub clone_deployment-IsClone :
    {W : Type 0} (c : Cluster W) (existing d : Deployment) (j : Job) (w w' : W)
    → get_job c existing.name existing.namespace w ≡ (ok j, w')
    → (j' : Job) × (clone_deployment c existing d w ≡ c.register j' w') × IsClone d j j'
unfolding clone_deployment clone_found
clone_deployment-IsClone c existing d j w w' h =
    (relabelled d (rescaled d.instances j), rw (h, clone_found) refl, relabelled-IsClone d j)
