-- ===== src/ConfigEntries/Resolvers.antt =====
-- CreateServiceResolver and DeleteServiceResolver of pkg/clients/consul.go: the two subsets of a
-- service.
pub mod Restore
pub mod Frame
use Prim.Native.String.{◌++◌ as append}
use consul_release_controlle.Prelude.{String, Option, none, some, Bool, true, if◌then◌else◌, str_eq}
use consul_release_controlle.Storage.Kv.{Result, ok, err, ConsulOptions}
use consul_release_controlle.ConfigEntries.{
  Meta, created_meta, is_created, EntryApi, Removable, nothing, entry, existing, to_remove,
}

-- api.ServiceResolverSubset
pub record Subset : Type 0 where
  pub filter : String
  pub only_passing : Bool

-- A map, as what it has for each key.
abbrev pub Subsets : Type 0
Subsets = String → Option Subset

abbrev pub put_subset : String → Option Subset → Subsets → Subsets
put_subset k s f = λ j. if str_eq k j then s else f j

-- api.ServiceResolverConfigEntry; the map of the subsets may be nil.
pub record ServiceResolver : Type 0 where
  pub name : String
  pub namespace : String
  pub partition : String
  pub meta : Meta
  pub default_subset : String
  pub subsets : Option Subsets

unfoldable pub primary_subset : String → String
primary_subset name = append "crc-" (append name "-primary")

unfoldable pub candidate_subset : String → String
candidate_subset name = append "crc-" (append name "-candidate")

abbrev pub passing : String → Option Subset
passing filter = some (record { filter = filter; only_passing = true })

-- The two writes of a creation, and the two deletions.
unfoldable pub with_subsets : String → String → String → Subsets → Subsets
with_subsets name primary candidate f =
    put_subset (candidate_subset name) (passing candidate)
      (put_subset (primary_subset name) (passing primary) f)

unfoldable pub without_subsets : String → Subsets → Subsets
without_subsets name f =
    put_subset (candidate_subset name) none (put_subset (primary_subset name) none f)

-- Deleting from a nil map does nothing.
unfoldable pub drop_subsets : String → Option Subsets → Option Subsets
drop_subsets name none = none
drop_subsets name (some f) = some (without_subsets name f)

unfoldable pub new_resolver : ConsulOptions → String → ServiceResolver
new_resolver o name = record {
  name = name;
  namespace = o.namespace;
  partition = o.partition;
  meta = created_meta;
  default_subset = candidate_subset name;
  subsets = some (λ k. none);
}

module _ {W : Type 0} (api : EntryApi ServiceResolver W) (o : ConsulOptions) where
  -- `none` is a panic: a write to a nil map.
  set_subsets :
      String → String → String → ServiceResolver → Option Subsets → W → Option (Option String × W)
  set_subsets name primary candidate d none w = none
  set_subsets name primary candidate d (some f) w =
      some (api.set o (record d { subsets = some (with_subsets name primary candidate f) }) w)

  create_with :
      String → String → String → Result (Option ServiceResolver) → W → Option (Option String × W)
  unfolding set_subsets
  create_with name primary candidate (err e) w = some (some e, w)
  create_with name primary candidate (ok none) w =
      set_subsets name primary candidate (new_resolver o name) (new_resolver o name).subsets w
  create_with name primary candidate (ok (some d)) w =
      set_subsets name primary candidate d d.subsets w

  unfoldable pub create_service_resolver : String → String → String → W → Option (Option String × W)
  unfolding create_with
  create_service_resolver name primary candidate w =
      let (found, w') = api.get o name w in
      create_with name primary candidate (existing api found) w'

  remove_from : String → Removable ServiceResolver → W → Option String × W
  remove_from name (nothing e) w = (e, w)
  remove_from name (entry d) w =
      if is_created d.meta
      then api.delete o name w
      else api.set o (record d { subsets = drop_subsets name d.subsets }) w

  unfoldable pub delete_service_resolver : String → W → Option String × W
  unfolding remove_from
  delete_service_resolver name w =
      let (found, w') = api.get o name w in remove_from name (to_remove api found) w'
