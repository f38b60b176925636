-- ===== src/Memory.antt =====
-- pkg/plugins/memory/inmem.go: releases in a map. A map is a list of its entries, in the order in
-- which `range` happens to go through them.
pub mod Refinement
use consul_release_controlle.Prelude.{
  String, Option, none, some, List, [], ◌∷◌, if◌then◌else◌, str_eq,
}
use consul_release_controlle.Release.{Release, PluginConfig}
use consul_release_controlle.Storage.{StoreError, release_not_found, other, Found, found, failed}

abbrev pub Store : Type 0
Store = List (String × Release)

abbrev pub new_store : Store
new_store = []

unfoldable pub lookup : String → Store → Option Release
lookup k [] = none
lookup k ((j, r) ∷ m) = let rest = lookup k m in if str_eq j k then some r else rest

-- `delete(m, k)`
unfoldable pub remove : String → Store → Store
remove k [] = []
remove k ((j, r) ∷ m) = let rest = remove k m in if str_eq j k then rest else (j, r) ∷ rest

unfoldable pub upsert_release : Release → Store → Option StoreError × Store
upsert_release d m =
    if str_eq d.name ""
    then (some (other "invalid name:  for release"), m)
    else (none, (d.name, d) ∷ remove d.name m)

delete_found : Option Release → Store → Option StoreError × Store
delete_found none m = (some release_not_found, m)
delete_found (some r) m = (none, remove r.name m)

unfoldable pub delete_release : String → Store → Option StoreError × Store
unfolding delete_found
delete_release name m = delete_found (lookup name m) m

-- The loop of `GetRelease` compares the names of the releases, not the keys.
unfoldable pub get_release : String → Store → Found Release
get_release name [] = failed release_not_found
get_release name ((k, r) ∷ m) =
    let rest = get_release name m in if str_eq r.name name then found r else rest

unfoldable pub all_releases : Store → List Release
all_releases [] = []
all_releases ((k, r) ∷ m) = r ∷ all_releases m

keep_release :
    String → Release → Option PluginConfig → Option (List Release) → Option (List Release)
keep_release runtime r none rest = none
keep_release runtime r (some c) none = none
keep_release runtime r (some c) (some rs) = some (if str_eq c.name runtime then r ∷ rs else rs)

unfoldable pub releases_of : String → Store → Option (List Release)
unfolding keep_release
releases_of runtime [] = some []
releases_of runtime ((k, r) ∷ m) = keep_release runtime r r.runtime (releases_of runtime m)

-- `none` is a panic: the name of a nil runtime is read.
unfoldable pub list_releases : Option String → Store → Option (List Release)
unfolding all_releases releases_of
list_releases none m = some (all_releases m)
list_releases (some runtime) m = releases_of runtime m
