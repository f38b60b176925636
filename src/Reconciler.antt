-- ===== src/Reconciler.antt =====
-- pkg/controllers/kubernetes/controllers/release_controller.go: Reconcile, updateRelease, deleteRelease.
-- The loop that waits for the end of a destroy is also that of `Delete` in
-- pkg/api/handlers/release.go.
pub mod Waiting
use consul_release_controlle.Prelude.{
  ℕ, zero, suc, String, Option, none, some, List, [], ◌∷◌, ◌++◌, Bool, true, false, ◌||◌,
  if◌then◌else◌, str_eq,
}
use consul_release_controlle.Interfaces.{State}
use consul_release_controlle.Release.{Release, current_state}
use consul_release_controlle.Storage.{
  StoreError, release_not_found, plugin_state_not_found, other, Found, found, failed,
}
use consul_release_controlle.Storage.Kv.{Result, ok, err}

abbrev pub finalizer_name : String
finalizer_name = "release.finalizers.consul-release-controller"

-- The resource of a release, as far as the reconciler reads it: its model is what `ConvertToModel`
-- makes of it.
pub record Resource : Type 0 where
  pub name : String
  pub generation : String
  pub is_deleted : Bool
  pub finalizers : List String
  pub model : Release

pub data Fetched : Type 0 where
  fetched : Resource → Fetched
  not_there : Fetched
  not_fetched : String → Fetched

-- What the reconciler is given, over state machines `M` and a state `W`: `Get` and `Update` of
-- Kubernetes, the store, the provider's state machines, `time.Sleep`, and whether the context that
-- `WithTimeout` makes in one state is done in another. Other goroutines run in the sleeps.
pub record Outside (M W : Type 0) : Type 0 where
  pub get_resource : String → W → Fetched × W
  pub update_resource : Resource → W → Option String × W
  pub get_release : String → W → Found Release × W
  pub upsert_release : Release → W → Option StoreError × W
  pub delete_release : String → W → Option StoreError × W
  pub get_state_machine : Release → W → Result M × W
  pub delete_state_machine : Release → W → W
  pub configure : M → W → Option String × W
  pub deploy : M → W → Option String × W
  pub destroy : M → W → Option String × W
  pub machine_state : M → W → State
  pub sleep : ℕ → W → W
  pub is_done : ℕ → W → W → Bool

unfoldable pub contains_string : List String → String → Bool
contains_string [] s = false
contains_string (x ∷ xs) s = str_eq x s || contains_string xs s

unfoldable pub remove_string : List String → String → List String
remove_string [] s = []
remove_string (x ∷ xs) s = let rest = remove_string xs s in if str_eq x s then rest else x ∷ rest

-- The text of an error of the store.
unfoldable pub store_error : Option StoreError → Option String
store_error none = none
store_error (some release_not_found) = some "release not found"
store_error (some plugin_state_not_found) = some "plugin state not found"
store_error (some (other e)) = some e

-- The state is neither idle nor failed; a release without a history has none.
unfoldable pub is_active : Option State → Bool
is_active (some State.idle) = false
is_active (some State.fail) = false
is_active d = true

-- What a deletion leaves to be done by a goroutine: the wait for the machine.
pub data Deletion (M : Type 0) : Type 0 where
  ended : Option String → Deletion M
  waits : Release → M → Deletion M

-- What a pass of the wait finds: the machine is idle, the wait is over, or it goes on.
pub data Look : Type 0 where
  idle_now : Look
  stop_now : Look
  wait_on : Look

unfoldable pub look : Bool → State → Look
look true d = stop_now
look false State.idle = idle_now
look false State.fail = stop_now
look false d = wait_on

module _ {M W : Type 0} (o : Outside M W) where
  -- The machine is idle after the destroy: it and the release are removed. An error is only logged.
  unfoldable pub removed : Release → W → W
  removed r w = (o.delete_release r.name (o.delete_state_machine r w)).1

  unfoldable pub went_on : Release → W → Look → Option W → Option W
  went_on r w idle_now rest = some (removed r w)
  went_on r w stop_now rest = some w
  went_on r w wait_on rest = rest

  -- The goroutine's loop, with fuel for its passes: `none` is out of fuel.
  unfoldable pub wait_destroyed : ℕ → Release → M → W → W → Option W
  wait_destroyed zero r m began w = none
  wait_destroyed (suc fuel) r m began w =
      let rest = wait_destroyed fuel r m began (o.sleep 2 w) in
      went_on r w (look (o.is_done 300 began w) (o.machine_state m w)) rest

  unfoldable pub destroy_begun : Release → M → Option String × W → Deletion M × W
  destroy_begun r m (some e, w) = (ended (some e), w)
  destroy_begun r m (none, w) = (waits r m, w)

  unfoldable pub destroy_machine : Release → Result M × W → Deletion M × W
  destroy_machine r (err e, w) = (ended (some e), w)
  destroy_machine r (ok m, w) = destroy_begun r m (o.destroy m w)

  unfoldable pub destroy_found : Found Release × W → Deletion M × W
  destroy_found (failed release_not_found, w) = (ended none, w)
  destroy_found (failed plugin_state_not_found, w) = (ended (some "plugin state not found"), w)
  destroy_found (failed (other e), w) = (ended (some e), w)
  destroy_found (found r, w) = destroy_machine r (o.get_state_machine r w)

  -- `deleteRelease`
  unfoldable pub delete_release : Resource → W → Deletion M × W
  delete_release rc w = destroy_found (o.get_release rc.name w)

  -- An error of `Deploy` is dropped.
  unfoldable pub deploy_if_idle : M → State → W → Option String × W
  deploy_if_idle m State.idle w = (none, (o.deploy m w).1)
  deploy_if_idle m d w = (none, w)

  unfoldable pub configured : M → Option String × W → Option String × W
  configured m (some e, w) = (some e, w)
  configured m (none, w) = deploy_if_idle m (o.machine_state m w) w

  unfoldable pub machine_made : Result M × W → Option String × W
  machine_made (err e, w) = (some e, w)
  machine_made (ok m, w) = configured m (o.configure m w)

  unfoldable pub upserted : Release → Option StoreError × W → Option String × W
  upserted r (some e, w) = (store_error (some e), w)
  upserted r (none, w) = machine_made (o.get_state_machine r (o.delete_state_machine r w))

  abbrev pub upsert : Resource → W → Option String × W
  upsert rc w = upserted rc.model (o.upsert_release rc.model w)

  -- A release that is there is updated if its version is another and it is not active.
  unfoldable pub update_found : Resource → Found Release × W → Option String × W
  update_found rc (failed e, w) = upsert rc w
  update_found rc (found r, w) =
      if str_eq r.version rc.generation
      then (none, w)
      else if is_active (current_state r)
      then (some "unable to update release, release currently active", w)
      else upsert rc w

  -- `updateRelease`
  unfoldable pub update_release : Resource → W → Option String × W
  update_release rc w = update_found rc (o.get_release rc.name w)

  -- The deletion's error is dropped; what it leaves to a goroutine is kept.
  unfoldable pub finalize : Resource → Deletion M × W → Option String × Deletion M × W
  finalize rc (d, w) =
      let (e, w') =
        o.update_resource (record rc { finalizers = remove_string rc.finalizers finalizer_name })
          w in
      (e, d, w')

  unfoldable pub deleting : Bool → Resource → W → Option String × Deletion M × W
  deleting true rc w = finalize rc (delete_release rc w)
  deleting false rc w = (none, ended none, w)

  abbrev pub no_deletion : Option String × W → Option String × Deletion M × W
  no_deletion (e, w) = (e, ended none, w)

  unfoldable pub adding : Bool → Resource → W → Option String × Deletion M × W
  adding true rc w = no_deletion (update_release rc w)
  adding false rc w =
      no_deletion
        (o.update_resource (record rc { finalizers = rc.finalizers ++ finalizer_name ∷ [] }) w)

  unfoldable pub reconcile_fetched : Fetched × W → Option String × Deletion M × W
  reconcile_fetched (not_there, w) = (none, ended none, w)
  reconcile_fetched (not_fetched e, w) = (some e, ended none, w)
  reconcile_fetched (fetched rc, w) =
      let owned = contains_string rc.finalizers finalizer_name in
      if rc.is_deleted then deleting owned rc w else adding owned rc w

  unfoldable pub reconcile : String → W → Option String × Deletion M × W
  reconcile name w = reconcile_fetched (o.get_resource name w)
