-- ===== src/Runtime.antt =====
-- pkg/plugins/runtime/plugin.go: the runtime plugin, over the client of a platform.
pub mod Platform
pub mod Untouched
pub mod Promotion
pub mod Teardown
pub mod Lifetime
pub mod Configure
use Prim.Native.String.{◌++◌ as append}
use consul_release_controlle.Prelude.{ℤ, pos, String, Option, none, some}
use consul_release_controlle.Interfaces.{RuntimeDeploymentStatus}
use Platform.{
  Err, deployment_not_found, wrapped, Called, replied, fails, panics, Deployment, version_label,
  put, delete, meta_or_empty, Client,
}

-- The configuration and the state that `Plugin` holds.
pub record Plugin : Type 0 where
  pub deployment_selector : String
  pub namespace : String
  pub candidate_name : String
  pub primary_name : String

-- How an operation ends: it returns, or it panics, itself or in a call of the client.
pub data Returned : Type 0 where
  returned : RuntimeDeploymentStatus → Option Err → Returned
  panicked : Returned

pub data End : Type 0 where
  ends : Option Err → End
  crashes : End

abbrev pub Outcome : Type 0 → Type 0
Outcome W = Returned × Plugin × W

abbrev pub Ended : Type 0 → Type 0
Ended W = End × W

-- The labels of a deployment after `Meta[RuntimeDeploymentVersionLabel] = v`, with a new map if
-- there was none.
abbrev pub labelled : String → Deployment → Deployment
labelled v d = record d { meta = some (put version_label v (meta_or_empty d.meta)) }

-- The new primary takes the candidate's map, if it has one, so writing to the one writes to both.
abbrev shared_label : Deployment → Deployment
shared_label c = record c {
  meta = elim c.meta [ none ↦ none | some m ↦ some (put version_label "1" m) ];
}

abbrev primary_of : Plugin → Deployment → Deployment
primary_of p c = labelled "1" (record c { name = p.primary_name; resource_version = "" })

-- Deleting from the shared map deletes from the primary's too.
abbrev unlabelled : Deployment → Deployment
unlabelled d = record d {
  meta = elim d.meta [ none ↦ none | some m ↦ some (delete version_label m) ];
}

module _ {W : Type 0} (client : Client W) where
  unfoldable pub save_state : Plugin → W → W
  save_state p w = client.upsert_state p.candidate_name p.primary_name w

  -- A return, with the deferred `saveState`.
  unfoldable pub leave : RuntimeDeploymentStatus → Option Err → Plugin → W → Outcome W
  unfolding save_state
  leave status e p w = (returned status e, p, save_state p w)

  -- A panic, which runs the deferred `saveState` too.
  unfoldable pub crash : Plugin → W → Outcome W
  unfolding save_state
  crash p w = (panicked, p, save_state p w)

  unfoldable pub leave_with : Option Err → Plugin → W → Ended W
  unfolding save_state
  leave_with e p w = (ends e, save_state p w)

  unfoldable pub crash_with : Plugin → W → Ended W
  unfolding save_state
  crash_with p w = (crashes, save_state p w)

  init_healthy : Called (Option Deployment) × W → Plugin → Outcome W
  unfolding leave crash
  init_healthy (panics, w) p = crash p w
  init_healthy (fails e, w) p = leave RuntimeDeploymentStatus.internal_error (some e) p w
  init_healthy (replied d, w) p = leave RuntimeDeploymentStatus.update none p w

  init_cloned : Called Unit × W → Plugin → Outcome W
  unfolding leave crash init_healthy
  init_cloned (panics, w) p = crash p w
  init_cloned (fails e, w) p =
      leave RuntimeDeploymentStatus.internal_error (some (wrapped "unable to clone deployment" e)) p
        w
  init_cloned (replied u, w) p =
      init_healthy (client.get_healthy_deployment p.primary_name p.namespace w) p

  init_candidate : Called (Option Deployment) × W → Plugin → Outcome W
  unfolding leave crash init_cloned
  init_candidate (panics, w) p = crash p w
  init_candidate (fails e, w) p = leave RuntimeDeploymentStatus.no_action none p w
  init_candidate (replied none, w) p = leave RuntimeDeploymentStatus.no_action none p w
  init_candidate (replied (some c), w) p =
      let q = record p { candidate_name = c.name } in
      init_cloned (client.clone_deployment (shared_label c) (primary_of q c) w) q

  init_primary_found : Called (Option Deployment) × W → Plugin → Outcome W
  unfolding leave crash init_candidate
  init_primary_found (panics, w) p = crash p w
  init_primary_found (replied d, w) p = leave RuntimeDeploymentStatus.no_action none p w
  init_primary_found (fails e, w) p =
      init_candidate (client.get_deployment_with_selector p.deployment_selector p.namespace w) p

  unfoldable pub init_primary : String → Plugin → W → Outcome W
  unfolding init_primary_found
  init_primary release_name p w =
      let q = record p { primary_name = append release_name "-primary" } in
      init_primary_found (client.get_deployment q.primary_name q.namespace w) q

  promote_healthy : Called (Option Deployment) × W → Plugin → Outcome W
  unfolding leave crash
  promote_healthy (panics, w) p = crash p w
  promote_healthy (fails e, w) p =
      leave RuntimeDeploymentStatus.internal_error (some (wrapped "deployment not healthy" e)) p w
  promote_healthy (replied d, w) p = leave RuntimeDeploymentStatus.update none p w

  promote_cloned : Called Unit × W → Deployment → Plugin → Outcome W
  unfolding leave crash promote_healthy
  promote_cloned (panics, w) primary p = crash p w
  promote_cloned (fails e, w) primary p =
      leave RuntimeDeploymentStatus.internal_error (some (wrapped "unable to clone deployment" e)) p
        w
  promote_cloned (replied u, w) primary p =
      promote_healthy (client.get_healthy_deployment p.primary_name primary.namespace w) p

  -- The candidate is read only after the primary was deleted.
  promote_deleted : Option Err × W → Option Deployment → Plugin → Outcome W
  unfolding leave crash promote_cloned
  promote_deleted (some e, w) c p =
      leave RuntimeDeploymentStatus.internal_error
        (some (wrapped "unable to remove previous primary deployment" e)) p w
  promote_deleted (none, w) none p = crash p w
  promote_deleted (none, w) (some c) p =
      promote_cloned (client.clone_deployment (shared_label c) (primary_of p c) w) (primary_of p c)
        p

  promote_found : Called (Option Deployment) × W → Plugin → Outcome W
  unfolding leave crash promote_deleted
  promote_found (panics, w) p = crash p w
  promote_found (fails deployment_not_found, w) p = leave RuntimeDeploymentStatus.not_found none p w
  promote_found (fails e, w) p = leave RuntimeDeploymentStatus.internal_error (some e) p w
  promote_found (replied c, w) p =
      promote_deleted (client.delete_deployment p.primary_name p.namespace w) c p

  unfoldable pub promote_candidate : Plugin → W → Outcome W
  unfolding promote_found
  promote_candidate p w =
      promote_found (client.get_healthy_deployment p.candidate_name p.namespace w) p

  remove_scaled : Called Unit × W → Plugin → Ended W
  unfolding leave_with crash_with
  remove_scaled (panics, w) p = crash_with p w
  remove_scaled (fails e, w) p = leave_with (some e) p w
  remove_scaled (replied u, w) p = leave_with none p w

  remove_found : Called (Option Deployment) × W → Plugin → Ended W
  unfolding leave_with crash_with remove_scaled
  remove_found (panics, w) p = crash_with p w
  remove_found (fails deployment_not_found, w) p = leave_with none p w
  remove_found (fails e, w) p = leave_with (some e) p w
  remove_found (replied none, w) p = crash_with p w
  remove_found (replied (some d), w) p =
      let scaled = labelled d.resource_version (record d { instances = pos 0 }) in
      remove_scaled (client.update_deployment scaled w) p

  unfoldable pub remove_candidate : Plugin → W → Ended W
  unfolding remove_found
  remove_candidate p w = remove_found (client.get_deployment p.candidate_name p.namespace w) p

  restore_healthy : Called (Option Deployment) × W → Plugin → Ended W
  unfolding leave_with crash_with
  restore_healthy (panics, w) p = crash_with p w
  restore_healthy (fails e, w) p = leave_with (some e) p w
  restore_healthy (replied d, w) p = leave_with none p w

  restore_cloned : Called Unit × W → Deployment → Plugin → Ended W
  unfolding leave_with crash_with restore_healthy
  restore_cloned (panics, w) c p = crash_with p w
  restore_cloned (fails e, w) c p = leave_with (some e) p w
  restore_cloned (replied u, w) c p =
      restore_healthy (client.get_healthy_deployment c.name c.namespace w) p

  -- The primary is read only after the candidate was deleted.
  restore_clone : Option Deployment → Plugin → W → Ended W
  unfolding crash_with restore_cloned
  restore_clone none p w = crash_with p w
  restore_clone (some d) p w =
      let original = unlabelled d in
      let c = record original { name = p.candidate_name; resource_version = "" } in
      restore_cloned (client.clone_deployment original c w) c p

  restore_deleted : Option Err × W → Option Deployment → Plugin → Ended W
  unfolding leave_with restore_clone
  restore_deleted (none, w) d p = restore_clone d p w
  restore_deleted (some deployment_not_found, w) d p = restore_clone d p w
  restore_deleted (some e, w) d p =
      leave_with (some (wrapped "unable to remove previous candidate deployment" e)) p w

  restore_found : Called (Option Deployment) × W → Plugin → Ended W
  unfolding leave_with crash_with restore_deleted
  restore_found (panics, w) p = crash_with p w
  restore_found (fails deployment_not_found, w) p = leave_with none p w
  restore_found (fails e, w) p = leave_with (some e) p w
  restore_found (replied d, w) p =
      restore_deleted (client.delete_deployment p.candidate_name p.namespace w) d p

  unfoldable pub restore_original : Plugin → W → Ended W
  unfolding restore_found
  restore_original p w = restore_found (client.get_deployment p.primary_name p.namespace w) p

  remove_deleted : Option Err × W → Plugin → Ended W
  unfolding leave_with
  remove_deleted (some deployment_not_found, w) p = leave_with none p w
  remove_deleted (e, w) p = leave_with e p w

  unfoldable pub remove_primary : Plugin → W → Ended W
  unfolding remove_deleted
  remove_primary p w = remove_deleted (client.delete_deployment p.primary_name p.namespace w) p
