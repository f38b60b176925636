-- ===== src/Runtime/Promotion.antt =====
-- What PromoteCandidate of the runtime plugin does without a healthy candidate.
use consul_release_controlle.Prelude.{◌≡◌, ◌≢◌, String, Option, none, some}
use consul_release_controlle.Interfaces.{RuntimeDeploymentStatus}
use consul_release_controlle.Runtime.Platform.{
  Err, deployment_not_found, wrapped, Called, replied, fails, panics, Deployment, Client, View,
}
use consul_release_controlle.Runtime.{Plugin, Outcome, returned, panicked, save_state}

module _ {W : Type 0} (client : Client W) (view : View W) (a b : String) where
  -- What the client answers for the candidate, and where it leaves the outside.
  abbrev candidate : Plugin → W → Called (Option Deployment) × W
  candidate p w = client.get_healthy_deployment p.candidate_name p.namespace w

  -- The deletion of the primary.
  abbrev deletion : Plugin → W → Option Err × W
  deletion p w = client.delete_deployment p.primary_name p.namespace (candidate p w).1

  -- How the operation ends for each answer of the client but a deployment. An error or a panic of the
  -- client leaves the deployment of the place alone; nil without an error deletes the primary, and then
  -- the nil candidate is read.
  pub data WithoutCandidate (p : Plugin) (w : W) : Outcome W → Type 0 where
    not_found :
        {v : W}
        → (candidate p w).0 ≡ fails deployment_not_found
        → view v a b ≡ view w a b
        → WithoutCandidate p w (returned RuntimeDeploymentStatus.not_found none, p, v)
    failed :
        {e : Err} {v : W}
        → (candidate p w).0 ≡ fails e
        → e ≢ deployment_not_found
        → view v a b ≡ view w a b
        → WithoutCandidate p w (returned RuntimeDeploymentStatus.internal_error (some e), p, v)
    client_panicked :
        {v : W}
        → (candidate p w).0 ≡ panics
        → view v a b ≡ view w a b
        → WithoutCandidate p w (panicked, p, v)
    not_deleted :
        {e : Err} {v : W}
        → (candidate p w).0 ≡ replied none
        → deletion p w ≡ (some e, v)
        → WithoutCandidate p w (
          returned RuntimeDeploymentStatus.internal_error
              (some (wrapped "unable to remove previous primary deployment" e)),
          p,
          save_state client p v,
        )
    lost :
        {v : W}
        → (candidate p w).0 ≡ replied none
        → deletion p w ≡ (none, v)
        → WithoutCandidate p w (panicked, p, save_state client p v)
