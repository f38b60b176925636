-- ===== src/Runtime/Untouched.antt =====
-- What creating and promoting leave alone: `InitPrimary` and `PromoteCandidate` of the runtime plugin
-- write to the primary deployment at most.
use Prim.Native.String.{◌++◌ as append}
use consul_release_controlle.Prelude.{◌≡◌, ◌≢◌, refl, ◌∙◌, String, Option, none, some}
use consul_release_controlle.Interfaces.{RuntimeDeploymentStatus}
use consul_release_controlle.Runtime.Platform.{
  Err, deployment_not_found, Called, replied, fails, panics, Deployment, Client, View, Frames,
}
use consul_release_controlle.Runtime.{
  Plugin, returned, shared_label, primary_of, init_primary, promote_candidate, init_healthy,
  init_cloned, init_candidate, init_primary_found, promote_healthy, promote_cloned, promote_deleted,
  promote_found, leave,
}

module _ {W : Type 0} (client : Client W) (view : View W) (a b : String)
    (f : Frames client view a b) where
  -- The deployment at the place in the state that an operation leaves.
  abbrev At : W → Option Deployment
  At w = view w a b

  init_healthy-At :
      (r : Called (Option Deployment)) (w : W) (p : Plugin)
      → At (init_healthy client (r, w) p).2 ≡ At w
  unfolding init_healthy
  init_healthy-At panics w p = f.state_apart _ _ w
  init_healthy-At (fails e) w p = f.state_apart _ _ w
  init_healthy-At (replied d) w p = f.state_apart _ _ w

  init_cloned-At :
      (e : Called Unit) (w : W) (p : Plugin) → At (init_cloned client (e, w) p).2 ≡ At w
  unfolding init_cloned
  init_cloned-At panics w p = f.state_apart _ _ w
  init_cloned-At (fails e) w p = f.state_apart _ _ w
  init_cloned-At (replied u) w p =
      let (r, w') = client.get_healthy_deployment p.primary_name p.namespace w in
      init_healthy-At r w' p ∙ f.healthy_reads _ _ w

  init_candidate-At :
      (r : Called (Option Deployment)) (w : W) (p : Plugin)
      → p.primary_name ≢ a
      → At (init_candidate client (r, w) p).2 ≡ At w
  unfolding init_candidate
  init_candidate-At panics w p h = f.state_apart _ _ w
  init_candidate-At (fails e) w p h = f.state_apart _ _ w
  init_candidate-At (replied none) w p h = f.state_apart _ _ w
  init_candidate-At (replied (some c)) w p h =
      let q = record p { candidate_name = c.name } in
      let (e, w') = client.clone_deployment (shared_label c) (primary_of q c) w in
      init_cloned-At e w' q ∙ f.clone_apart (shared_label c) (primary_of q c) w h

  init_primary_found-At :
      (r : Called (Option Deployment)) (w : W) (p : Plugin)
      → p.primary_name ≢ a
      → At (init_primary_found client (r, w) p).2 ≡ At w
  unfolding init_primary_found
  init_primary_found-At panics w p h = f.state_apart _ _ w
  init_primary_found-At (replied d) w p h = f.state_apart _ _ w
  init_primary_found-At (fails e) w p h =
      let (r, w') = client.get_deployment_with_selector p.deployment_selector p.namespace w in
      init_candidate-At r w' p h ∙ f.select_reads _ _ w

  -- `InitPrimary` writes no deployment but the release's primary.
  pub init_primary-untouched :
      (release_name : String) (p : Plugin) (w : W)
      → append release_name "-primary" ≢ a
      → view (init_primary client release_name p w).2 a b ≡ view w a b
  unfolding init_primary
  init_primary-untouched release_name p w h =
      let q = record p { primary_name = append release_name "-primary" } in
      let (r, w') = client.get_deployment q.primary_name q.namespace w in
      init_primary_found-At r w' q h ∙ f.get_reads _ _ w

  -- If the client finds the primary, `InitPrimary` writes no deployment at all, and reports no action
  -- without an error.
  pub init_primary-exists :
      (release_name : String) (p : Plugin) (w : W) {d : Option Deployment}
      → (client.get_deployment (append release_name "-primary") p.namespace w).0 ≡ replied d
      → ((init_primary client release_name p w).0 ≡ returned RuntimeDeploymentStatus.no_action none)
        × (view (init_primary client release_name p w).2 a b ≡ view w a b)
  unfolding init_primary init_primary_found leave
  init_primary-exists release_name p w h =
      rw (h, init_primary_found) (refl, f.state_apart _ _ _ ∙ f.get_reads _ _ w)

  promote_healthy-At :
      (r : Called (Option Deployment)) (w : W) (p : Plugin)
      → At (promote_healthy client (r, w) p).2 ≡ At w
  unfolding promote_healthy
  promote_healthy-At panics w p = f.state_apart _ _ w
  promote_healthy-At (fails e) w p = f.state_apart _ _ w
  promote_healthy-At (replied d) w p = f.state_apart _ _ w

  promote_cloned-At :
      (e : Called Unit) (w : W) (d : Deployment) (p : Plugin)
      → At (promote_cloned client (e, w) d p).2 ≡ At w
  unfolding promote_cloned
  promote_cloned-At panics w d p = f.state_apart _ _ w
  promote_cloned-At (fails e) w d p = f.state_apart _ _ w
  promote_cloned-At (replied u) w d p =
      let (r, w') = client.get_healthy_deployment p.primary_name d.namespace w in
      promote_healthy-At r w' p ∙ f.healthy_reads _ _ w

  promote_deleted-At :
      (e : Option Err) (w : W) (c : Option Deployment) (p : Plugin)
      → p.primary_name ≢ a
      → At (promote_deleted client (e, w) c p).2 ≡ At w
  unfolding promote_deleted
  promote_deleted-At (some e) w c p h = f.state_apart _ _ w
  promote_deleted-At none w none p h = f.state_apart _ _ w
  promote_deleted-At none w (some c) p h =
      let (e, w') = client.clone_deployment (shared_label c) (primary_of p c) w in
      promote_cloned-At e w' (primary_of p c) p
      ∙ f.clone_apart (shared_label c) (primary_of p c) w h

  promote_missing-At :
      (e : Err) (w : W) (p : Plugin) → At (promote_found client (fails e, w) p).2 ≡ At w
  unfolding promote_found
  promote_missing-At deployment_not_found w p = f.state_apart _ _ w
  promote_missing-At _ w p = f.state_apart _ _ w

  promote_found-At :
      (r : Called (Option Deployment)) (w : W) (p : Plugin)
      → p.primary_name ≢ a
      → At (promote_found client (r, w) p).2 ≡ At w
  unfolding promote_found
  promote_found-At panics w p h = f.state_apart _ _ w
  promote_found-At (fails e) w p h = promote_missing-At e w p
  promote_found-At (replied c) w p h =
      let (e, w') = client.delete_deployment p.primary_name p.namespace w in
      promote_deleted-At e w' c p h ∙ f.delete_apart _ _ w h

  -- `PromoteCandidate` writes no deployment but the primary.
  pub promote_candidate-untouched :
      (p : Plugin) (w : W)
      → p.primary_name ≢ a
      → view (promote_candidate client p w).2 a b ≡ view w a b
  unfolding promote_candidate
  promote_candidate-untouched p w h =
      let (r, w') = client.get_healthy_deployment p.candidate_name p.namespace w in
      promote_found-At r w' p h ∙ f.healthy_reads _ _ w
