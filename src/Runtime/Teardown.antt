-- ===== src/Runtime/Teardown.antt =====
-- What removing and restoring leave alone: `RemoveCandidate` and `RestoreOriginal` of the runtime
-- plugin write to the candidate deployment at most, `RemovePrimary` to the primary.
use consul_release_controlle.Prelude.{◌≡◌, ◌≢◌, ◌∙◌, refl, String, Option, none, some}
use consul_release_controlle.Runtime.Platform.{
  Err, deployment_not_found, Called, replied, fails, panics, Deployment, Client, View, Frames,
}
use consul_release_controlle.Runtime.{
  Plugin, remove_scaled, restore_healthy, remove_candidate, restore_original, remove_primary,
  remove_found, unlabelled, restore_cloned, restore_clone, restore_deleted, restore_found,
  remove_deleted,
}

module _ {W : Type 0} (client : Client W) (view : View W) (a b : String)
    (f : Frames client view a b) where
  abbrev At : W → Option Deployment
  At w = view w a b

  remove_scaled-At :
      (r : Called Unit) (w : W) (p : Plugin) → At (remove_scaled client (r, w) p).1 ≡ At w
  unfolding remove_scaled
  remove_scaled-At panics w p = f.state_apart _ _ w
  remove_scaled-At (fails e) w p = f.state_apart _ _ w
  remove_scaled-At (replied u) w p = f.state_apart _ _ w

  remove_found-At :
      (r : Called (Option Deployment)) (w : W) (p : Plugin)
      → ((d : Deployment) → r ≡ replied (some d) → d.name ≢ a)
      → At (remove_found client (r, w) p).1 ≡ At w
  unfolding remove_found
  remove_found-At (fails deployment_not_found) w p h = f.state_apart _ _ w
  remove_found-At (replied none) w p h = f.state_apart _ _ w
  remove_found-At (replied (some d)) w p h = remove_scaled-At _ _ p ∙ f.update_apart _ w (h d refl)
  remove_found-At _ w p h = f.state_apart _ _ w

  -- `RemoveCandidate` writes no deployment but the candidate.
  pub remove_candidate-untouched :
      (p : Plugin) (w : W)
      → p.candidate_name ≢ a
      → view (remove_candidate client p w).1 a b ≡ view w a b
  unfolding remove_candidate
  remove_candidate-untouched p w h =
      let (r, w') = client.get_deployment p.candidate_name p.namespace w in
      remove_found-At r w' p (λ d found same. h (named d found same)) ∙ f.get_reads _ _ w
    where
      named :
          (d : Deployment)
          → (client.get_deployment p.candidate_name p.namespace w).0 ≡ replied (some d)
          → d.name ≡ a
          → p.candidate_name ≡ a
      named d found same = rw (← f.get_named p.candidate_name p.namespace w found) same

  restore_healthy-At :
      (r : Called (Option Deployment)) (w : W) (p : Plugin)
      → At (restore_healthy client (r, w) p).1 ≡ At w
  unfolding restore_healthy
  restore_healthy-At panics w p = f.state_apart _ _ w
  restore_healthy-At (fails e) w p = f.state_apart _ _ w
  restore_healthy-At (replied d) w p = f.state_apart _ _ w

  restore_cloned-At :
      (e : Called Unit) (w : W) (c : Deployment) (p : Plugin)
      → At (restore_cloned client (e, w) c p).1 ≡ At w
  unfolding restore_cloned
  restore_cloned-At panics w c p = f.state_apart _ _ w
  restore_cloned-At (fails e) w c p = f.state_apart _ _ w
  restore_cloned-At (replied u) w c p = restore_healthy-At _ _ p ∙ f.healthy_reads _ _ w

  restore_clone-At :
      (d : Option Deployment) (p : Plugin) (w : W)
      → p.candidate_name ≢ a
      → At (restore_clone client d p w).1 ≡ At w
  unfolding restore_clone
  restore_clone-At none p w h = f.state_apart _ _ w
  restore_clone-At (some d) p w h =
      let original = unlabelled d in
      let c = record original { name = p.candidate_name; resource_version = "" } in
      let (e, w') = client.clone_deployment original c w in
      restore_cloned-At e w' c p ∙ f.clone_apart original c w h

  restore_deleted-At :
      (e : Option Err) (w : W) (d : Option Deployment) (p : Plugin)
      → p.candidate_name ≢ a
      → At (restore_deleted client (e, w) d p).1 ≡ At w
  unfolding restore_deleted
  restore_deleted-At none w d p h = restore_clone-At d p w h
  restore_deleted-At (some deployment_not_found) w d p h = restore_clone-At d p w h
  restore_deleted-At (some _) w d p h = f.state_apart _ _ w

  restore_found-At :
      (r : Called (Option Deployment)) (w : W) (p : Plugin)
      → p.candidate_name ≢ a
      → At (restore_found client (r, w) p).1 ≡ At w
  unfolding restore_found
  restore_found-At (fails deployment_not_found) w p h = f.state_apart _ _ w
  restore_found-At (replied d) w p h =
      let (e, w') = client.delete_deployment p.candidate_name p.namespace w in
      restore_deleted-At e w' d p h ∙ f.delete_apart _ _ w h
  restore_found-At _ w p h = f.state_apart _ _ w

  -- `RestoreOriginal` writes no deployment but the candidate, so the primary that it copies stays.
  pub restore_original-untouched :
      (p : Plugin) (w : W)
      → p.candidate_name ≢ a
      → view (restore_original client p w).1 a b ≡ view w a b
  unfolding restore_original
  restore_original-untouched p w h =
      let (r, w') = client.get_deployment p.primary_name p.namespace w in
      restore_found-At r w' p h ∙ f.get_reads _ _ w

  restore_missing-At :
      (e : Err) (w : W) (p : Plugin) → At (restore_found client (fails e, w) p).1 ≡ At w
  unfolding restore_found
  restore_missing-At deployment_not_found w p = f.state_apart _ _ w
  restore_missing-At _ w p = f.state_apart _ _ w

  -- If the client does not find the primary, or fails to read it, `RestoreOriginal` writes no
  -- deployment at all.
  pub restore_original-missing :
      (p : Plugin) (w : W) {e : Err}
      → (client.get_deployment p.primary_name p.namespace w).0 ≡ fails e
      → view (restore_original client p w).1 a b ≡ view w a b
  unfolding restore_original
  restore_original-missing p w {e} h =
      rw (h, restore_found) (restore_missing-At e _ p ∙ f.get_reads _ _ w)

  remove_deleted-At :
      (e : Option Err) (w : W) (p : Plugin) → At (remove_deleted client (e, w) p).1 ≡ At w
  unfolding remove_deleted
  remove_deleted-At (some deployment_not_found) w p = f.state_apart _ _ w
  remove_deleted-At _ w p = f.state_apart _ _ w

  -- `RemovePrimary` writes no deployment but the primary.
  pub remove_primary-untouched :
      (p : Plugin) (w : W)
      → p.primary_name ≢ a
      → view (remove_primary client p w).1 a b ≡ view w a b
  unfolding remove_primary
  remove_primary-untouched p w h =
      let (e, w') = client.delete_deployment p.primary_name p.namespace w in
      remove_deleted-At e w' p ∙ f.delete_apart _ _ w h
