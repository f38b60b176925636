-- ===== src/Kubernetes/Contract.antt =====
-- The Kubernetes client keeps to what the runtime plugin relies on.
use consul_release_controlle.Prelude.{
  ◌≡◌, ◌≢◌, refl, sym, ◌∙◌, ap, Bool, ℕ, zero, suc, String, Option, none, some, List,
}
use consul_release_controlle.Runtime.Platform.{
  replied, deployment_not_found, Result, ok, err, Deployment, View, Frames,
}
use consul_release_controlle.Kubernetes.{
  KubernetesDeployment, Reading, has, lacks, blank, Answer, found, not_found, failed, Cluster,
  stamped, overwritten, cloned, answered, get_kubernetes_deployment, matched, compiled, listed,
  get_kubernetes_deployment_with_selector, upsert_found, upsert_kubernetes_deployment, deleted,
  delete_deployment, last_attempt, retried, get_healthy_kubernetes_deployment, converted,
  healthy_converted, update_found, update_deployment, clone_found, clone_deployment,
  kubernetes_client, ended,
}

-- The behaviour of the cluster's API on one place, a name and a namespace: a deployment that is read
-- has the name that was asked for, reading and waiting change nothing, and a write for another name
-- leaves the place alone. `upsert_state` is that of the plugin's store.
pub record Isolates {W : Type 0} (c : Cluster W) (upsert_state : String → String → W → W)
    (view : View W) (a b : String) : Type 0 where
  pub get_named :
      (n s : String) (w : W) {d : KubernetesDeployment} → (c.get n s w).0 ≡ found d → d.name ≡ n
  pub get_keeps : (n s : String) (w : W) → view (c.get n s w).1 a b ≡ view w a b
  pub list_keeps : (s : String) (w : W) → view (c.list s w).1 a b ≡ view w a b
  pub sleep_keeps : (w : W) → view (c.sleep w) a b ≡ view w a b
  pub state_keeps : (n s : String) (w : W) → view (upsert_state n s w) a b ≡ view w a b
  pub create_apart :
      (d : KubernetesDeployment) (w : W) → d.name ≢ a → view (c.create d w).1 a b ≡ view w a b
  pub update_apart :
      (d : KubernetesDeployment) (w : W) → d.name ≢ a → view (c.update d w).1 a b ≡ view w a b
  pub delete_apart : (n s : String) (w : W) → n ≢ a → view (c.delete n s w).1 a b ≡ view w a b

module _ {W : Type 0} (c : Cluster W) (upsert_state : String → String → W → W) (view : View W)
    (a b : String) (laws : Isolates c upsert_state view a b) where
  abbrev At : W → Option Deployment
  At w = view w a b

  answered-world : (r : Answer KubernetesDeployment × W) → (answered c r).1 ≡ r.1
  unfolding answered
  answered-world (found d, w) = refl
  answered-world (not_found, w) = refl
  answered-world (failed e, w) = refl

  get-At : (n s : String) (w : W) → At (get_kubernetes_deployment c n s w).1 ≡ At w
  unfolding get_kubernetes_deployment
  get-At n s w = ap At (answered-world (c.get n s w)) ∙ laws.get_keeps n s w

  answered-found :
      (r : Answer KubernetesDeployment × W) (d : KubernetesDeployment)
      → (answered c r).0 ≡ has d
      → r.0 ≡ found d
  unfolding answered
  answered-found (found x, w) d h = cc
  answered-found (not_found, w) d h = cc
  answered-found (failed e, w) d h = cc

  get-named :
      (n s : String) (w : W) (d : KubernetesDeployment)
      → (get_kubernetes_deployment c n s w).0 ≡ has d
      → d.name ≡ n
  unfolding get_kubernetes_deployment
  get-named n s w d h = laws.get_named n s w (answered-found (c.get n s w) d h)

  matched-At : (o : Option String) (s : String) (w : W) → At (matched c o s w).1 ≡ At w
  unfolding matched
  matched-At none s w = refl
  matched-At (some n) s w = get-At n s w

  compiled-At :
      (o : Option (String → Bool)) (selector : String) (ds : List KubernetesDeployment) (s : String)
      (w : W)
      → At (compiled c o selector ds s w).1 ≡ At w
  unfolding compiled
  compiled-At none selector ds s w = refl
  compiled-At (some re) selector ds s w = matched-At _ s w

  listed-At :
      (r : Option (List KubernetesDeployment) × W) (n s : String) → At (listed c r n s).1 ≡ At r.1
  unfolding listed
  listed-At (none, w) n s = refl
  listed-At (some ds, w) n s = compiled-At _ _ ds s w

  select-At : (n s : String) (w : W) → At (get_kubernetes_deployment_with_selector c n s w).1 ≡ At w
  unfolding get_kubernetes_deployment_with_selector
  select-At n s w = listed-At (c.list s w) n s ∙ laws.list_keeps s w

  upsert_found-At :
      (d : KubernetesDeployment) (r : Reading × W) → d.name ≢ a → At (upsert_found c d r).1 ≡ At r.1
  unfolding upsert_found ended
  upsert_found-At d (has k, w) h = laws.update_apart d w h
  upsert_found-At d (lacks deployment_not_found, w) h = laws.create_apart d w h
  upsert_found-At d (lacks _, w) h = refl
  upsert_found-At d (blank e, w) h = refl

  upsert-At :
      (d : KubernetesDeployment) (w : W)
      → d.name ≢ a
      → At (upsert_kubernetes_deployment c d w).1 ≡ At w
  unfolding upsert_kubernetes_deployment
  upsert-At d w h = upsert_found-At (stamped d) _ h ∙ get-At d.name d.namespace w

  update_found-At :
      (d : Deployment) (r : Reading × W)
      → ((k : KubernetesDeployment) → r.0 ≡ has k → k.name ≢ a)
      → At (update_found c d r).1 ≡ At r.1
  unfolding update_found
  update_found-At d (lacks e, w) h = refl
  update_found-At d (blank e, w) h = refl
  update_found-At d (has k, w) h = upsert-At (overwritten k d) w (h k refl)

  update-At : (d : Deployment) (w : W) → d.name ≢ a → At (update_deployment c d w).1 ≡ At w
  unfolding update_deployment
  update-At d w h =
      update_found-At d (get_kubernetes_deployment c d.name d.namespace w)
        (λ k q same. h (sym (get-named d.name d.namespace w k q) ∙ same))
      ∙ get-At d.name d.namespace w

  clone_found-At :
      (d : Deployment) (r : Reading × W) → d.name ≢ a → At (clone_found c d r).1 ≡ At r.1
  unfolding clone_found
  clone_found-At d (lacks e, w) h = refl
  clone_found-At d (blank e, w) h = refl
  clone_found-At d (has k, w) h = upsert-At (cloned k d) w h

  deleted-world : (r : Answer Unit × W) → (deleted c r).1 ≡ r.1
  unfolding deleted
  deleted-world (found u, w) = refl
  deleted-world (not_found, w) = refl
  deleted-world (failed e, w) = refl

  retried-At :
      (r : Result KubernetesDeployment × W) (again : W → Result KubernetesDeployment × W)
      → ((w : W) → At (again w).1 ≡ At w)
      → At (retried c r again).1 ≡ At r.1
  unfolding retried
  retried-At (ok d, w) again h = refl
  retried-At (err e, w) again h = h (c.sleep w) ∙ laws.sleep_keeps w

  healthy-At :
      (k : ℕ) (n s : String) (w : W) → At (get_healthy_kubernetes_deployment c k n s w).1 ≡ At w
  unfolding get_healthy_kubernetes_deployment last_attempt
  healthy-At zero n s w = get-At n s w
  healthy-At (suc k) n s w =
      retried-At (last_attempt c (get_kubernetes_deployment c n s w)) _ (healthy-At k n s)
      ∙ get-At n s w

  converted-world : (r : Reading × W) → (converted c r).1 ≡ r.1
  unfolding converted
  converted-world (has d, w) = refl
  converted-world (lacks e, w) = refl
  converted-world (blank e, w) = refl

  healthy_converted-world : (r : Result KubernetesDeployment × W) → (healthy_converted c r).1 ≡ r.1
  unfolding healthy_converted
  healthy_converted-world (ok d, w) = refl
  healthy_converted-world (err e, w) = refl

  converted-named :
      (n : String) (r : Reading × W) (d : Deployment)
      → ((k : KubernetesDeployment) → r.0 ≡ has k → k.name ≡ n)
      → (converted c r).0 ≡ replied (some d)
      → d.name ≡ n
  unfolding converted
  converted-named n (has k, w) d h q = cc (h k refl)
  converted-named n (lacks e, w) d h q = cc
  converted-named n (blank e, w) d h q = cc

  -- If the cluster's API leaves the place alone in calls for other names, then the Kubernetes client
  -- behaves as the runtime plugin relies on: it reads what was asked for, reading and waiting for
  -- health change nothing, and no write for another name changes the place.
  pub kubernetes_client-Frames :
      (attempts : ℕ) → Frames (kubernetes_client c attempts upsert_state) view a b
  unfolding kubernetes_client delete_deployment clone_deployment
  kubernetes_client-Frames attempts = record {
    get_named =
        λ n s w {d} h. converted-named n (get_kubernetes_deployment c n s w) d (get-named n s w) h;
    get_reads = λ n s w. ap At (converted-world (get_kubernetes_deployment c n s w)) ∙ get-At n s w;
    select_reads = λ n s w.
        ap At (converted-world (get_kubernetes_deployment_with_selector c n s w)) ∙ select-At n s w;
    healthy_reads = λ n s w.
        ap At (healthy_converted-world (get_healthy_kubernetes_deployment c attempts n s w))
        ∙ healthy-At attempts n s w;
    state_apart = laws.state_keeps;
    update_apart = update-At;
    clone_apart = λ x d w h.
        clone_found-At d (get_kubernetes_deployment c x.name x.namespace w) h
        ∙ get-At x.name x.namespace w;
    delete_apart = λ n s w h. ap At (deleted-world (c.delete n s w)) ∙ laws.delete_apart n s w h;
  }
