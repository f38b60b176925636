-- ===== src/Kubernetes.antt =====
-- pkg/clients/kubernetes.go: the deployments of a Kubernetes cluster as the runtime plugin sees them.
pub mod Contract
pub mod Health
pub mod Lifetime
use Prim.Native.String.{◌++◌ as append}
use consul_release_controlle.Prelude.{
  ℕ, zero, suc, ℤ, pos, leb_ℤ, ltb_ℤ, String, Option, none, some, List, [], ◌∷◌, Bool, true, false,
  not, ◌&&◌, if◌then◌else◌,
}
use consul_release_controlle.Runtime.Platform.{
  Err, deployment_not_found, deployment_not_healthy, message, wrapped, Result, ok, err, Meta, put,
  version_label, meta_or_empty, Called, replied, fails, panics, Deployment, Client,
}

-- appsv1.Deployment. `template` is all of the spec that the code only copies.
pub record KubernetesDeployment : Type 0 where
  pub name : String
  pub namespace : String
  pub resource_version : String
  pub labels : Option Meta
  pub replicas : ℤ
  pub template : String
  pub available_replicas : ℤ
  pub unavailable_replicas : ℤ

-- What a call for one deployment returns: `errors.IsNotFound`, another error, or none.
pub data Answer (A : Type 0) : Type 0 where
  found : A → Answer A
  not_found : Answer A
  failed : String → Answer A

-- `clientset.AppsV1().Deployments(namespace)` over a state `W`, with `regexp.Compile` and
-- `MatchString` of what it returns, and `strings.HasSuffix`.
pub record Cluster (W : Type 0) : Type 0 where
  pub list : String → W → Option (List KubernetesDeployment) × W
  pub get : String → String → W → Answer KubernetesDeployment × W
  pub create : KubernetesDeployment → W → Option String × W
  pub update : KubernetesDeployment → W → Option String × W
  pub delete : String → String → W → Answer Unit × W
  pub sleep : W → W
  pub compile : String → Option (String → Bool)
  pub has_suffix : String → String → Bool

-- What `GetKubernetesDeployment` and its variant with a selector return: a deployment; nil and an error;
-- or an error beside the empty deployment, without replicas, that the clientset returns with it.
pub data Reading : Type 0 where
  has : KubernetesDeployment → Reading
  lacks : Err → Reading
  blank : Err → Reading

abbrev pub to_deployment : KubernetesDeployment → Deployment
to_deployment d = record {
  name = d.name;
  namespace = d.namespace;
  resource_version = d.resource_version;
  meta = d.labels;
  instances = d.replicas;
}

-- The label that `UpsertKubernetesDeployment` sets.
abbrev pub stamped : KubernetesDeployment → KubernetesDeployment
stamped d = record d {
  labels = some (put version_label d.resource_version (meta_or_empty d.labels));
}

-- What `UpdateDeployment` and `CloneDeployment` write over the deployment that they have read.
abbrev pub overwritten : KubernetesDeployment → Deployment → KubernetesDeployment
overwritten k d = record k {
  labels = d.meta;
  resource_version = d.resource_version;
  replicas = d.instances;
}

-- The number of instances is not copied.
abbrev pub cloned : KubernetesDeployment → Deployment → KubernetesDeployment
cloned k d = record k {
  name = d.name;
  namespace = d.namespace;
  labels = d.meta;
  resource_version = d.resource_version;
}

-- The test of `GetHealthyKubernetesDeployment`. The comparison of two pointers in front of it,
-- `deployment.Spec.Replicas == &zero`, is false whatever the number of replicas is.
unfoldable pub is_healthy : KubernetesDeployment → Bool
is_healthy d = not (ltb_ℤ (pos 0) d.unavailable_replicas) && leb_ℤ (pos 1) d.available_replicas

abbrev pub written : Option String → Called Unit
written none = replied tt
written (some e) = fails (message e)

first_match : (String → Bool) → List KubernetesDeployment → Option String
first_match re [] = none
first_match re (d ∷ ds) = if re d.name then some d.name else first_match re ds

module _ {W : Type 0} (c : Cluster W) where
  answered : Answer KubernetesDeployment × W → Reading × W
  answered (found d, w) = (has d, w)
  answered (not_found, w) = (lacks deployment_not_found, w)
  answered (failed e, w) = (blank (message e), w)

  unfoldable pub get_kubernetes_deployment : String → String → W → Reading × W
  unfolding answered
  get_kubernetes_deployment name namespace w = answered (c.get name namespace w)

  anchored : String → String
  anchored selector = if c.has_suffix selector "$" then selector else append selector "$"

  matched : Option String → String → W → Reading × W
  unfolding get_kubernetes_deployment
  matched none namespace w = (lacks deployment_not_found, w)
  matched (some name) namespace w = get_kubernetes_deployment name namespace w

  compiled : Option (String → Bool) → String → List KubernetesDeployment → String → W → Reading × W
  unfolding matched first_match
  compiled none selector ds namespace w =
      (lacks (message (append "invalid regular expression for deployment selector: " selector)), w)
  compiled (some re) selector ds namespace w = matched (first_match re ds) namespace w

  listed : Option (List KubernetesDeployment) × W → String → String → Reading × W
  unfolding compiled anchored
  listed (none, w) selector namespace = (lacks deployment_not_found, w)
  listed (some ds, w) selector namespace =
      compiled (c.compile (anchored selector)) (anchored selector) ds namespace w

  unfoldable pub get_kubernetes_deployment_with_selector : String → String → W → Reading × W
  unfolding listed
  get_kubernetes_deployment_with_selector selector namespace w =
      listed (c.list namespace w) selector namespace

  ended : Option String × W → Called Unit × W
  ended (e, w) = (written e, w)

  -- The deployment is read by `GetDeployment`, which reads the replicas of a blank one.
  upsert_found : KubernetesDeployment → Reading × W → Called Unit × W
  unfolding ended
  upsert_found d (lacks deployment_not_found, w) = ended (c.create d w)
  upsert_found d (lacks e, w) = (fails e, w)
  upsert_found d (blank e, w) = (panics, w)
  upsert_found d (has existing, w) = ended (c.update d w)

  unfoldable pub upsert_kubernetes_deployment : KubernetesDeployment → W → Called Unit × W
  unfolding upsert_found get_kubernetes_deployment
  upsert_kubernetes_deployment d w =
      upsert_found (stamped d) (get_kubernetes_deployment d.name d.namespace w)

  deleted : Answer Unit × W → Option Err × W
  deleted (found u, w) = (none, w)
  deleted (not_found, w) = (some deployment_not_found, w)
  deleted (failed e, w) = (some (message e), w)

  unfoldable pub delete_deployment : String → String → W → Option Err × W
  unfolding deleted
  delete_deployment name namespace w = deleted (c.delete name namespace w)

  -- One attempt: the deployment if it is healthy, or the error that is kept as the last one.
  unfoldable pub attempted : Reading → Result KubernetesDeployment
  attempted (lacks e) = err e
  attempted (blank e) = err e
  attempted (has d) = if is_healthy d then ok d else err deployment_not_healthy

  retried :
      Result KubernetesDeployment × W
      → (W → Result KubernetesDeployment × W)
      → Result KubernetesDeployment × W
  retried (ok d, w) again = (ok d, w)
  retried (err e, w) again = again (c.sleep w)

  last_attempt : Reading × W → Result KubernetesDeployment × W
  unfolding attempted
  last_attempt (r, w) = (attempted r, w)

  -- `retry.Constant`: attempts at an interval, and the last error at the timeout. `n` attempts are
  -- made after the first.
  unfoldable pub get_healthy_kubernetes_deployment :
      ℕ → String → String → W → Result KubernetesDeployment × W
  unfolding last_attempt retried get_kubernetes_deployment
  get_healthy_kubernetes_deployment zero name namespace w =
      last_attempt (get_kubernetes_deployment name namespace w)
  get_healthy_kubernetes_deployment (suc n) name namespace w =
      retried (last_attempt (get_kubernetes_deployment name namespace w))
        (λ w'. get_healthy_kubernetes_deployment n name namespace w')

  -- `GetDeployment` and `GetDeploymentWithSelector`: the replicas of a deployment that is not nil are
  -- read, beside an error too.
  converted : Reading × W → Called (Option Deployment) × W
  converted (has d, w) = (replied (some (to_deployment d)), w)
  converted (lacks e, w) = (fails e, w)
  converted (blank e, w) = (panics, w)

  -- `GetHealthyDeployment`
  healthy_converted : Result KubernetesDeployment × W → Called (Option Deployment) × W
  healthy_converted (ok d, w) = (replied (some (to_deployment d)), w)
  healthy_converted (err e, w) = (fails e, w)

  update_found : Deployment → Reading × W → Called Unit × W
  unfolding upsert_kubernetes_deployment
  update_found d (lacks e, w) = (fails e, w)
  update_found d (blank e, w) = (fails e, w)
  update_found d (has k, w) = upsert_kubernetes_deployment (overwritten k d) w

  unfoldable pub update_deployment : Deployment → W → Called Unit × W
  unfolding update_found get_kubernetes_deployment
  update_deployment d w = update_found d (get_kubernetes_deployment d.name d.namespace w)

  clone_found : Deployment → Reading × W → Called Unit × W
  unfolding upsert_kubernetes_deployment
  clone_found d (lacks e, w) = (fails e, w)
  clone_found d (blank e, w) = (fails e, w)
  clone_found d (has k, w) = upsert_kubernetes_deployment (cloned k d) w

  unfoldable pub clone_deployment : Deployment → Deployment → W → Called Unit × W
  unfolding clone_found get_kubernetes_deployment
  clone_deployment existing d w =
      clone_found d (get_kubernetes_deployment existing.name existing.namespace w)

  -- The client that the runtime plugin is given, with the store that it saves its state to.
  unfoldable pub kubernetes_client : ℕ → (String → String → W → W) → Client W
  unfolding converted healthy_converted get_kubernetes_deployment
      get_kubernetes_deployment_with_selector update_deployment clone_deployment delete_deployment
      get_healthy_kubernetes_deployment
  kubernetes_client attempts upsert_state = record {
    get_deployment = λ n s w. converted (get_kubernetes_deployment n s w);
    get_deployment_with_selector =
        λ n s w. converted (get_kubernetes_deployment_with_selector n s w);
    update_deployment = update_deployment;
    clone_deployment = clone_deployment;
    delete_deployment = delete_deployment;
    get_healthy_deployment =
        λ n s w. healthy_converted (get_healthy_kubernetes_deployment attempts n s w);
    upsert_state = upsert_state;
  }
