-- ===== src/Examples/Clusters.antt =====
-- A Kubernetes cluster and a Nomad cluster.
use consul_release_controlle.Prelude.{
  ◌≡◌, refl, ℕ, pos, String, none, some, List, [], ◌∷◌, Bool, true, false, str_eq,
}
use consul_release_controlle.Runtime.Platform.{Frames, ok, Deployment, version_label}
use consul_release_controlle.Kubernetes.{
  KubernetesDeployment, Answer, found, not_found, failed, kubernetes_client,
  get_healthy_kubernetes_deployment,
}
use consul_release_controlle.Kubernetes as K
use consul_release_controlle.Kubernetes.Contract.{Isolates, kubernetes_client-Frames}
use consul_release_controlle.Kubernetes.Lifetime.{kubernetes-untouched}
use consul_release_controlle.Runtime.{init_primary, promote_candidate}
use consul_release_controlle.Runtime.Lifetime.{target, perform, perform_all, Avoids}
use consul_release_controlle.Kubernetes.Health.{Seen, get_healthy_kubernetes_deployment-Seen}
use consul_release_controlle.Nomad.{
  Cluster, Allocation, are_healthy, get_job, clone_deployment, get_healthy_deployment,
}
use consul_release_controlle.Nomad.Tags.{Service, Job}
use consul_release_controlle.Nomad.Subsets.{IsClone, clone_deployment-IsClone}
use consul_release_controlle.Nomad.Timeout.{get_healthy_deployment-none}
use consul_release_controlle.Examples.Deployments.{
  Names, assign, view, apart, plugin, all_up, calls, primary_ne, candidate_ne,
}

abbrev running : String → String → KubernetesDeployment
running n s = record {
  name = n;
  namespace = s;
  resource_version = "7";
  labels = some [];
  replicas = pos 2;
  template = "web:1";
  available_replicas = pos 2;
  unavailable_replicas = pos 0;
}

abbrev look : Bool → String → String → Answer KubernetesDeployment
look true n s = found (running n s)
look false n s = not_found

abbrev cluster : K.Cluster Names
cluster = record {
  list = λ s w. (some [], w);
  get = λ n s w. (look (w n) n s, w);
  create = λ d w. (none, assign true d.name w);
  update = λ d w. (none, assign true d.name w);
  delete = λ n s w. (found tt, assign false n w);
  sleep = λ w. w;
  compile = λ t. some (str_eq t);
  has_suffix = str_eq;
}

look-named :
    (b : Bool) (n s : String) {d : KubernetesDeployment} → look b n s ≡ found d → d.name ≡ n
look-named true n s h = cc
look-named false n s h = cc

cluster-Isolates : (a b : String) → Isolates cluster (λ n s w. w) view a b
cluster-Isolates a b = record {
  get_named = λ n s w h. look-named (w n) n s h;
  get_keeps = λ n s w. refl;
  list_keeps = λ s w. refl;
  sleep_keeps = λ w. refl;
  state_keeps = λ n s w. refl;
  create_apart = λ d w h. apart true d.name a b w h;
  update_apart = λ d w h. apart true d.name a b w h;
  delete_apart = λ n s w h. apart false n a b w h;
}

kubernetes_client-Frames_example :
    Frames (kubernetes_client cluster 3 (λ n s w. w)) view "web" "default"
kubernetes_client-Frames_example =
    kubernetes_client-Frames cluster (λ n s w. w) view "web" "default"
      (cluster-Isolates "web" "default") 3

avoids : Avoids (kubernetes_client cluster 3 (λ n s w. w)) "db" calls plugin all_up
unfolding Avoids target perform kubernetes_client init_primary promote_candidate K.is_healthy
avoids = (primary_ne, (primary_ne, (candidate_ne, (candidate_ne, (primary_ne, tt)))))

kubernetes-untouched_example :
    view (perform_all (kubernetes_client cluster 3 (λ n s w. w)) calls plugin all_up) "db" "default"
    ≡ view all_up "db" "default"
kubernetes-untouched_example =
    kubernetes-untouched cluster (λ n s w. w) view "db" "default" 3
      (cluster-Isolates "db" "default") calls plugin all_up avoids

get_healthy_kubernetes_deployment-Seen_example :
    Seen cluster 2 "web" "default" (λ n. true) (running "web" "default")
unfolding get_healthy_kubernetes_deployment K.is_healthy
get_healthy_kubernetes_deployment-Seen_example =
    get_healthy_kubernetes_deployment-Seen cluster 2 "web" "default" (λ n. true)
      (running "web" "default") refl

-- A Nomad cluster whose only job has a service.
abbrev web_service : Service
web_service = record { name = "web"; tags = "v1" ∷ []; meta = none }

abbrev web_job : Job
web_job = record {
  id = "web";
  name = "web";
  namespace = "default";
  meta = none;
  version = 3;
  status = some "running";
  groups = record { first = record { count = pos 1; services = web_service ∷ [] }; others = [] };
}

abbrev starting : List Allocation
starting = record { desired_status = "run"; client_status = "pending" } ∷ []

abbrev nomad : Cluster ℕ
nomad = record {
  list = λ s w. (ok (record { id = "web"; name = "web" } ∷ []), w);
  info = λ id w. (ok web_job, w);
  register = λ j w. (none, w);
  deregister = λ id s w. (none, w);
  allocations = λ id s w. (ok starting, w);
  sleep = λ w. w;
  compile = λ t. some (λ n. true);
  has_suffix = str_eq;
  format_version = λ n. "3";
  parse_binary = λ t. 3;
}

abbrev web_deployment : Deployment
web_deployment = record {
  name = "web";
  namespace = "default";
  resource_version = "3";
  meta = some [];
  instances = pos 1;
}

abbrev web_primary : Deployment
web_primary = record {
  name = "web-primary";
  namespace = "default";
  resource_version = "";
  meta = some ((version_label, "1") ∷ []);
  instances = pos 2;
}

clone_deployment-IsClone_example :
    (j : Job) × (clone_deployment nomad web_deployment web_primary 0 ≡ nomad.register j 0)
    × IsClone web_primary web_job j
unfolding get_job
clone_deployment-IsClone_example =
    clone_deployment-IsClone nomad web_deployment web_primary web_job 0 0 refl

get_healthy_deployment-none_example :
    (get_healthy_deployment nomad 4 "web" "default" 0).0 ≡ (none, none)
unfolding get_job are_healthy
get_healthy_deployment-none_example =
    get_healthy_deployment-none nomad "web" "default" 4 0 web_job starting (λ v. refl) (λ v. refl)
      refl
