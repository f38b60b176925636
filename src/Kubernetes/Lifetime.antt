-- ===== src/Kubernetes/Lifetime.antt =====
-- The runtime plugin over the Kubernetes client.
use consul_release_controlle.Prelude.{◌≡◌, ℕ, String, List}
use consul_release_controlle.Runtime.Platform.{View}
use consul_release_controlle.Runtime.{Plugin}
use consul_release_controlle.Runtime.Lifetime.{
  Operation, Avoids, perform_all, perform_all-untouched,
}
use consul_release_controlle.Kubernetes.{Cluster, kubernetes_client}
use consul_release_controlle.Kubernetes.Contract.{Isolates, kubernetes_client-Frames}

-- If the cluster's API leaves a place alone in calls for other names, then every sequence of operations
-- of the runtime plugin over the Kubernetes client leaves the deployment at the place as it was,
-- provided that none of them has its name as the target.
pub kubernetes-untouched :
    {W : Type 0} (c : Cluster W) (upsert_state : String → String → W → W) (view : View W)
    (a b : String) (attempts : ℕ)
    → Isolates c upsert_state view a b
    → (os : List Operation) (p : Plugin) (w : W)
    → Avoids (kubernetes_client c attempts upsert_state) a os p w
    → view (perform_all (kubernetes_client c attempts upsert_state) os p w) a b ≡ view w a b
kubernetes-untouched c upsert_state view a b attempts laws os p w =
    perform_all-untouched (kubernetes_client c attempts upsert_state) view a b
      (kubernetes_client-Frames c upsert_state view a b laws attempts) os p w
