-- ===== src/Kubernetes/Health.antt =====
-- What the Kubernetes client waits for, and what it writes.
use consul_release_controlle.Prelude.{
  ◌≡◌, refl, ap, ◌≤ℤ◌, ℕ, zero, suc, pos, String, Bool, true, false, if◌then◌else◌, arith, ◌⊎◌, inl,
  inr,
}
use consul_release_controlle.Runtime.Platform.{Err, deployment_not_healthy, Result, ok, err}
use consul_release_controlle.Kubernetes.{
  KubernetesDeployment, Reading, has, lacks, blank, Cluster, is_healthy, attempted, retried,
  last_attempt, get_kubernetes_deployment, get_healthy_kubernetes_deployment,
}

-- All of the instances that are wanted are available, and there is one at least.
pub record IsAvailable (d : KubernetesDeployment) : Type 0 where
  pub none_missing : d.unavailable_replicas ≤ℤ pos 0
  pub some_there : pos 1 ≤ℤ d.available_replicas

is_healthy-IsAvailable : (d : KubernetesDeployment) → is_healthy d ≡ true → IsAvailable d
unfolding is_healthy
is_healthy-IsAvailable d h = record { none_missing = ground arith; some_there = ground arith }

module _ {W : Type 0} (c : Cluster W) where
  -- The wait that starts in `w`, with `n` attempts after the first, comes to an attempt that starts in
  -- `v`: each attempt before it failed, and was followed by a sleep.
  pub data ComesTo (name namespace : String) : ℕ → W → W → Type 0 where
    this_attempt : {n : ℕ} {w : W} → ComesTo name namespace n w w
    next_attempt :
        {n : ℕ} {w v : W} {e : Err}
        → attempted c (get_kubernetes_deployment c name namespace w).0 ≡ err e
        → ComesTo name namespace n (c.sleep (get_kubernetes_deployment c name namespace w).1) v
        → ComesTo name namespace (suc n) w v

  -- The wait ends with an attempt, `at`, that read the deployment that it returns, and it is available.
  pub record Seen (attempts : ℕ) (name namespace : String) (w : W) (d : KubernetesDeployment)
      : Type 0 where
    pub at : W
    pub attempt : ComesTo name namespace attempts w at
    pub read : (get_kubernetes_deployment c name namespace at).0 ≡ has d
    pub is_last :
        (get_healthy_kubernetes_deployment c attempts name namespace w).1
        ≡ (get_kubernetes_deployment c name namespace at).1
    pub available : IsAvailable d

  attempted-ok :
      (r : Reading) (d : KubernetesDeployment) → attempted c r ≡ ok d → (r ≡ has d) × IsAvailable d
  unfolding attempted
  attempted-ok (lacks e) d h = cc
  attempted-ok (blank e) d h = cc
  attempted-ok (has x) d h = checked (is_healthy x) refl h
    where
      checked :
          (b : Bool)
          → is_healthy x ≡ b
          → (if b then ok x else err deployment_not_healthy) ≡ ok d
          → (has x ≡ has d) × IsAvailable d
      checked true healthy same =
          let e : x ≡ d = cc in (ap has e, rw (← e) (is_healthy-IsAvailable x healthy))
      checked false healthy same = cc

  -- Either this attempt succeeds and is the end, or it fails and the others follow.
  retried-ok :
      (r : Result KubernetesDeployment × W) (again : W → Result KubernetesDeployment × W)
      (d : KubernetesDeployment)
      → (retried c r again).0 ≡ ok d
      → ((r.0 ≡ ok d) × ((retried c r again).1 ≡ r.1))
        ⊎ ((e : Err) × ((r.0 ≡ err e) × (retried c r again ≡ again (c.sleep r.1))))
  unfolding retried
  retried-ok (ok x, w) again d h = inl (h, refl)
  retried-ok (err e, w) again d h = inr (e, (refl, refl))

  seen :
      {n : ℕ} (name namespace : String) (w : W) (d : KubernetesDeployment)
      → attempted c (get_kubernetes_deployment c name namespace w).0 ≡ ok d
      → (get_healthy_kubernetes_deployment c n name namespace w).1
        ≡ (get_kubernetes_deployment c name namespace w).1
      → Seen n name namespace w d
  seen name namespace w d h is_last =
      let (read, available) = attempted-ok (get_kubernetes_deployment c name namespace w).0 d h in
      record {
        at = w;
        attempt = this_attempt;
        read = read;
        is_last = is_last;
        available = available;
      }

  -- A deployment that is returned as healthy is one that the cluster returned for the name in the last
  -- attempt of the wait, and in that answer at least one instance was available and none unavailable;
  -- every attempt before that one failed.
  pub get_healthy_kubernetes_deployment-Seen :
      (attempts : ℕ) (name namespace : String) (w : W) (d : KubernetesDeployment)
      → (get_healthy_kubernetes_deployment c attempts name namespace w).0 ≡ ok d
      → Seen attempts name namespace w d
  unfolding get_healthy_kubernetes_deployment last_attempt
  get_healthy_kubernetes_deployment-Seen zero name namespace w d h = seen name namespace w d h refl
  get_healthy_kubernetes_deployment-Seen (suc n) name namespace w d h =
      let r = last_attempt c (get_kubernetes_deployment c name namespace w) in
      elim (retried-ok r (get_healthy_kubernetes_deployment c n name namespace) d h) [
        | inl (succeeds, ends) ↦ seen name namespace w d succeeds ends
        | inr (e, (fails, goes_on)) ↦
            let next = c.sleep (get_kubernetes_deployment c name namespace w).1 in
            let later =
              get_healthy_kubernetes_deployment-Seen n name namespace next d (rw (← goes_on) h) in
            record {
              at = later.at;
              attempt = next_attempt fails later.attempt;
              read = later.read;
              is_last = rw goes_on later.is_last;
              available = later.available;
            }
      ]
