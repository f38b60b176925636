-- ===== src/Nomad/Timeout.antt =====
-- What the Nomad client returns for a job that does not become healthy.
use mathlib.Core.Path.{subst}
use consul_release_controlle.Prelude.{
  ◌≡◌, refl, sym, false, ℕ, zero, suc, String, Option, none, some, List,
}
use consul_release_controlle.Runtime.Platform.{Err, Result, ok, err}
use consul_release_controlle.Nomad.Tags.{Job}
use consul_release_controlle.Nomad.{
  Cluster, Allocation, are_healthy, get_job, Attempt, healthy, again, attempt, attempted, weighed,
  retried, timed_out, get_healthy_job, get_healthy_deployment, converted_if,
}

ok-injective : {a b : Job} → ok a ≡ ok b → a ≡ b
ok-injective h = cc

module _ {W : Type 0} (c : Cluster W) (name namespace : String) where
  get_healthy_job-none :
      (attempts : ℕ) (w : W)
      → ((v : W) → (attempt c name namespace v).0 ≡ again none)
      → (get_healthy_job c attempts name namespace w).0 ≡ (none, none)
  unfolding get_healthy_job
  get_healthy_job-none zero w h = last (attempt c name namespace w) (h w)
    where
      last : (r : Attempt × W) → r.0 ≡ again none → (timed_out c r).0 ≡ (none, none)
      last (healthy j, v) q = cc
      last (again e, v) q = cc
  get_healthy_job-none (suc n) w h =
      go (attempt c name namespace w) (λ v. get_healthy_job c n name namespace v) (h w)
        (λ v. get_healthy_job-none n v h)
    where
      go :
          (r : Attempt × W) (later : W → (Option Job × Option Err) × W)
          → r.0 ≡ again none
          → ((v : W) → (later v).0 ≡ (none, none))
          → (retried c r later).0 ≡ (none, none)
      go (healthy j, v) later q ih = cc
      go (again e, v) later q ih = ih (c.sleep v)

  attempted-again :
      (j : Job) (allocs : List Allocation) (r : Result Job × W)
      → r.0 ≡ ok j
      → ((v : W) → (c.allocations j.id namespace v).0 ≡ ok allocs)
      → are_healthy allocs ≡ false
      → (attempted c namespace r).0 ≡ again none
  unfolding attempted weighed
  attempted-again j allocs (err e, v) found_job read ill = cc
  attempted-again j allocs (ok x, v) found_job read ill =
      weighed-again (c.allocations x.id namespace v) (
        subst (λ y. (c.allocations y.id namespace v).0 ≡ ok allocs) (sym (ok-injective found_job))
          (read v))
    where
      weighed-again :
          (r : Result (List Allocation) × W) → r.0 ≡ ok allocs → (weighed c x r).0 ≡ again none
      weighed-again (err e, u) q = cc
      weighed-again (ok l, u) q = let same : l ≡ allocs = cc in rw (same, ill) refl

  converted_if-none :
      (r : (Option Job × Option Err) × W) → r.0 ≡ (none, none) → (converted_if c r).0 ≡ (none, none)
  unfolding converted_if
  converted_if-none ((none, e), v) q = cc
  converted_if-none ((some j, e), v) q = cc

  -- If every attempt finds the job and its allocations, and these are not healthy, then at the timeout
  -- the Nomad client returns no deployment and no error.
  pub get_healthy_deployment-none :
      (attempts : ℕ) (w : W) (j : Job) (allocs : List Allocation)
      → ((v : W) → (get_job c name namespace v).0 ≡ ok j)
      → ((v : W) → (c.allocations j.id namespace v).0 ≡ ok allocs)
      → are_healthy allocs ≡ false
      → (get_healthy_deployment c attempts name namespace w).0 ≡ (none, none)
  unfolding get_healthy_deployment attempt
  get_healthy_deployment-none attempts w j allocs found_job read ill =
      converted_if-none (get_healthy_job c attempts name namespace w) (
        get_healthy_job-none attempts w
          (λ v. attempted-again j allocs (get_job c name namespace v) (found_job v) read ill))
