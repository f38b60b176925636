-- ===== src/Nomad.antt =====
-- pkg/clients/nomad.go: the jobs of a Nomad cluster as the runtime plugin sees them. The tags that a
-- clone gets are in Nomad/Tags.antt.
pub mod Tags
pub mod Subsets
pub mod Timeout
use Prim.Native.String.{◌++◌ as append}
use consul_release_controlle.Prelude.{
  ℕ, zero, suc, ◌+◌, ◌==◌, ℤ, String, Option, none, some, List, [], ◌∷◌, Bool, true, false, not,
  ◌&&◌, ◌||◌, if◌then◌else◌, str_eq, map,
}
use consul_release_controlle.Runtime.Platform.{
  Err, deployment_not_found, message, wrapped, Result, ok, err, Meta, Deployment,
}
use Tags.{Job, TaskGroup, JobGroups, relabelled}

-- api.JobListStub and api.AllocationListStub
pub record JobStub : Type 0 where
  pub id : String
  pub name : String

pub record Allocation : Type 0 where
  pub desired_status : String
  pub client_status : String

-- `client.Jobs()` over a state `W`, with `regexp.Compile` and `MatchString`, `strings.HasSuffix`, the
-- text of a version, and `strconv.ParseUint(…, 2, 64)` with its error dropped. `Info` is called with no
-- namespace.
pub record Cluster (W : Type 0) : Type 0 where
  pub list : String → W → Result (List JobStub) × W
  pub info : String → W → Result Job × W
  pub register : Job → W → Option Err × W
  pub deregister : String → String → W → Option Err × W
  pub allocations : String → String → W → Result (List Allocation) × W
  pub sleep : W → W
  pub compile : String → Option (String → Bool)
  pub has_suffix : String → String → Bool
  pub format_version : ℕ → String
  pub parse_binary : String → ℕ

is_live : Option String → Bool
is_live none = false
is_live (some s) = str_eq s "running" || str_eq s "pending"

count_if : (Allocation → Bool) → List Allocation → ℕ
count_if test [] = 0
count_if test (a ∷ allocs) = let rest = count_if test allocs in if test a then rest + 1 else rest

is_wanted : Allocation → Bool
is_wanted a = str_eq a.desired_status "run"

is_running : Allocation → Bool
is_running a = is_wanted a && str_eq a.client_status "running"

-- `healthy == 0 || desired != healthy` asks for another attempt.
unfoldable pub are_healthy : List Allocation → Bool
unfolding count_if is_wanted is_running
are_healthy allocs = not (
    count_if is_running allocs == 0
    || not (count_if is_wanted allocs == count_if is_running allocs))

-- What `UpdateDeployment` changes of a job.
abbrev pub with_count : ℤ → TaskGroup → TaskGroup
with_count n g = record g { count = n }

abbrev pub rescaled : ℤ → Job → Job
rescaled n j = record j {
  groups = record {
    first = with_count n j.groups.first;
    others = map (with_count n) j.groups.others;
  };
}

-- One attempt: the job is healthy, or `lastError` of the function that surrounds the attempts is as
-- given. An error of `Allocations` is put in another variable of that name.
pub data Attempt : Type 0 where
  healthy : Job → Attempt
  again : Option Err → Attempt

module _ {W : Type 0} (c : Cluster W) where
  anchored : String → String
  anchored selector = if c.has_suffix selector "$" then selector else append selector "$"

  -- The job that was read is the answer if it runs; otherwise the loop goes on.
  informed : Result Job × W → (W → Result Job × W) → Result Job × W
  informed (err e, w) later = (err e, w)
  informed (ok j, w) later = if is_live j.status then (ok j, w) else later w

  -- The loop over the jobs.
  first_live : (String → Bool) → List JobStub → W → Result Job × W
  unfolding informed is_live
  first_live re [] w = (err deployment_not_found, w)
  first_live re (s ∷ ss) w =
      let later = first_live re ss in if re s.name then informed (c.info s.id w) later else later w

  compiled : Option (String → Bool) → String → List JobStub → W → Result Job × W
  unfolding first_live
  compiled none selector ss w =
      (err (message (append "invalid regular expression for deployment selector: " selector)), w)
  compiled (some re) selector ss w = first_live re ss w

  listed : Result (List JobStub) × W → String → Result Job × W
  unfolding compiled anchored
  listed (err e, w) selector = (err (wrapped "unable to list jobs" e), w)
  listed (ok ss, w) selector = compiled (c.compile (anchored selector)) (anchored selector) ss w

  unfoldable pub get_job_with_selector : String → String → W → Result Job × W
  unfolding listed
  get_job_with_selector selector namespace w = listed (c.list namespace w) selector

  -- The name is used as a selector.
  unfoldable pub get_job : String → String → W → Result Job × W
  unfolding get_job_with_selector
  get_job name namespace w = get_job_with_selector name namespace w

  delete_found : String → String → Result Job × W → Option Err × W
  delete_found id namespace (err e, w) = (some e, w)
  delete_found id namespace (ok j, w) = c.deregister id namespace w

  unfoldable pub delete_job : String → String → W → Option Err × W
  unfolding delete_found get_job
  delete_job id namespace w = delete_found id namespace (get_job id namespace w)

  weighed : Job → Result (List Allocation) × W → Attempt × W
  weighed j (err e, w) = (again none, w)
  weighed j (ok allocs, w) = (if are_healthy allocs then healthy j else again none, w)

  attempted : String → Result Job × W → Attempt × W
  unfolding weighed
  attempted namespace (err e, w) = (again (some e), w)
  attempted namespace (ok j, w) = weighed j (c.allocations j.id namespace w)

  unfoldable pub attempt : String → String → W → Attempt × W
  unfolding attempted get_job
  attempt name namespace w = attempted namespace (get_job name namespace w)

  -- `retry.Constant`: at the timeout the result is a nil job with the last error.
  retried : Attempt × W → (W → (Option Job × Option Err) × W) → (Option Job × Option Err) × W
  retried (healthy j, w) later = ((some j, none), w)
  retried (again e, w) later = later (c.sleep w)

  timed_out : Attempt × W → (Option Job × Option Err) × W
  timed_out (healthy j, w) = ((some j, none), w)
  timed_out (again e, w) = ((none, e), w)

  -- `n` attempts are made after the first.
  unfoldable pub get_healthy_job : ℕ → String → String → W → (Option Job × Option Err) × W
  unfolding retried timed_out
  get_healthy_job zero name namespace w = timed_out (attempt name namespace w)
  get_healthy_job (suc n) name namespace w =
      retried (attempt name namespace w) (λ w'. get_healthy_job n name namespace w')

  unfoldable pub to_deployment : Job → Deployment
  to_deployment j = record {
    name = j.name;
    namespace = j.namespace;
    resource_version = c.format_version j.version;
    meta = j.meta;
    instances = j.groups.first.count;
  }

  converted : Result Job × W → Result Deployment × W
  unfolding to_deployment
  converted (ok j, w) = (ok (to_deployment j), w)
  converted (err e, w) = (err e, w)

  unfoldable pub get_deployment : String → String → W → Result Deployment × W
  unfolding converted
  get_deployment name namespace w = converted (get_job name namespace w)

  unfoldable pub get_deployment_with_selector : String → String → W → Result Deployment × W
  unfolding converted
  get_deployment_with_selector selector namespace w =
      converted (get_job_with_selector selector namespace w)

  converted_if : (Option Job × Option Err) × W → (Option Deployment × Option Err) × W
  unfolding to_deployment
  converted_if ((none, e), w) = ((none, e), w)
  converted_if ((some j, e), w) = ((some (to_deployment j), e), w)

  unfoldable pub get_healthy_deployment :
      ℕ → String → String → W → (Option Deployment × Option Err) × W
  unfolding converted_if
  get_healthy_deployment attempts name namespace w =
      converted_if (get_healthy_job attempts name namespace w)

  update_found : Deployment → Result Job × W → Option Err × W
  update_found d (err e, w) = (some e, w)
  update_found d (ok j, w) =
      c.register
        (record (rescaled d.instances j) {
          meta = d.meta;
          version = c.parse_binary d.resource_version;
        })
        w

  unfoldable pub update_deployment : Deployment → W → Option Err × W
  unfolding update_found
  update_deployment d w = update_found d (get_job d.name d.namespace w)

  clone_found : Deployment → Result Job × W → Option Err × W
  clone_found d (err e, w) = (some e, w)
  clone_found d (ok j, w) = c.register (relabelled d (rescaled d.instances j)) w

  unfoldable pub clone_deployment : Deployment → Deployment → W → Option Err × W
  unfolding clone_found
  clone_deployment existing d w = clone_found d (get_job existing.name existing.namespace w)
