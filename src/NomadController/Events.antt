-- ===== src/NomadController/Events.antt =====
-- Which events of Nomad reach the admission controller.
use consul_release_controlle.Prelude.{
  ◌≡◌, refl, Option, none, some, List, [], ◌∷◌, ◌++◌, true, if◌then◌else◌, str_eq, Bool-cases, inl,
  inr,
}
use consul_release_controlle.Storage.Kv.{ok}
use consul_release_controlle.Admission.{Provider}
use consul_release_controlle.NomadController.{
  Job, Event, Stream, check_job, registered, handle, and_then, handle_all, handle_batches,
  with_error, received, start,
}

pending_job : Option Job → List Job
pending_job none = []
pending_job (some j) = if str_eq j.status "pending" then j ∷ [] else []

-- The jobs to be checked: those that are registered and pending, in order.
unfoldable pub pending : List Event → List Job
unfolding pending_job
pending [] = []
pending (e ∷ es) = (if str_eq e.kind "JobRegistered" then pending_job e.job else []) ++ pending es

unfoldable pub all_pending : List (List Event) → List Job
unfolding pending
all_pending [] = []
all_pending (es ∷ ess) = pending es ++ all_pending ess

-- Every registration has its job.
unfoldable pub HasJobs : List Event → Type 0
HasJobs [] = Unit
HasJobs (e ∷ es) =
    (str_eq e.kind "JobRegistered" ≡ true → (j : Job) × (e.job ≡ some j)) × HasJobs es

unfoldable pub AllHaveJobs : List (List Event) → Type 0
AllHaveJobs [] = Unit
AllHaveJobs (es ∷ ess) = HasJobs es × AllHaveJobs ess

module _ {W : Type 0} {M : Type 0} (s : Stream W) (p : Provider W M) where
  -- One check after another, whatever the answers are.
  unfoldable pub check_jobs : List Job → W → W
  check_jobs [] w = w
  check_jobs (j ∷ js) w = check_jobs js (check_job s p j w)

  check_jobs-append :
      (js ks : List Job) (w : W) → check_jobs (js ++ ks) w ≡ check_jobs ks (check_jobs js w)
  unfolding check_jobs
  check_jobs-append [] ks w = refl
  check_jobs-append (j ∷ js) ks w = check_jobs-append js ks (check_job s p j w)

  registered_lem :
      (j : Job) (w : W) → registered s p (some j) w ≡ some (check_jobs (pending_job (some j)) w)
  unfolding registered pending_job check_jobs
  registered_lem j w = elim (Bool-cases (str_eq j.status "pending")) [
    | inl yes_pending ↦ rw yes_pending refl
    | inr not_pending ↦ rw not_pending refl
  ]

  handle_lem :
      (e : Event) (w : W)
      → (str_eq e.kind "JobRegistered" ≡ true → (j : Job) × (e.job ≡ some j))
      → handle s p e w
        ≡ some (check_jobs (if str_eq e.kind "JobRegistered" then pending_job e.job else []) w)
  unfolding handle check_jobs
  handle_lem e w h = elim (Bool-cases (str_eq e.kind "JobRegistered")) [
    | inl registers ↦ let (j, q) = h registers in rw (registers, q) (registered_lem j w)
    | inr differs ↦ rw differs refl
  ]

  handle_all_lem :
      (es : List Event) (w : W)
      → HasJobs es
      → handle_all s p es w ≡ some (check_jobs (pending es) w)
  unfolding handle_all and_then HasJobs pending check_jobs
  handle_all_lem [] w h = refl
  handle_all_lem (e ∷ es) w h =
      let js = if str_eq e.kind "JobRegistered" then pending_job e.job else [] in
      rw (handle_lem e w h.0, check_jobs-append js (pending es) w)
        (handle_all_lem es (check_jobs js w) h.1)

  handle_batches_lem :
      (ess : List (List Event)) (w : W)
      → AllHaveJobs ess
      → handle_batches s p ess w ≡ some (check_jobs (all_pending ess) w)
  unfolding handle_batches and_then AllHaveJobs all_pending check_jobs
  handle_batches_lem [] w h = refl
  handle_batches_lem (es ∷ ess) w h =
      rw (handle_all_lem es w h.0, check_jobs-append (pending es) (all_pending ess) w)
        (handle_batches_lem ess (check_jobs (pending es) w) h.1)

  -- If every registration in the stream has its job, then `Start` asks the admission controller about
  -- just the registered jobs that are pending, one after another in the order of the events,
  -- whatever it answers, and returns without an error when the stream is closed.
  pub start_lem :
      (w : W) {ess : List (List Event)}
      → (s.get_events w).0 ≡ ok ess
      → AllHaveJobs ess
      → start s p w ≡ some (none, check_jobs (all_pending ess) (s.get_events w).1)
  unfolding start received with_error
  start_lem w {ess} h all =
      rw (h, received, handle_batches_lem ess (s.get_events w).1 all, with_error) refl
