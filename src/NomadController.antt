-- ===== src/NomadController.antt =====
-- pkg/controllers/nomad/nomad.go: Start, which asks the admission controller about the jobs that Nomad
-- tells of.
pub mod Events
use Prim.Native.String.{◌++◌ as append}
use consul_release_controlle.Prelude.{
  ℕ, String, Option, none, some, List, [], ◌∷◌, Bool, true, false, if◌then◌else◌, str_eq,
}
use consul_release_controlle.Storage.Kv.{Result, ok, err}
use consul_release_controlle.ConfigEntries.{Meta}
use consul_release_controlle.Admission.{Provider, Answer, check}

-- api.Job, as far as the loop reads it.
pub record Job : Type 0 where
  pub name : String
  pub namespace : String
  pub meta : Option Meta
  pub version : ℕ
  pub status : String

-- api.Event: its type and what `Job()` returns; none is a nil pointer.
pub record Event : Type 0 where
  pub kind : String
  pub job : Option Job

-- `GetEvents`: the batches of events that come before the stream is closed, over a state `W`. With it
-- the text of a version.
pub record Stream (W : Type 0) : Type 0 where
  pub get_events : W → Result (List (List Event)) × W
  pub format_version : ℕ → String

abbrev pub runtime_platform_nomad : String
runtime_platform_nomad = "nomad"

-- The outside after a part of the loop; none is a panic.
abbrev pub Ran : Type 0 → Type 0
Ran W = Option W

and_then : {W : Type 0} → Ran W → (W → Ran W) → Ran W
and_then none rest = none
and_then (some w) rest = rest w

module _ {W : Type 0} {M : Type 0} (s : Stream W) (p : Provider W M) where
  -- The answer of the admission controller is only logged.
  unfoldable pub check_job : Job → W → W
  check_job j w =
      let (response, e, w') =
        check p j.name j.namespace j.meta (s.format_version j.version) runtime_platform_nomad w in
      w'

  -- A job that was registered is checked if it is pending.
  registered : Option Job → W → Ran W
  unfolding check_job
  registered none w = none
  registered (some j) w = if str_eq j.status "pending" then some (check_job j w) else some w

  unfoldable pub handle : Event → W → Ran W
  unfolding registered
  handle e w = if str_eq e.kind "JobRegistered" then registered e.job w else some w

  unfoldable pub handle_all : List Event → W → Ran W
  unfolding handle and_then
  handle_all [] w = some w
  handle_all (e ∷ es) w = and_then (handle e w) (λ w'. handle_all es w')

  unfoldable pub handle_batches : List (List Event) → W → Ran W
  unfolding handle_all and_then
  handle_batches [] w = some w
  handle_batches (es ∷ ess) w = and_then (handle_all es w) (λ w'. handle_batches ess w')

  with_error : Option String → Ran W → Option (Option String × W)
  with_error e none = none
  with_error e (some w) = some (e, w)

  received : Result (List (List Event)) × W → Option (Option String × W)
  unfolding handle_batches with_error
  received (err e, w) = some (some (append "unable to register for Nomad events: " e), w)
  received (ok ess, w) = with_error none (handle_batches ess w)

  -- `Start`, to the end of the stream.
  unfoldable pub start : W → Option (Option String × W)
  unfolding received
  start w = received (s.get_events w)
