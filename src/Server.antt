-- ===== src/Server.antt =====
-- pkg/server/release.go: how the server resumes the releases of a former run.
pub mod Rehydration
pub mod Lifecycle
use Prim.Native.String.{◌++◌ as append}
use consul_release_controlle.Prelude.{String, Option, none, some, List, [], ◌∷◌}
use consul_release_controlle.Release.{Release}
use consul_release_controlle.Storage.{
  StoreError, release_not_found, plugin_state_not_found, other, Found, found, failed,
}
use consul_release_controlle.Storage.Kv.{Result, ok, err}

-- The store and the provider as `rehydrateReleases` uses them, over state machines `M` and a state `W`.
-- The options of `ListReleases` are a runtime's name, or none for a nil pointer.
pub record Provider (M W : Type 0) : Type 0 where
  pub list_releases : Option String → W → Found (List Release) × W
  pub get_state_machine : Release → W → Result M × W

-- The error that is returned, the machines for which `go sm.Resume()` was started, in order, and the
-- outside.
abbrev pub Rehydrated : Type 0 → Type 0 → Type 0
Rehydrated M W = Option String × List M × W

abbrev pub error_text : StoreError → String
error_text release_not_found = "release not found"
error_text plugin_state_not_found = "plugin state not found"
error_text (other e) = e

module _ {M W : Type 0} (p : Provider M W) where
  resumed : M → Rehydrated M W → Rehydrated M W
  resumed m (e, ms, w) = (e, m ∷ ms, w)

  machine_found : Release → Result M × W → (W → Rehydrated M W) → Rehydrated M W
  unfolding resumed
  machine_found r (err e, w) later = (
    some (append (append "unable to get statemachine for release: " r.name) (append ", " e)),
    [],
    w,
  )
  machine_found r (ok m, w) later = resumed m (later w)

  rehydrate_all : List Release → W → Rehydrated M W
  unfolding machine_found
  rehydrate_all [] w = (none, [], w)
  rehydrate_all (r ∷ rs) w = machine_found r (p.get_state_machine r w) (λ w'. rehydrate_all rs w')

  releases_listed : Found (List Release) × W → Rehydrated M W
  unfolding rehydrate_all
  releases_listed (failed e, w) = (some (append "unable to list releases: " (error_text e)), [], w)
  releases_listed (found rs, w) = rehydrate_all rs w

  -- The options are `&ListOptions{}`, whose runtime is the empty string.
  unfoldable pub rehydrate_releases : W → Rehydrated M W
  unfolding releases_listed
  rehydrate_releases w = releases_listed (p.list_releases (some "") w)
