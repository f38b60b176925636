-- ===== src/Api.antt =====
-- pkg/api/handlers/release.go: the handlers of the HTTP API. The goroutine that `Delete` leaves behind
-- runs the loop of `wait_destroyed` in Reconciler.
pub mod Status
pub mod Contents
use Prim.Native.String.{◌++◌ as append}
use consul_release_controlle.Prelude.{ℕ, ℤ, pos, String, Option, none, some, List, [], ◌∷◌}
use consul_release_controlle.Interfaces.{State}
use consul_release_controlle.Release.{Release, StateHistory, current_state}
use consul_release_controlle.Storage.{
  StoreError, release_not_found, plugin_state_not_found, other, Found, found, failed,
}
use consul_release_controlle.Storage.Kv.{Result, ok, err}
use consul_release_controlle.Reconciler.{Deletion, ended, waits}

-- net/http
abbrev pub status_ok : ℕ
status_ok = 200

abbrev pub status_bad_request : ℕ
status_bad_request = 400

abbrev pub status_not_found : ℕ
status_not_found = 404

abbrev pub status_internal_server_error : ℕ
status_internal_server_error = 500

-- `GetAllResponse`; a release whose state machine is not to be had has no status, which is written as
-- `unknown`.
pub record GetAllResponse : Type 0 where
  pub name : String
  pub status : Option State
  pub last_deployment_status : String
  pub candidate_traffic : ℤ
  pub version : String

-- `GetSingleResponse`
pub record GetSingleResponse : Type 0 where
  pub release : Release
  pub current_state : Option State
  pub state_history : List StateHistory

pub data Body : Type 0 where
  releases : List GetAllResponse → Body
  release : GetSingleResponse → Body

-- What a handler does that a client or the metrics see: `mFinal`, `http.Error`, `WriteHeader` and the
-- encoder's write of a body.
pub data Effect : Type 0 where
  told : ℕ → Effect
  refused : String → ℕ → Effect
  headed : ℕ → Effect
  wrote : Body → Effect

-- What `json.Unmarshal` reads from the state of a strategy: the traffic, already cut to an integer, and
-- the status, where the state has them.
pub record StrategyState : Type 0 where
  pub candidate_traffic : Option ℤ
  pub status : Option String

-- `GetStateMachine` makes a machine for a release that has none, and `New` of the machine reads the
-- configurations of the plugins: it panics on a release that lacks one.
pub data Made (M : Type 0) : Type 0 where
  made : M → Made M
  not_made : String → Made M
  machine_panics : Made M

-- The store and the provider, over state machines `M` and a state `W`. `strategy_state` is `GetState`
-- of the strategy's plugin state store.
pub record Outside (M W : Type 0) : Type 0 where
  pub upsert_release : Release → W → Option StoreError × W
  pub list_releases : W → Found (List Release) × W
  pub get_release : String → W → Found Release × W
  pub get_state_machine : Release → W → Made M × W
  pub strategy_state : Release → W → Found String × W
  pub read_strategy_state : String → StrategyState
  pub configure : M → W → Option String × W
  pub destroy : M → W → Option String × W
  pub machine_state : M → W → State

-- How a handler ends: it returns, or it panics.
pub data Ending (M : Type 0) : Type 0 where
  returned : Deletion M → Ending M
  panicked : Ending M

-- What is done, in order, how the handler ends, and the outside. A deletion is the goroutine that is
-- left to wait for a machine.
abbrev pub Handled : Type 0 → Type 0 → Type 0
Handled M W = List Effect × Ending M × W

-- `mFinal` and `http.Error` with the same status.
abbrev pub failing : ℕ → String → List Effect
failing status text = told status ∷ refused text status ∷ []

or_zero : Option ℤ → ℤ
or_zero none = pos 0
or_zero (some t) = t

or_empty : Option String → String
or_empty none = ""
or_empty (some t) = t

module _ {M W : Type 0} (o : Outside M W) where
  abbrev done : List Effect → W → Handled M W
  done effects w = (effects, returned (ended none), w)

  -- After an error of `Configure` the handler goes on to the last line.
  post_configured : Option String × W → Handled M W
  post_configured (some e, w) =
      done
        (told status_internal_server_error
          ∷ refused "unable to configure release" status_internal_server_error
          ∷ told status_ok
          ∷ [])
        w
  post_configured (none, w) = done (told status_ok ∷ []) w

  post_machine : Made M × W → Handled M W
  unfolding post_configured
  post_machine (machine_panics, w) = ([], panicked, w)
  post_machine (not_made e, w) =
      done (failing status_internal_server_error "unable to create statemachine") w
  post_machine (made m, w) = post_configured (o.configure m w)

  post_saved : Release → Option StoreError × W → Handled M W
  unfolding post_machine
  post_saved r (some e, w) = done (failing status_internal_server_error "unable to save release") w
  post_saved r (none, w) = post_machine (o.get_state_machine r w)

  -- `Post`, from what `FromJsonBody` returns.
  unfoldable pub post : Result Release → W → Handled M W
  unfolding post_saved
  post (err e) w = done (failing status_bad_request "invalid request body") w
  post (ok r) w = post_saved r (o.upsert_release r w)

  -- The row of a release, from its status and what `GetState` returns.
  row : Release → Option State → Found String → GetAllResponse
  unfolding or_zero or_empty
  row r status (failed e) = record {
    name = r.name;
    status = status;
    last_deployment_status = "";
    candidate_traffic = pos 0;
    version = r.version;
  }
  row r status (found d) = record {
    name = r.name;
    status = status;
    last_deployment_status = or_empty (o.read_strategy_state d).status;
    candidate_traffic = or_zero (o.read_strategy_state d).candidate_traffic;
    version = r.version;
  }

  row_first : GetAllResponse → Option (List GetAllResponse) × W → Option (List GetAllResponse) × W
  row_first x (none, w) = (none, w)
  row_first x (some xs, w) = (some (x ∷ xs), w)

  -- One pass of the loop, with the rest of it; `GetState` is called after the machine was asked for.
  row_made :
      Release
      → Made M × W
      → (W → Option (List GetAllResponse) × W)
      → Option (List GetAllResponse) × W
  unfolding row row_first
  row_made r (machine_panics, w) rest = (none, w)
  row_made r (not_made e, w) rest =
      let (d, v) = o.strategy_state r w in row_first (row r none d) (rest v)
  row_made r (made m, w) rest =
      let (d, v) = o.strategy_state r w in row_first (row r (some (o.machine_state m w)) d) (rest v)

  -- The loop of `GetAll`: `none` is a panic.
  unfoldable pub rows : List Release → W → Option (List GetAllResponse) × W
  unfolding row_made
  rows [] w = (some [], w)
  rows (r ∷ rs) w = row_made r (o.get_state_machine r w) (λ v. rows rs v)

  rows_made : Option (List GetAllResponse) × W → Handled M W
  rows_made (none, w) = ([], panicked, w)
  rows_made (some xs, w) = done (wrote (releases xs) ∷ told status_ok ∷ []) w

  all_listed : Found (List Release) × W → Handled M W
  unfolding rows rows_made
  all_listed (failed e, w) =
      done (failing status_internal_server_error "unable to fetch releases") w
  all_listed (found rs, w) = rows_made (rows rs w)

  unfoldable pub get_all : W → Handled M W
  unfolding all_listed
  get_all w = all_listed (o.list_releases w)

  -- An error other than `ReleaseNotFound` leaves a nil pointer, which is read.
  single_found : Found Release × W → Handled M W
  single_found (failed release_not_found, w) =
      done (headed status_not_found ∷ told status_not_found ∷ []) w
  single_found (failed e, w) = ([], panicked, w)
  single_found (found r, w) =
      done
        (wrote (
            release (record {
              release = r;
              current_state = current_state r;
              state_history = r.state_history;
            }))
          ∷ told status_ok
          ∷ [])
        w

  unfoldable pub get_single : String → W → Handled M W
  unfolding single_found
  get_single name w = single_found (o.get_release name w)

  delete_begun : Release → M → Option String × W → Handled M W
  delete_begun r m (some e, w) =
      done (failing status_internal_server_error "unable to cleanup release") w
  delete_begun r m (none, w) = (told status_ok ∷ [], returned (waits r m), w)

  delete_machine : Release → Made M × W → Handled M W
  unfolding delete_begun
  delete_machine r (machine_panics, w) = ([], panicked, w)
  delete_machine r (not_made e, w) =
      done (failing status_internal_server_error "unable to find state machine for release") w
  delete_machine r (made m, w) = delete_begun r m (o.destroy m w)

  delete_found : String → Found Release × W → Handled M W
  unfolding delete_machine
  delete_found name (failed release_not_found, w) =
      done (failing status_not_found (append (append "release " name) " not found")) w
  delete_found name (failed e, w) =
      done (failing status_internal_server_error "unable to delete release") w
  delete_found name (found r, w) = delete_machine r (o.get_state_machine r w)

  unfoldable pub delete : String → W → Handled M W
  unfolding delete_found
  delete name w = delete_found name (o.get_release name w)
