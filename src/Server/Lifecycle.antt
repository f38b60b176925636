-- ===== src/Server/Lifecycle.antt =====
-- pkg/server/release.go: New, Start and Shutdown.
pub mod Stopping
use Prim.Native.String.{◌++◌ as append}
use consul_release_controlle.Prelude.{
  String, Option, none, some, List, [], ◌∷◌, ◌++◌, Bool, true, false, if◌then◌else◌,
}
use consul_release_controlle.Storage.Kv.{Result, ok, err}
use consul_release_controlle.Server.{Provider, Rehydrated, rehydrate_releases}

-- What `Start` starts.
pub data Part : Type 0 where
  metrics_server : Part
  kubernetes_controller : Part
  nomad_controller : Part
  api_server : Part

-- `Release`: what is enabled, and which of the pointers to its parts are not nil.
pub record Release : Type 0 where
  pub enable_kubernetes : Bool
  pub enable_nomad : Bool
  pub has_metrics : Bool
  pub has_kubernetes : Bool
  pub has_nomad : Bool
  pub has_api : Bool

-- A server that has started nothing.
unfoldable pub initial : Bool → Bool → Release
initial kubernetes nomad = record {
  enable_kubernetes = kubernetes;
  enable_nomad = nomad;
  has_metrics = true;
  has_kubernetes = false;
  has_nomad = false;
  has_api = false;
}

-- `New`, over the error of `NewMetrics` and the settings.
unfoldable pub new : Option String → Bool → Bool → Result Release
unfolding initial
new (some e) kubernetes nomad = err e
new none kubernetes nomad = ok (initial kubernetes nomad)

-- The errors of the constructors that `Start` calls, and the provider.
pub record Constructors (M W : Type 0) : Type 0 where
  pub new_storage : W → Option String × W
  pub new_nomad : W → Option String × W
  pub new_api : W → Option String × W
  pub provider : Provider M W

-- What was done before the loop of `Start` waits, or returned with an error: the parts that were
-- started, in order, and the machines that were resumed.
pub record Started (M W : Type 0) : Type 0 where
  pub error : Option String
  pub server : Release
  pub parts : List Part
  pub resumed : List M
  pub outside : W

-- How `Shutdown` ends: it returns, or it blocks for ever in the send on its unbuffered channel, since
-- nothing receives from it.
pub data Ending : Type 0 where
  returned : Option String → Ending
  blocked : Ending

pub record Stopped (W : Type 0) : Type 0 where
  pub ending : Ending
  pub parts : List Part
  pub outside : W

module _ {M W : Type 0} (o : Constructors M W) where
  api_made : Release → List Part → List M → Option String × W → Started M W
  api_made r parts ms (some e, w) = record {
    error = some (append "unable to create API server: " e);
    server = r;
    parts = parts;
    resumed = ms;
    outside = w;
  }
  api_made r parts ms (none, w) = record {
    error = none;
    server = record r { has_api = true };
    parts = parts ++ (api_server ∷ []);
    resumed = ms;
    outside = w;
  }

  nomad_made : Release → List Part → List M → Option String × W → Started M W
  unfolding api_made
  nomad_made r parts ms (some e, w) = record {
    error = some (append "Unable to create Nomad controller: " e);
    server = r;
    parts = parts;
    resumed = ms;
    outside = w;
  }
  nomad_made r parts ms (none, w) =
      api_made (record r { has_nomad = true }) (parts ++ (nomad_controller ∷ [])) ms (o.new_api w)

  start_nomad : Release → List Part → List M → W → Started M W
  unfolding nomad_made api_made
  start_nomad r parts ms w =
      if r.enable_nomad
      then nomad_made r parts ms (o.new_nomad w)
      else api_made r parts ms (o.new_api w)

  start_kubernetes : Release → List M → W → Started M W
  unfolding start_nomad
  start_kubernetes r ms w =
      if r.enable_kubernetes
      then start_nomad (record r { has_kubernetes = true })
          (metrics_server ∷ kubernetes_controller ∷ []) ms w
      else start_nomad r (metrics_server ∷ []) ms w

  rehydrated : Release → Rehydrated M W → Started M W
  unfolding start_kubernetes
  rehydrated r (some e, ms, w) = record {
    error = some (append "Unable to rehydrate releases: " e);
    server = r;
    parts = metrics_server ∷ [];
    resumed = ms;
    outside = w;
  }
  rehydrated r (none, ms, w) = start_kubernetes r ms w

  storage_made : Release → Option String × W → Started M W
  unfolding rehydrated
  storage_made r (some e, w) = record {
    error = some e;
    server = r;
    parts = metrics_server ∷ [];
    resumed = [];
    outside = w;
  }
  storage_made r (none, w) = rehydrated r (rehydrate_releases o.provider w)

  -- `Start`, up to its loop; the error of `StartServer` is ignored.
  unfoldable pub start : Release → W → Started M W
  unfolding storage_made
  start r w = storage_made r (o.new_storage w)

-- What comes to an end while the loop of `Start` waits: `Shutdown` sends on its channel, or the
-- goroutine of a part is over, with an error or without.
pub data Event : Type 0 where
  shutdown_sent : Event
  is_over : Part → Option String → Event

-- The channels of the loop, with what is sent on them.
pub data Message : Type 0 where
  shutdown_received : Message
  kubernetes_error : String → Message
  nomad_error : String → Message
  api_error : String → Message

-- The goroutine of the Nomad controller sends on the channel of Kubernetes.
unfoldable pub message : Event → Option Message
message shutdown_sent = some shutdown_received
message (is_over p none) = none
message (is_over metrics_server (some e)) = none
message (is_over kubernetes_controller (some e)) = some (kubernetes_error e)
message (is_over nomad_controller (some e)) = some (kubernetes_error e)
message (is_over api_server (some e)) = some (api_error e)

unfoldable pub error_of : Message → Option String
error_of shutdown_received = none
error_of (kubernetes_error e) = some e
error_of (nomad_error e) = some e
error_of (api_error e) = some e

unfoldable pub received : Option Message → Option (Option String) → Option (Option String)
received none later = later
received (some m) later = some (error_of m)

-- The loop of `Start`: `none` still waits, else what it returns.
unfoldable pub select : List Event → Option (Option String)
unfolding received
select [] = none
select (e ∷ es) = received (message e) (select es)

-- Whether the loop of `Start` still receives, from the error that `Start` returns before it, if any, and
-- what the loop returns, if it does.
unfoldable pub still_waits : Option String → Option (Option String) → Bool
still_waits (some e) result = false
still_waits none (some e) = false
still_waits none none = true

-- `Shutdown` of the API server and `StopServer` of the metrics, with their errors.
pub record Ends (W : Type 0) : Type 0 where
  pub shutdown_api : W → Option String × W
  pub stop_server : W → Option String × W

-- The flag tells whether the loop of `Start` still waits when the send begins.
module _ {W : Type 0} (o : Ends W) (is_waiting : Bool) where
  stop_nomad : Release → List Part → W → Stopped W
  stop_nomad r parts w = record {
    ending = if is_waiting then returned none else blocked;
    parts = if r.has_nomad then parts ++ (nomad_controller ∷ []) else parts;
    outside = w;
  }

  stop_kubernetes : Release → List Part → W → Stopped W
  unfolding stop_nomad
  stop_kubernetes r parts w =
      stop_nomad r (if r.has_kubernetes then parts ++ (kubernetes_controller ∷ []) else parts) w

  metrics_stopped : Release → List Part → Option String × W → Stopped W
  unfolding stop_kubernetes
  metrics_stopped r parts (some e, w) = record {
    ending = returned (some (append "unable to shutdown metrics server: " e));
    parts = parts;
    outside = w;
  }
  metrics_stopped r parts (none, w) = stop_kubernetes r (parts ++ (metrics_server ∷ [])) w

  stop_metrics : Release → List Part → W → Stopped W
  unfolding metrics_stopped
  stop_metrics r parts w =
      if r.has_metrics then metrics_stopped r parts (o.stop_server w) else stop_kubernetes r parts w

  api_stopped : Release → Option String × W → Stopped W
  unfolding stop_metrics
  api_stopped r (some e, w) = record {
    ending = returned (some (append "unable to shutdown API server: " e));
    parts = [];
    outside = w;
  }
  api_stopped r (none, w) = stop_metrics r (api_server ∷ []) w

  unfoldable pub shutdown : Release → W → Stopped W
  unfolding api_stopped
  shutdown r w = if r.has_api then api_stopped r (o.shutdown_api w) else stop_metrics r [] w
