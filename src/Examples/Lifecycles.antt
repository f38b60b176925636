-- ===== src/Examples/Lifecycles.antt =====
-- A server that is started and shut down.
use mathlib.Core.List.{Perm}
use consul_release_controlle.Prelude.{◌≡◌, refl, ℕ, suc, ◌↔◌, ◌⊎◌, none, some, [], ◌∷◌, true}
use consul_release_controlle.Storage.{found}
use consul_release_controlle.Storage.Kv.{ok}
use consul_release_controlle.Server.{rehydrate_releases}
use consul_release_controlle.Server.Lifecycle.{
  metrics_server, kubernetes_controller, nomad_controller, api_server, Constructors, Ends,
  shutdown_sent, is_over, initial, start, shutdown, message, error_of, select, still_waits,
  returned, blocked,
}
use consul_release_controlle.Server.Lifecycle.Stopping.{shutdown-start}

-- The world counts the calls.
abbrev constructors : Constructors Unit ℕ
constructors = record {
  new_storage = λ w. (none, suc w);
  new_nomad = λ w. (none, suc w);
  new_api = λ w. (none, suc w);
  provider = record {
    list_releases = λ options w. (found [], suc w);
    get_state_machine = λ r w. (ok tt, suc w);
  };
}

abbrev ends : Ends ℕ
ends = record { shutdown_api = λ w. (none, suc w); stop_server = λ w. (none, suc w) }

start_parts :
    (start constructors (initial true true) 0).parts
    ≡ metrics_server ∷ kubernetes_controller ∷ nomad_controller ∷ api_server ∷ []
unfolding start initial rehydrate_releases
start_parts = cc

-- A controller that ends without an error does not end the server; one that fails does.
waits_on :
    select (is_over kubernetes_controller none ∷ is_over nomad_controller (some "no events") ∷ [])
    ≡ some (some "no events")
unfolding select message error_of
waits_on = refl

ends_well : select (is_over kubernetes_controller none ∷ shutdown_sent ∷ []) ≡ some none
unfolding select message error_of
ends_well = refl

shutdown-start_example :
    let s = start constructors (initial true true) 0 in
    let events = is_over nomad_controller none ∷ [] in
    let t = shutdown ends (still_waits s.error (select events)) s.server 9 in
    Perm s.parts t.parts
    × ((t.ending ≡ returned none) ↔ ((s.error ≡ none) × (select events ≡ none)))
    × ((t.ending ≡ returned none) ⊎ (t.ending ≡ blocked))
shutdown-start_example =
    shutdown-start constructors ends (λ w. refl) (λ w. refl) true true
      (is_over nomad_controller none ∷ []) 0 9
