-- ===== src/Server/Lifecycle/Stopping.antt =====
-- What Shutdown stops of what Start has started.
use mathlib.Core.List.{Perm, ◌++◌, append_assoc, perm_append_singleton}
use mathlib.Core.List.Perm
use consul_release_controlle.Prelude.{
  ◌≡◌, refl, ◌∙◌, String, Option, none, some, List, [], ◌∷◌, Bool, true, false, ◌↔◌, ◌⊎◌, inl, inr,
  if◌then◌else◌,
}
use consul_release_controlle.Server.{Rehydrated, rehydrate_releases}
use consul_release_controlle.Server.Lifecycle.{
  Part, metrics_server, kubernetes_controller, nomad_controller, api_server, Release, initial,
  Constructors, Started, Ends, api_made, nomad_made, start_nomad, start_kubernetes, rehydrated,
  storage_made, start, metrics_stopped, stop_kubernetes, stop_metrics, api_stopped, stop_nomad,
  shutdown, Ending, returned, blocked, Event, select, still_waits,
}

-- A server's settings, and whether it has a Kubernetes controller, a Nomad controller and an API server.
record Flags : Type 0 where
  enable_kubernetes : Bool
  enable_nomad : Bool
  kubernetes : Bool
  nomad : Bool
  api : Bool

abbrev server : Flags → Release
server f = record {
  enable_kubernetes = f.enable_kubernetes;
  enable_nomad = f.enable_nomad;
  has_metrics = true;
  has_kubernetes = f.kubernetes;
  has_nomad = f.nomad;
  has_api = f.api;
}

-- The end of `Shutdown`, the send on its channel.
abbrev sent : Bool → Ending
sent is_waiting = if is_waiting then returned none else blocked

sent-last :
    (e : Option String) (result : Option (Option String))
    → ((sent (still_waits e result) ≡ returned none) ↔ ((e ≡ none) × (result ≡ none)))
      × ((sent (still_waits e result) ≡ returned none) ⊎ (sent (still_waits e result) ≡ blocked))
unfolding still_waits
sent-last none none = ((λ h. (refl, refl), λ h. refl), inl refl)
sent-last none (some r) = ((λ h. cc, λ h. cc (h.1)), inr refl)
sent-last (some e) result = ((λ h. cc, λ h. cc (h.0)), inr refl)

abbrev only : Bool → Part → List Part → List Part
only b p ps = if b then p ∷ ps else ps

abbrev running : Flags → List Part
running f =
    only f.api api_server
      (metrics_server ∷ only f.kubernetes kubernetes_controller (only f.nomad nomad_controller []))

module _ {W : Type 0} (ends : Ends W) (is_waiting : Bool)
    (api_ends : (w : W) → (ends.shutdown_api w).0 ≡ none)
    (metrics_end : (w : W) → (ends.stop_server w).0 ≡ none) where
  abbrev last : Ending
  last = sent is_waiting

  Stops : Release → List Part → W → Type 0
  Stops r ps w =
      (shutdown ends is_waiting r w).parts ≡ ps × (shutdown ends is_waiting r w).ending ≡ last

  metrics_stopped-none :
      (r : Release) (ps : List Part) (x : Option String × W)
      → x.0 ≡ none
      → metrics_stopped ends is_waiting r ps x
        ≡ stop_kubernetes ends is_waiting r (ps ++ metrics_server ∷ []) x.1
  unfolding metrics_stopped
  metrics_stopped-none r ps (none, w) h = refl
  metrics_stopped-none r ps (some e, w) h = absurd (cc)

  api_stopped-none :
      (r : Release) (x : Option String × W)
      → x.0 ≡ none
      → api_stopped ends is_waiting r x ≡ stop_metrics ends is_waiting r (api_server ∷ []) x.1
  unfolding api_stopped
  api_stopped-none r (none, w) h = refl
  api_stopped-none r (some e, w) h = absurd (cc)

  stop_metrics-quiet :
      (f : Flags) (ps : List Part) (w : W)
      → (stop_metrics ends is_waiting (server f) ps w).parts
          ≡ ps
            ++ metrics_server
              ∷ only f.kubernetes kubernetes_controller (only f.nomad nomad_controller [])
        × (stop_metrics ends is_waiting (server f) ps w).ending ≡ last
  unfolding stop_metrics stop_kubernetes stop_nomad ◌++◌
  stop_metrics-quiet f ps w =
      rw (metrics_stopped-none (server f) ps (ends.stop_server w) (metrics_end w))
        (go f.kubernetes f.nomad)
    where
      go :
          (k n : Bool)
          → (let qs =
                  if k
                  then (ps ++ metrics_server ∷ []) ++ kubernetes_controller ∷ []
                  else ps ++ metrics_server ∷ [] in
                if n then qs ++ nomad_controller ∷ [] else qs)
              ≡ ps ++ metrics_server ∷ only k kubernetes_controller (only n nomad_controller [])
            × last ≡ last
      go true true = (
        append_assoc (ps ++ metrics_server ∷ []) (kubernetes_controller ∷ [])
              (nomad_controller ∷ [])
            ∙ append_assoc ps (metrics_server ∷ []) (kubernetes_controller ∷ nomad_controller ∷ []),
        refl,
      )
      go true false = (append_assoc ps (metrics_server ∷ []) (kubernetes_controller ∷ []), refl)
      go false true = (append_assoc ps (metrics_server ∷ []) (nomad_controller ∷ []), refl)
      go false false = (refl, refl)

  shutdown-running : (f : Flags) (w : W) → Stops (server f) (running f) w
  unfolding Stops shutdown
  shutdown-running f w = go f.api
    where
      go :
          (a : Bool)
          → (let s =
                if a
                then api_stopped ends is_waiting (server f) (ends.shutdown_api w)
                else stop_metrics ends is_waiting (server f) [] w in
              s.parts
                ≡ only a api_server (
                    metrics_server
                    ∷ only f.kubernetes kubernetes_controller (only f.nomad nomad_controller []))
              × s.ending ≡ last)
      go false = stop_metrics-quiet f [] w
      go true =
          rw (api_stopped-none (server f) (ends.shutdown_api w) (api_ends w))
            (stop_metrics-quiet f (api_server ∷ []) (ends.shutdown_api w).1)

module _ {M W : Type 0} (c : Constructors M W) where
  -- The pointers of the server are those of the parts that were started.
  Keeps : Started M W → Type 0
  Keeps s = (f : Flags) × s.server ≡ server f × Perm s.parts (running f)

  api_made-Keeps :
      (ek en k n : Bool) (ms : List M) (x : Option String × W)
      → Keeps (
          api_made c
            (server (record {
              enable_kubernetes = ek;
              enable_nomad = en;
              kubernetes = k;
              nomad = n;
              api = false;
            }))
            (metrics_server ∷ only k kubernetes_controller (only n nomad_controller []))
            ms
            x)
  unfolding Keeps api_made
  api_made-Keeps ek en k n ms (some e, w) = (_, refl, Perm.refl _)
  api_made-Keeps ek en k n ms (none, w) = (
    record { enable_kubernetes = ek; enable_nomad = en; kubernetes = k; nomad = n; api = true },
    refl,
    perm_append_singleton api_server _,
  )

  start_nomad-Keeps :
      (ek en k : Bool) (ms : List M) (w : W)
      → Keeps (
          start_nomad c
            (server (record {
              enable_kubernetes = ek;
              enable_nomad = en;
              kubernetes = k;
              nomad = false;
              api = false;
            }))
            (metrics_server ∷ only k kubernetes_controller [])
            ms
            w)
  unfolding start_nomad nomad_made Keeps ◌++◌
  start_nomad-Keeps ek false k ms w = api_made-Keeps ek false k false ms (c.new_api w)
  start_nomad-Keeps ek true k ms w = go k (c.new_nomad w)
    where
      go :
          (k : Bool) (x : Option String × W)
          → Keeps (
              nomad_made c
                (server (record {
                  enable_kubernetes = ek;
                  enable_nomad = true;
                  kubernetes = k;
                  nomad = false;
                  api = false;
                }))
                (metrics_server ∷ only k kubernetes_controller [])
                ms
                x)
      go k (some e, w) = (_, refl, Perm.refl _)
      go true (none, w) = api_made-Keeps ek true true true ms (c.new_api w)
      go false (none, w) = api_made-Keeps ek true false true ms (c.new_api w)

  start_kubernetes-Keeps :
      (ek en : Bool) (ms : List M) (w : W) → Keeps (start_kubernetes c (initial ek en) ms w)
  unfolding start_kubernetes initial
  start_kubernetes-Keeps true en ms w = start_nomad-Keeps true en true ms w
  start_kubernetes-Keeps false en ms w = start_nomad-Keeps false en false ms w

  start-Keeps : (ek en : Bool) (w : W) → Keeps (start c (initial ek en) w)
  unfolding start storage_made rehydrated Keeps initial
  start-Keeps ek en w = made (c.new_storage w)
    where
      resumed : (x : Rehydrated M W) → Keeps (rehydrated c (initial ek en) x)
      resumed (some e, ms, w') = (_, refl, Perm.refl _)
      resumed (none, ms, w') = start_kubernetes-Keeps ek en ms w'

      made : (x : Option String × W) → Keeps (storage_made c (initial ek en) x)
      made (some e, w') = (_, refl, Perm.refl _)
      made (none, w') = resumed (rehydrate_releases c.provider w')

  -- Whatever Start did before it waits or returns an error, and whatever events its loop then had: if the
  -- API server and the metrics server end without an error, Shutdown stops just the parts that were
  -- started, each once; and it returns just if Start has neither failed nor left its loop, else it
  -- blocks for ever, with all parts stopped.
  pub shutdown-start :
      (ends : Ends W)
      → ((w : W) → (ends.shutdown_api w).0 ≡ none)
      → ((w : W) → (ends.stop_server w).0 ≡ none)
      → (kubernetes nomad : Bool) (events : List Event) (w w' : W)
      → (let s = start c (initial kubernetes nomad) w in
          let is_waiting = still_waits s.error (select events) in
          let t = shutdown ends is_waiting s.server w' in
          Perm s.parts t.parts
          × ((t.ending ≡ returned none) ↔ ((s.error ≡ none) × (select events ≡ none)))
          × ((t.ending ≡ returned none) ⊎ (t.ending ≡ blocked)))
  unfolding Keeps Stops
  shutdown-start ends api_ends metrics_end kubernetes nomad events w w' =
      let (f, same, perm) = start-Keeps kubernetes nomad w in
      let is_waiting = still_waits (start c (initial kubernetes nomad) w).error (select events) in
      let (stopped, ended) = shutdown-running ends is_waiting api_ends metrics_end f w' in
      let (just, or_blocks) =
        sent-last (start c (initial kubernetes nomad) w).error (select events) in
      rw same (rw (stopped, ended) (perm, just, or_blocks))
