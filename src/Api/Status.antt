-- ===== src/Api/Status.antt =====
-- The status that a handler of the HTTP API responds with, and those that it tells the metrics.
use consul_release_controlle.Prelude.{◌≡◌, ◌≢◌, refl, ℕ, String, Option, none, some, List, [], ◌∷◌}
use consul_release_controlle.Release.{Release}
use consul_release_controlle.Storage.{
  StoreError, release_not_found, plugin_state_not_found, other, Found, found, failed,
}
use consul_release_controlle.Storage.Kv.{Result, ok, err}
use consul_release_controlle.Api.{
  GetAllResponse, row_first, row_made, rows, rows_made, Made, made, not_made, machine_panics,
  Effect, told, refused, headed, wrote, Outside, Ending, panicked, Handled, post_configured,
  post_machine, post_saved, post, all_listed, get_all, single_found, get_single, delete_begun,
  delete_machine, delete_found, delete,
}

pub data Request : Type 0 where
  post_request : Result Release → Request
  get_all_request : Request
  get_single_request : String → Request
  delete_request : String → Request

-- The status of the response: that of the first header, which a body writes too.
unfoldable pub answered : List Effect → ℕ
answered [] = 200
answered (told s ∷ es) = answered es
answered (refused text s ∷ es) = s
answered (headed s ∷ es) = s
answered (wrote body ∷ es) = 200

unfoldable pub tells : List Effect → List ℕ
tells [] = []
tells (told s ∷ es) = s ∷ tells es
tells (refused text s ∷ es) = tells es
tells (headed s ∷ es) = tells es
tells (wrote body ∷ es) = tells es

module _ {M W : Type 0} (o : Outside M W) where
  unfoldable pub handle : Request → W → Handled M W
  handle (post_request r) w = post o r w
  handle get_all_request w = get_all o w
  handle (get_single_request name) w = get_single o name w
  handle (delete_request name) w = delete o name w

  -- The loop of `GetAll` comes to a release whose machine panics.
  pub data CrashesIn : List Release → W → W → Type 0 where
    at_first :
        {r : Release} {rs : List Release} {w v : W}
        → o.get_state_machine r w ≡ (machine_panics, v)
        → CrashesIn (r ∷ rs) w v
    at_later :
        {r : Release} {rs : List Release} {x : Made M} {w u v : W}
        → o.get_state_machine r w ≡ (x, u)
        → x ≢ machine_panics
        → CrashesIn rs (o.strategy_state r u).1 v
        → CrashesIn (r ∷ rs) w v

  -- The calls of a request, from a state to a state, after which the handler panics.
  pub data Crashes : Request → W → W → Type 0 where
    in_post :
        {r : Release} {w u v : W}
        → o.upsert_release r w ≡ (none, u)
        → o.get_state_machine r u ≡ (machine_panics, v)
        → Crashes (post_request (ok r)) w v
    in_get_all :
        {rs : List Release} {w u v : W}
        → o.list_releases w ≡ (found rs, u)
        → CrashesIn rs u v
        → Crashes get_all_request w v
    in_get_single :
        {name : String} {e : StoreError} {w v : W}
        → o.get_release name w ≡ (failed e, v)
        → e ≢ release_not_found
        → Crashes (get_single_request name) w v
    in_delete :
        {name : String} {r : Release} {w u v : W}
        → o.get_release name w ≡ (found r, u)
        → o.get_state_machine r u ≡ (machine_panics, v)
        → Crashes (delete_request name) w v

  -- How a request ends from a state. The metrics are told the one status that is responded with; or
  -- the `Configure` of a `Post` failed, and they are told 500 and then 200; or the handler panicked,
  -- before it told or responded anything.
  pub data Answers : Request → W → Handled M W → Type 0 where
    tidy :
        {q : Request} {es : List Effect} {end : Ending M} {w v : W}
        → tells es ≡ answered es ∷ []
        → end ≢ panicked
        → Answers q w (es, end, v)
    twice :
        {r : Release} {m : M} {e : String} {es : List Effect} {end : Ending M} {w u x v : W}
        → o.upsert_release r w ≡ (none, u)
        → o.get_state_machine r u ≡ (made m, x)
        → o.configure m x ≡ (some e, v)
        → tells es ≡ 500 ∷ 200 ∷ []
        → answered es ≡ 500
        → Answers (post_request (ok r)) w (es, end, v)
    crashed : {q : Request} {w v : W} → Crashes q w v → Answers q w ([], panicked, v)

  configured-Answers :
      (r : Release) (m : M) (w u x : W) (c : Option String × W)
      → o.upsert_release r w ≡ (none, u)
      → o.get_state_machine r u ≡ (made m, x)
      → o.configure m x ≡ c
      → Answers (post_request (ok r)) w (post_configured o c)
  unfolding post_configured tells answered
  configured-Answers r m w u x (some e, v) saved machine h = twice saved machine h refl refl
  configured-Answers r m w u x (none, v) saved machine h = tidy refl (λ q. cc)

  machine-Answers :
      (r : Release) (w u : W) (c : Made M × W)
      → o.upsert_release r w ≡ (none, u)
      → o.get_state_machine r u ≡ c
      → Answers (post_request (ok r)) w (post_machine o c)
  unfolding post_machine tells answered
  machine-Answers r w u (machine_panics, v) saved h = crashed (in_post saved h)
  machine-Answers r w u (not_made e, v) saved h = tidy refl (λ q. cc)
  machine-Answers r w u (made m, v) saved h =
      configured-Answers r m w u v (o.configure m v) saved h refl

  saved-Answers :
      (r : Release) (w : W) (c : Option StoreError × W)
      → o.upsert_release r w ≡ c
      → Answers (post_request (ok r)) w (post_saved o r c)
  unfolding post_saved tells answered
  saved-Answers r w (some e, v) h = tidy refl (λ q. cc)
  saved-Answers r w (none, v) h = machine-Answers r w v (o.get_state_machine r v) h refl

  row_first-none :
      (x : GetAllResponse) (c : Option (List GetAllResponse) × W) (v : W)
      → row_first o x c ≡ (none, v)
      → c ≡ (none, v)
  unfolding row_first
  row_first-none x (none, w) v h = h
  row_first-none x (some xs, w) v h = cc

  row_made-CrashesIn :
      (r : Release) (rs : List Release) (w v : W) (c : Made M × W)
      → ((u : W) → rows o rs u ≡ (none, v) → CrashesIn rs u v)
      → o.get_state_machine r w ≡ c
      → row_made o r c (λ u. rows o rs u) ≡ (none, v)
      → CrashesIn (r ∷ rs) w v
  unfolding row_made
  row_made-CrashesIn r rs w v (machine_panics, u) later q h = at_first (cc)
  row_made-CrashesIn r rs w v (not_made e, u) later q h =
      at_later q (λ z. cc) (later (o.strategy_state r u).1 (row_first-none _ _ v h))
  row_made-CrashesIn r rs w v (made m, u) later q h =
      at_later q (λ z. cc) (later (o.strategy_state r u).1 (row_first-none _ _ v h))

  rows-CrashesIn : (rs : List Release) (w v : W) → rows o rs w ≡ (none, v) → CrashesIn rs w v
  unfolding rows
  rows-CrashesIn [] w v h = cc
  rows-CrashesIn (r ∷ rs) w v h =
      row_made-CrashesIn r rs w v (o.get_state_machine r w) (λ u. rows-CrashesIn rs u v) refl h

  rows-Answers :
      (rs : List Release) (w u : W) (c : Option (List GetAllResponse) × W)
      → o.list_releases w ≡ (found rs, u)
      → rows o rs u ≡ c
      → Answers get_all_request w (rows_made o c)
  unfolding rows_made tells answered
  rows-Answers rs w u (none, v) listed h = crashed (in_get_all listed (rows-CrashesIn rs u v h))
  rows-Answers rs w u (some xs, v) listed h = tidy refl (λ q. cc)

  all-Answers :
      (w : W) (c : Found (List Release) × W)
      → o.list_releases w ≡ c
      → Answers get_all_request w (all_listed o c)
  unfolding all_listed tells answered
  all-Answers w (failed e, v) h = tidy refl (λ q. cc)
  all-Answers w (found rs, v) h = rows-Answers rs w v (rows o rs v) h refl

  single-Answers :
      (name : String) (w : W) (c : Found Release × W)
      → o.get_release name w ≡ c
      → Answers (get_single_request name) w (single_found o c)
  unfolding single_found tells answered
  single-Answers name w (failed release_not_found, v) h = tidy refl (λ q. cc)
  single-Answers name w (failed plugin_state_not_found, v) h = crashed (in_get_single h (λ q. cc))
  single-Answers name w (failed (other e), v) h = crashed (in_get_single h (λ q. cc))
  single-Answers name w (found r, v) h = tidy refl (λ q. cc)

  begun-Answers :
      (name : String) (w : W) (r : Release) (m : M) (c : Option String × W)
      → Answers (delete_request name) w (delete_begun o r m c)
  unfolding delete_begun tells answered
  begun-Answers name w r m (some e, v) = tidy refl (λ q. cc)
  begun-Answers name w r m (none, v) = tidy refl (λ q. cc)

  destroyed-Answers :
      (name : String) (r : Release) (w u : W) (c : Made M × W)
      → o.get_release name w ≡ (found r, u)
      → o.get_state_machine r u ≡ c
      → Answers (delete_request name) w (delete_machine o r c)
  unfolding delete_machine tells answered
  destroyed-Answers name r w u (machine_panics, v) f h = crashed (in_delete f h)
  destroyed-Answers name r w u (not_made e, v) f h = tidy refl (λ q. cc)
  destroyed-Answers name r w u (made m, v) f h = begun-Answers name w r m (o.destroy m v)

  deleted-Answers :
      (name : String) (w : W) (c : Found Release × W)
      → o.get_release name w ≡ c
      → Answers (delete_request name) w (delete_found o name c)
  unfolding delete_found tells answered
  deleted-Answers name w (failed release_not_found, v) h = tidy refl (λ q. cc)
  deleted-Answers name w (failed _, v) h = tidy refl (λ q. cc)
  deleted-Answers name w (found r, v) h =
      destroyed-Answers name r w v (o.get_state_machine r v) h refl

  -- Every handler of the API tells the metrics once, with the status that the client gets, but in these
  -- cases: a `Post` whose release was saved and whose `Configure` fails responds with 500 and tells 500
  -- and 200; `GetSingle` panics if the store fails with an error other than `ReleaseNotFound`; and
  -- `Post`, `GetAll` and `Delete` panic if the provider panics when they ask for the state machine of
  -- the release, or of one of the releases.
  pub handle-Answers : (q : Request) (w : W) → Answers q w (handle q w)
  unfolding handle post get_all get_single delete tells answered
  handle-Answers (post_request (err e)) w = tidy refl (λ q. cc)
  handle-Answers (post_request (ok r)) w = saved-Answers r w (o.upsert_release r w) refl
  handle-Answers get_all_request w = all-Answers w (o.list_releases w) refl
  handle-Answers (get_single_request name) w = single-Answers name w (o.get_release name w) refl
  handle-Answers (delete_request name) w = deleted-Answers name w (o.get_release name w) refl
