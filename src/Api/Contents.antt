-- ===== src/Api/Contents.antt =====
-- What `GetAll` lists, and what `Delete` begins.
use Prim.Native.String.{◌++◌ as append}
use consul_release_controlle.Prelude.{◌≡◌, ◌≢◌, refl, String, Option, none, some, List, [], ◌∷◌}
use consul_release_controlle.Interfaces.{State}
use consul_release_controlle.Release.{Release}
use consul_release_controlle.Storage.{
  StoreError, release_not_found, plugin_state_not_found, other, Found, found, failed,
}
use consul_release_controlle.Reconciler.{ended, waits}
use consul_release_controlle.Api.{
  GetAllResponse, releases, Effect, told, refused, wrote, failing, Outside, Made, made, not_made,
  machine_panics, returned, panicked, row_first, row_made, rows_made, Handled, row, rows,
  all_listed, get_all, delete_begun, delete_machine, delete_found, delete,
}

-- The row tells of the release.
unfoldable pub Describes : GetAllResponse → Release → Type 0
Describes x r = (x.name ≡ r.name) × (x.version ≡ r.version)

-- Each row tells of the release at its place, and there are no others.
pub data AllDescribe : List GetAllResponse → List Release → Type 0 where
  none_left : AllDescribe [] []
  one_more :
      {x : GetAllResponse} {r : Release} {xs : List GetAllResponse} {rs : List Release}
      → Describes x r
      → AllDescribe xs rs
      → AllDescribe (x ∷ xs) (r ∷ rs)

module _ {M W : Type 0} (o : Outside M W) where
  row-Describes : (r : Release) (d : Option State) (s : Found String) → Describes (row o r d s) r
  unfolding row Describes
  row-Describes r d (failed e) = (refl, refl)
  row-Describes r d (found t) = (refl, refl)

  -- The rows of the loop, if it does not panic, tell of the releases in their order.
  AllTell : Option (List GetAllResponse) → List Release → Type 0
  AllTell none rs = Unit
  AllTell (some xs) rs = AllDescribe xs rs

  row_first-AllTell :
      (r : Release) (rs : List Release) (d : Option State) (s : Found String)
      (c : Option (List GetAllResponse) × W)
      → AllTell c.0 rs
      → AllTell (row_first o (row o r d s) c).0 (r ∷ rs)
  unfolding row_first AllTell
  row_first-AllTell r rs d s (none, w) h = tt
  row_first-AllTell r rs d s (some xs, w) h = one_more (row-Describes r d s) h

  row_made-AllTell :
      (r : Release) (rs : List Release) (c : Made M × W)
      → ((w : W) → AllTell (rows o rs w).0 rs)
      → AllTell (row_made o r c (λ w. rows o rs w)).0 (r ∷ rs)
  unfolding row_made AllTell
  row_made-AllTell r rs (machine_panics, v) later = tt
  row_made-AllTell r rs (not_made e, v) later = row_first-AllTell r rs _ _ _ (later _)
  row_made-AllTell r rs (made m, v) later = row_first-AllTell r rs _ _ _ (later _)

  rows-AllTell : (rs : List Release) (w : W) → AllTell (rows o rs w).0 rs
  unfolding rows AllTell
  rows-AllTell [] w = none_left
  rows-AllTell (r ∷ rs) w = row_made-AllTell r rs (o.get_state_machine r w) (rows-AllTell rs)

  -- What `GetAll` does with what the store lists: it responds with a row for every release, or with an
  -- error, or panics.
  pub data Lists : Found (List Release) → List Effect → Type 0 where
    listed :
        {rs : List Release} {xs : List GetAllResponse}
        → AllDescribe xs rs
        → Lists (found rs) (wrote (releases xs) ∷ told 200 ∷ [])
    not_listed :
        {e : StoreError} → Lists (failed e) (told 500 ∷ refused "unable to fetch releases" 500 ∷ [])
    crashed : {rs : List Release} → Lists (found rs) []

  rows-Lists :
      (rs : List Release) (c : Option (List GetAllResponse) × W)
      → AllTell c.0 rs
      → Lists (found rs) (rows_made o c).0
  unfolding rows_made AllTell
  rows-Lists rs (none, w) h = crashed
  rows-Lists rs (some xs, w) h = listed h

  all-Lists : (c : Found (List Release) × W) → Lists c.0 (all_listed o c).0
  unfolding all_listed
  all-Lists (failed e, w) = not_listed
  all-Lists (found rs, w) = rows-Lists rs (rows o rs w) (rows-AllTell rs w)

  -- `GetAll` responds with one row for each release of the store, in the store's order, whether a state
  -- machine or a state of the strategy is to be had for it or not, unless it panics; an error of the
  -- store is answered with 500 and no rows.
  pub get_all-Lists : (w : W) → Lists (o.list_releases w).0 (get_all o w).0
  unfolding get_all
  get_all-Lists w = all-Lists (o.list_releases w)

  -- How `Delete` ends for the name, from a state, by the answers to its calls, each made in the state
  -- that the one before it left.
  pub data Deletes (name : String) (w : W) : Handled M W → Type 0 where
    began :
        {r : Release} {m : M} {u x v : W}
        → o.get_release name w ≡ (found r, u)
        → o.get_state_machine r u ≡ (made m, x)
        → o.destroy m x ≡ (none, v)
        → Deletes name w (told 200 ∷ [], returned (waits r m), v)
    not_begun :
        {r : Release} {m : M} {e : String} {u x v : W}
        → o.get_release name w ≡ (found r, u)
        → o.get_state_machine r u ≡ (made m, x)
        → o.destroy m x ≡ (some e, v)
        → Deletes name w (failing 500 "unable to cleanup release", returned (ended none), v)
    no_machine :
        {r : Release} {e : String} {u v : W}
        → o.get_release name w ≡ (found r, u)
        → o.get_state_machine r u ≡ (not_made e, v)
        → Deletes name w
            (failing 500 "unable to find state machine for release", returned (ended none), v)
    panics :
        {r : Release} {u v : W}
        → o.get_release name w ≡ (found r, u)
        → o.get_state_machine r u ≡ (machine_panics, v)
        → Deletes name w ([], panicked, v)
    missing :
        {v : W}
        → o.get_release name w ≡ (failed release_not_found, v)
        → Deletes name w
            (failing 404 (append (append "release " name) " not found"), returned (ended none), v)
    not_read :
        {e : StoreError} {v : W}
        → o.get_release name w ≡ (failed e, v)
        → e ≢ release_not_found
        → Deletes name w (failing 500 "unable to delete release", returned (ended none), v)

  begun-Deletes :
      (name : String) (w : W) (r : Release) (m : M) (u x : W)
      → o.get_release name w ≡ (found r, u)
      → o.get_state_machine r u ≡ (made m, x)
      → (c : Option String × W) → o.destroy m x ≡ c
      → Deletes name w (delete_begun o r m c)
  unfolding delete_begun
  begun-Deletes name w r m u x f g (some e, v) h = not_begun f g h
  begun-Deletes name w r m u x f g (none, v) h = began f g h

  machine-Deletes :
      (name : String) (w : W) (r : Release) (u : W)
      → o.get_release name w ≡ (found r, u)
      → (c : Made M × W) → o.get_state_machine r u ≡ c
      → Deletes name w (delete_machine o r c)
  unfolding delete_machine
  machine-Deletes name w r u f (machine_panics, v) g = panics f g
  machine-Deletes name w r u f (not_made e, v) g = no_machine f g
  machine-Deletes name w r u f (made m, v) g = begun-Deletes name w r m u v f g (o.destroy m v) refl

  found-Deletes :
      (name : String) (w : W) (c : Found Release × W)
      → o.get_release name w ≡ c
      → Deletes name w (delete_found o name c)
  unfolding delete_found
  found-Deletes name w (failed release_not_found, v) f = missing f
  found-Deletes name w (failed plugin_state_not_found, v) f = not_read f (λ q. cc)
  found-Deletes name w (failed (other e), v) f = not_read f (λ q. cc)
  found-Deletes name w (found r, v) f = machine-Deletes name w r v f (o.get_state_machine r v) refl

  -- `Delete` reads the release, asks for its state machine and tells the machine to destroy. If all
  -- three succeed, it responds with 200 and leaves a goroutine that waits for this machine to remove
  -- this release. A release that is not there is answered with 404 and every other error with 500, and
  -- no goroutine is left; a machine that cannot be made for want of a plugin makes the handler panic.
  pub delete-Deletes : (name : String) (w : W) → Deletes name w (delete o name w)
  unfolding delete
  delete-Deletes name w = found-Deletes name w (o.get_release name w) refl
