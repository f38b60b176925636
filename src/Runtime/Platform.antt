-- ===== src/Runtime/Platform.antt =====
-- pkg/plugins/interfaces/runtime.go: the deployments of a platform, and the client of the platform
-- that the runtime plugin is given.
use consul_release_controlle.Prelude.{
  ◌≡◌, ◌≢◌, ℤ, String, Option, none, some, List, [], ◌∷◌, if◌then◌else◌, str_eq,
}

-- The sentinel errors, another error, and an error with a text put in front of it.
pub data Err : Type 0 where
  deployment_not_found deployment_not_healthy : Err
  message : String → Err
  wrapped : String → Err → Err

pub data Result (A : Type 0) : Type 0 where
  ok : A → Result A
  err : Err → Result A

-- How a call of the client ends: it returns, with an error or without, or it panics.
pub data Called (A : Type 0) : Type 0 where
  replied : A → Called A
  fails : Err → Called A
  panics : Called A

-- `map[string]string`
abbrev pub Meta : Type 0
Meta = List (String × String)

pub record Deployment : Type 0 where
  pub name : String
  pub namespace : String
  pub resource_version : String
  pub meta : Option Meta
  pub instances : ℤ

abbrev pub version_label : String
version_label = "consul-release-controller-version"

unfoldable pub delete : String → Meta → Meta
delete k [] = []
delete k ((j, v) ∷ m) = let rest = delete k m in if str_eq j k then rest else (j, v) ∷ rest

-- `m[k] = v`
unfoldable pub put : String → String → Meta → Meta
put k v m = (k, v) ∷ delete k m

abbrev pub meta_or_empty : Option Meta → Meta
meta_or_empty none = []
meta_or_empty (some m) = m

-- What the runtime plugin calls, over a state `W`: `RuntimeClient`, and `UpsertState` of its store
-- with the candidate's and the primary's name. A deployment that is read may be nil without an error.
pub record Client (W : Type 0) : Type 0 where
  pub get_deployment : String → String → W → Called (Option Deployment) × W
  pub get_deployment_with_selector : String → String → W → Called (Option Deployment) × W
  pub update_deployment : Deployment → W → Called Unit × W
  pub clone_deployment : Deployment → Deployment → W → Called Unit × W
  pub delete_deployment : String → String → W → Option Err × W
  pub get_healthy_deployment : String → String → W → Called (Option Deployment) × W
  pub upsert_state : String → String → W → W

-- The deployment of the given name and namespace, in each state of the outside.
abbrev pub View : Type 0 → Type 0
View W = W → String → String → Option Deployment

-- The behaviour of the client on one place, a name and a namespace: a deployment that is read has the
-- name that was asked for, reading changes nothing, and a write for another name leaves this place
-- alone. Nothing is asked of a write for the place itself.
pub record Frames {W : Type 0} (client : Client W) (view : View W) (a b : String) : Type 0 where
  pub get_named :
      (n s : String) (w : W) {d : Deployment}
      → (client.get_deployment n s w).0 ≡ replied (some d)
      → d.name ≡ n
  pub get_reads : (n s : String) (w : W) → view (client.get_deployment n s w).1 a b ≡ view w a b
  pub select_reads :
      (n s : String) (w : W) → view (client.get_deployment_with_selector n s w).1 a b ≡ view w a b
  pub healthy_reads :
      (n s : String) (w : W) → view (client.get_healthy_deployment n s w).1 a b ≡ view w a b
  pub state_apart : (n s : String) (w : W) → view (client.upsert_state n s w) a b ≡ view w a b
  pub update_apart :
      (d : Deployment) (w : W) → d.name ≢ a → view (client.update_deployment d w).1 a b ≡ view w a b
  pub clone_apart :
      (c d : Deployment) (w : W)
      → d.name ≢ a
      → view (client.clone_deployment c d w).1 a b ≡ view w a b
  pub delete_apart :
      (n s : String) (w : W) → n ≢ a → view (client.delete_deployment n s w).1 a b ≡ view w a b
