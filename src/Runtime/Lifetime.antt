-- ===== src/Runtime/Lifetime.antt =====
-- The operations of the runtime plugin, one after another, as in the life of a release. They rely on
-- `Frames`, which the Kubernetes client keeps; the Nomad client, which finds a job by any suffix of its
-- name, does not.
use Prim.Native.String.{◌++◌ as append}
use consul_release_controlle.Prelude.{◌≡◌, ◌≢◌, refl, ◌∙◌, String, List, [], ◌∷◌}
use consul_release_controlle.Runtime.Platform.{Client, View, Frames}
use consul_release_controlle.Runtime.{
  Plugin, init_primary, promote_candidate, remove_candidate, restore_original, remove_primary,
}
use consul_release_controlle.Runtime.Untouched.{init_primary-untouched, promote_candidate-untouched}
use consul_release_controlle.Runtime.Teardown.{
  remove_candidate-untouched, restore_original-untouched, remove_primary-untouched,
}

-- A call of the plugin: `InitPrimary` has the release's name.
pub data Operation : Type 0 where
  initialise : String → Operation
  promote : Operation
  remove : Operation
  restore : Operation
  retire : Operation

-- The one deployment that the operation may write: the primary or the candidate.
unfoldable pub target : Operation → Plugin → String
target (initialise release_name) p = append release_name "-primary"
target promote p = p.primary_name
target remove p = p.candidate_name
target restore p = p.candidate_name
target retire p = p.primary_name

module _ {W : Type 0} (client : Client W) where
  -- The plugin and the outside after the operation, whether it failed or not.
  unfoldable pub perform : Operation → Plugin → W → Plugin × W
  perform (initialise release_name) p w =
      let (result, q, w') = init_primary client release_name p w in (q, w')
  perform promote p w = let (result, q, w') = promote_candidate client p w in (q, w')
  perform remove p w = (p, (remove_candidate client p w).1)
  perform restore p w = (p, (restore_original client p w).1)
  perform retire p w = (p, (remove_primary client p w).1)

  unfoldable pub perform_all : List Operation → Plugin → W → W
  perform_all [] p w = w
  perform_all (o ∷ os) p w = let (q, w') = perform o p w in perform_all os q w'

  -- None of the operations has the name as its target, in the state of the plugin in which it is
  -- called.
  unfoldable pub Avoids : String → List Operation → Plugin → W → Type 0
  Avoids a [] p w = Unit
  Avoids a (o ∷ os) p w = let (q, w') = perform o p w in (target o p ≢ a) × Avoids a os q w'

  module _ (view : View W) (a b : String) (f : Frames client view a b) where
    perform-untouched :
        (o : Operation) (p : Plugin) (w : W)
        → target o p ≢ a
        → view (perform o p w).1 a b ≡ view w a b
    unfolding perform target
    perform-untouched (initialise n) p w h = init_primary-untouched client view a b f n p w h
    perform-untouched promote p w h = promote_candidate-untouched client view a b f p w h
    perform-untouched remove p w h = remove_candidate-untouched client view a b f p w h
    perform-untouched restore p w h = restore_original-untouched client view a b f p w h
    perform-untouched retire p w h = remove_primary-untouched client view a b f p w h

    -- Let the client's reads and the saving of the plugin's state leave a place alone, and its writes for
    -- other names too. Then whatever operations of the runtime plugin run one after another, whether they
    -- succeed, fail or panic, a deployment at the place that is the target of none of them stays as it
    -- was. The target of `InitPrimary`, `PromoteCandidate` and `RemovePrimary` is the primary, that of
    -- `RemoveCandidate` and `RestoreOriginal` the candidate.
    pub perform_all-untouched :
        (os : List Operation) (p : Plugin) (w : W)
        → Avoids a os p w
        → view (perform_all os p w) a b ≡ view w a b
    unfolding perform_all Avoids
    perform_all-untouched [] p w h = refl
    perform_all-untouched (o ∷ os) p w h =
        perform_all-untouched os (perform o p w).0 (perform o p w).1 h.1
        ∙ perform-untouched o p w h.0
