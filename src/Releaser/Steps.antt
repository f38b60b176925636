-- ===== src/Releaser/Steps.antt =====
-- What a chain of calls does to a view of the state.
use mathlib.Core.Option.{some-injective, none-ne-some}
use consul_release_controlle.Prelude.{◌≡◌, refl, sym, ap, ◌∙◌, String, Option, none, some}
use consul_release_controlle.Releaser.{Action, safe, went_on, and_then}

module _ {W V : Type 0} (view : W → V) where
  -- Without an error, the action takes the one value of the view to the other.
  abbrev pub Takes : V → V → Action W → Type 0
  Takes a b f = (w w1 : W) → view w ≡ a → f w ≡ some (none, w1) → view w1 ≡ b

  pub safe-Takes :
      (a b : V) (f : W → Option String × W)
      → ((w : W) → view w ≡ a → (f w).0 ≡ none → view (f w).1 ≡ b)
      → Takes a b (safe f)
  safe-Takes a b f h w w1 at q =
      let done = some-injective _ _ q in ap (λ r. view r.1) (sym done) ∙ h w at (ap (λ r. r.0) done)

  pub keeps-Takes :
      (a : V) (f : W → Option String × W) → ((w : W) → view (f w).1 ≡ view w) → Takes a a (safe f)
  keeps-Takes a f h = safe-Takes a a f (λ w at done. h w ∙ at)

  module _ (sleep : W → W) (delays : (w : W) → view (sleep w) ≡ view w) where
    went_on-Takes :
        (b d : V) (rest : Action W) (r : Option (Option String × W)) (w2 : W)
        → Takes b d rest
        → ((w1 : W) → r ≡ some (none, w1) → view w1 ≡ b)
        → went_on sleep rest r ≡ some (none, w2)
        → view w2 ≡ d
    unfolding went_on
    went_on-Takes b d rest none w2 h at q = absurd (none-ne-some _ q)
    went_on-Takes b d rest (some (some e, w)) w2 h at q =
        absurd (none-ne-some e (sym (ap (λ r. r.0) (some-injective _ _ q))))
    went_on-Takes b d rest (some (none, w)) w2 h at q = h (sleep w) w2 (delays w ∙ at w refl) q

    pub and_then-Takes :
        (a b d : V) (f rest : Action W)
        → Takes a b f
        → Takes b d rest
        → Takes a d (and_then sleep f rest)
    unfolding and_then
    and_then-Takes a b d f rest first later w w2 at q =
        went_on-Takes b d rest (f w) w2 later (λ w1 r. first w w1 at r) q
