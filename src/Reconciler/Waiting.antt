-- ===== src/Reconciler/Waiting.antt =====
-- The wait for the end of a destroy, and when the release is removed.
use mathlib.Core.Bool.{true≢false}
use consul_release_controlle.Prelude.{
  ◌≡◌, refl, sym, ◌∙◌, ◌⊎◌, inl, inr, ℕ, zero, suc, ◌+◌, ◌*◌, ◌≤◌, some, Bool, true, false, arith,
}
use consul_release_controlle.Interfaces.{State}
use consul_release_controlle.Release.{Release}
use consul_release_controlle.Reconciler.{
  Outside, Look, idle_now, stop_now, wait_on, look, removed, went_on, wait_destroyed,
}

-- A sleep takes as long as it is asked to, and a context is done when its timeout has passed.
pub record Clock {M W : Type 0} (o : Outside M W) (now : W → ℕ) : Type 0 where
  pub sleeps : (n : ℕ) (w : W) → now w + n ≤ now (o.sleep n w)
  pub expires : (t : ℕ) (w w' : W) → now w + t ≤ now w' → o.is_done t w w' ≡ true

look-idle : (b : Bool) (d : State) → look b d ≡ idle_now → (b ≡ false) × (d ≡ State.idle)
unfolding look
look-idle true d h = absurd (cc)
look-idle false State.idle h = (refl, refl)
look-idle false State.fail h = absurd (cc)
look-idle false d h = absurd (cc)

look-wait : (b : Bool) (d : State) → look b d ≡ wait_on → b ≡ false
unfolding look
look-wait true d h = absurd (cc)
look-wait false d h = refl

Look-cases : (l : Look) → (l ≡ idle_now) ⊎ ((l ≡ stop_now) ⊎ (l ≡ wait_on))
Look-cases idle_now = inl refl
Look-cases stop_now = inr (inl refl)
Look-cases wait_on = inr (inr refl)

module _ {M W : Type 0} (o : Outside M W) (r : Release) (m : M) (began : W) where
  -- The states in which the loop looks at the machine.
  pub data Slept : W → Type 0 where
    awake : Slept began
    nap :
        {w : W}
        → Slept w
        → look (o.is_done 300 began w) (o.machine_state m w) ≡ wait_on
        → Slept (o.sleep 2 w)

  -- The release and its machine are removed in a state in which the machine is idle and the time is
  -- not up; or nothing is removed, since the time was up or the machine had failed.
  pub data Ended : W → Type 0 where
    finished :
        {w : W}
        → Slept w
        → o.is_done 300 began w ≡ false
        → o.machine_state m w ≡ State.idle
        → Ended (removed o r w)
    gave_up :
        {w : W} → Slept w → look (o.is_done 300 began w) (o.machine_state m w) ≡ stop_now → Ended w

  -- The loop with some fuel returns, from a state on.
  Returns : ℕ → W → Type 0
  Returns fuel w = (w' : W) × ((wait_destroyed o fuel r m began w ≡ some w') × Ended w')

  pass-Returns :
      (fuel : ℕ) (w : W)
      → Slept w
      → (look (o.is_done 300 began w) (o.machine_state m w) ≡ wait_on → Returns fuel (o.sleep 2 w))
      → Returns (suc fuel) w
  unfolding Returns wait_destroyed went_on
  pass-Returns fuel w slept later =
      elim (Look-cases (look (o.is_done 300 began w) (o.machine_state m w))) [
        | inl l ↦
            let (early, idle) = look-idle _ _ l in
            (removed o r w, (rw l refl, finished slept early idle))
        | inr (inl l) ↦ (w, (rw l refl, gave_up slept l))
        | inr (inr l) ↦ let (w', (q, end)) = later l in (w', (rw l q, end))
      ]

  module _ (now : W → ℕ) (clock : Clock o now) where
    wait-Returns :
        (fuel : ℕ) (w : W) → Slept w → now began + 300 ≤ 2 * fuel + now w → Returns (suc fuel) w
    wait-Returns zero w slept h =
        pass-Returns zero w slept (λ l.
          absurd (true≢false (sym (clock.expires 300 began w (omega arith)) ∙ look-wait _ _ l)))
    wait-Returns (suc fuel) w slept h =
        pass-Returns (suc fuel) w slept
          (λ l. wait-Returns fuel (o.sleep 2 w) (nap slept l) (omega (arith, clock.sleeps 2 w)))

  -- The wait for the end of a destroy returns: 151 passes of two seconds are enough for its timeout of
  -- 300 seconds. It removes the release and its machine just after it found the machine idle, with
  -- time left; if the machine fails or the time is up, it removes nothing.
  pub wait_destroyed-Ended :
      (now : W → ℕ) (clock : Clock o now)
      → (w' : W) × ((wait_destroyed o 151 r m began began ≡ some w') × Ended w')
  unfolding Returns
  wait_destroyed-Ended now clock = wait-Returns now clock 150 began awake (omega arith)
