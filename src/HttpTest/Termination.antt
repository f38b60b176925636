-- ===== src/HttpTest/Termination.antt =====
-- The loop of the post deployment test ends when the time is up.
use mathlib.Core.Path.{subst}
use mathlib.Core.Bool.{true≢false}
use consul_release_controlle.Prelude.{
  ◌≡◌, sym, ◌∙◌, ℕ, zero, suc, ◌+◌, ◌≤◌, ℤ, pos_part, String, none, some, List, [], ◌∷◌, true, inl,
  inr, arith,
}
use consul_release_controlle.Interfaces.{CheckResult}
use consul_release_controlle.StateMachine.Calls.{Error}
use consul_release_controlle.HttpTest.{
  Plugin, Outside, Round, broke, measured, sent, created, round, request, attempts, duration,
  execute,
}
use consul_release_controlle.HttpTest.Passes.{Ran, start, streak, attempts-cases, execute-attempts}

-- Time does not go back, a sleep takes as long as it is asked to, and a context is done when its
-- timeout has passed.
pub record Clock {W : Type 0} (o : Outside W) (now : W → ℕ) : Type 0 where
  pub sends : (q : _) (w : W) → now w ≤ now (o.send q w).1
  pub checks : (c : String) (d : ℕ) (w : W) → now w ≤ now (o.check c d w).2
  pub sleeps : (i : ℤ) (w : W) → now w + pos_part i ≤ now (o.sleep i w)
  pub expires : (t : ℤ) (w w' : W) → now w + pos_part t ≤ now w' → o.is_done t w w' ≡ true

module _ {W : Type 0} (o : Outside W) (now : W → ℕ) (clock : Clock o now) (p : Plugin)
    (candidate : String) where
  abbrev IsLater : W → Round W → Type 0
  IsLater w (broke e w') = Unit
  IsLater w (measured r w') = now w ≤ now w'

  sent-IsLater : (w : W) (x : Error × W) → now w ≤ now x.1 → IsLater w (sent o candidate x)
  unfolding sent
  sent-IsLater w (some e, w') h = tt
  sent-IsLater w (none, w') h = omega (arith, clock.checks candidate 30 w')

  created-IsLater : (w : W) (e : Error) → IsLater w (created o p candidate w e)
  unfolding created
  created-IsLater w (some e) = tt
  created-IsLater w none = sent-IsLater w (o.send (request o p w) w) (clock.sends (request o p w) w)

  round-later :
      (r : CheckResult) (w w' : W) → round o p candidate w ≡ measured r w' → now w ≤ now w'
  unfolding round
  round-later r w w' q =
      subst (IsLater w) q (created-IsLater w (o.new_request p.config.method (request o p w).url))

  module _ (timeout interval : ℤ) (began : W) (waits : 1 ≤ pos_part interval) where
    attempts-returns :
        (fuel : ℕ) (rs : List CheckResult) (w : W)
        → Ran o p candidate timeout interval began rs w
        → now began + pos_part timeout ≤ fuel + now w
        → (x : Error × W) × (attempts o p candidate timeout interval began (suc fuel) (streak rs) w
            ≡ some x)
    attempts-returns zero rs w ran h =
        elim (attempts-cases o p candidate timeout interval began zero rs w ran) [
          | inl (e, w1, (q, end)) ↦ ((e, w1), q)
          | inr (r, w1, (q, (early, next))) ↦ absurd (
              true≢false (
                sym (clock.expires timeout began w1 (omega (arith, round-later r w w1 q))) ∙ early))
        ]
    attempts-returns (suc fuel) rs w ran h =
        elim (attempts-cases o p candidate timeout interval began (suc fuel) rs w ran) [
          | inl (e, w1, (q, end)) ↦ ((e, w1), q)
          | inr (r, w1, (q, (early, (ran', same)))) ↦
              let (x, returns) =
                attempts-returns fuel (r ∷ rs) (o.sleep interval w1) ran'
                  (omega (arith, round-later r w w1 q, clock.sleeps interval w1)) in
              (x, same ∙ returns)
        ]

  -- With an interval of one unit of time at least, the test returns: a pass for each unit of the
  -- timeout, and one more, are enough.
  pub execute-returns :
      (timeout interval : ℤ) (w : W)
      → o.parse_duration p.config.timeout ≡ duration timeout
      → o.parse_duration p.config.interval ≡ duration interval
      → 1 ≤ pos_part interval
      → (x : Error × W) × (execute o (suc (pos_part timeout)) p candidate w ≡ some x)
  unfolding streak
  execute-returns timeout interval w t i waits =
      let (x, q) =
        attempts-returns timeout interval w waits (pos_part timeout) [] w start (omega arith) in
      (x, execute-attempts o p candidate timeout interval (suc (pos_part timeout)) w t i ∙ q)
