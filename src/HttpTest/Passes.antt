-- ===== src/HttpTest/Passes.antt =====
-- What the result of the post deployment test says of its rounds.
use mathlib.Core.Path.{subst}
use mathlib.Core.Option.{some-injective}
use consul_release_controlle.Prelude.{
  ◌≡◌, refl, sym, ◌∙◌, ◌⊎◌, ℕ, zero, suc, ℤ, pos, leb_ℤ, none, some, List, [], ◌∷◌, true, false,
  Bool-cases, inl, inr, String,
}
use consul_release_controlle.Interfaces.{CheckResult}
use consul_release_controlle.StateMachine.Calls.{Error}
use consul_release_controlle.HttpTest.{
  Plugin, Outside, Round, broke, measured, counted, timeout_error, round, finish, attempts,
  duration, started, timed, execute,
}

Round-cases :
    {W : Type 0} (x : Round W)
    → ((e : String) × (w : W) × (x ≡ broke e w))
      ⊎ ((r : CheckResult) × (w : W) × (x ≡ measured r w))
Round-cases (broke e w) = inl (e, w, refl)
Round-cases (measured r w) = inr (r, w, refl)

-- How many of the latest checks passed with no other between them. The latest comes first.
unfoldable pub streak : List CheckResult → ℕ
streak [] = 0
streak (CheckResult.check_success ∷ rs) = suc (streak rs)
streak (CheckResult.check_failed ∷ rs) = 0
streak (CheckResult.check_no_metrics ∷ rs) = 0
streak (CheckResult.check_error ∷ rs) = 0

streak-counted : (r : CheckResult) (rs : List CheckResult) → streak (r ∷ rs) ≡ counted r (streak rs)
unfolding streak counted
streak-counted CheckResult.check_success rs = refl
streak-counted CheckResult.check_failed rs = refl
streak-counted CheckResult.check_no_metrics rs = refl
streak-counted CheckResult.check_error rs = refl

module _ {W : Type 0} (o : Outside W) (p : Plugin) (candidate : String) (timeout interval : ℤ)
    (began : W) where
  -- The checks that were made before a state, which the loop has gone on from: after each of them the
  -- time was not up and the passes did not suffice.
  pub data Ran : List CheckResult → W → Type 0 where
    start : Ran [] began
    again :
        {rs : List CheckResult} {w w' : W} (r : CheckResult)
        → Ran rs w
        → round o p candidate w ≡ measured r w'
        → o.is_done timeout began w' ≡ false
        → leb_ℤ p.config.required_test_passes (pos (streak (r ∷ rs))) ≡ false
        → Ran (r ∷ rs) (o.sleep interval w')

  -- How the loop ends, for each of its results.
  pub data Ended : Error → W → Type 0 where
    stopped :
        {rs : List CheckResult} {w w' : W} {e : String}
        → Ran rs w
        → round o p candidate w ≡ broke e w'
        → Ended (some e) w'
    timed_out :
        {rs : List CheckResult} {w w' : W} {r : CheckResult}
        → Ran rs w
        → round o p candidate w ≡ measured r w'
        → o.is_done timeout began w' ≡ true
        → Ended (some timeout_error) w'
    passed :
        {rs : List CheckResult} {w w' : W} {r : CheckResult}
        → Ran rs w
        → round o p candidate w ≡ measured r w'
        → o.is_done timeout began w' ≡ false
        → leb_ℤ p.config.required_test_passes (pos (streak (r ∷ rs))) ≡ true
        → Ended none w'

  -- What a pass of the loop leads to: the end, or the next pass.
  pub attempts-cases :
      (fuel : ℕ) (rs : List CheckResult) (w : W)
      → Ran rs w
      → ((e : Error) × (w' : W) × ((attempts o p candidate timeout interval began
                (suc fuel)
                (streak rs)
                w
              ≡ some (e, w'))
            × Ended e w'))
        ⊎ ((r : CheckResult) × (w' : W) × ((round o p candidate w ≡ measured r w')
              × ((o.is_done timeout began w' ≡ false)
                  × (Ran (r ∷ rs) (o.sleep interval w')
                      × (attempts o p candidate timeout interval began (suc fuel) (streak rs) w
                          ≡ attempts o p candidate timeout interval began fuel
                              (streak (r ∷ rs))
                              (o.sleep interval w'))))))
  unfolding attempts finish
  attempts-cases fuel rs w ran = elim (Round-cases (round o p candidate w)) [
    | inl (e, w', q) ↦ inl (some e, w', (rw q refl, stopped ran q))
    | inr (r, w', q) ↦ elim (Bool-cases (o.is_done timeout began w')) [
      | inl late ↦ inl (some timeout_error, w', (rw (q, late) refl, timed_out ran q late))
      | inr early ↦
          elim (Bool-cases (leb_ℤ p.config.required_test_passes (pos (streak (r ∷ rs))))) [
            | inl enough ↦ inl (
              none,
              w',
              (rw (q, sym (streak-counted r rs), early, enough) refl, passed ran q early enough),
            )
            | inr few ↦ inr (
              r,
              w',
              (
                q,
                (
                  early,
                  (again r ran q early few, rw (q, sym (streak-counted r rs), early, few) refl),
                ),
              ),
            )
          ]
    ]
  ]

  Ended-subst : (x y : Error × W) → some x ≡ some y → Ended x.0 x.1 → Ended y.0 y.1
  Ended-subst x y q end = subst (λ z. Ended z.0 z.1) (some-injective x y q) end

  pub attempts-Ended :
      (fuel : ℕ) (rs : List CheckResult) (w : W) (x : Error × W)
      → Ran rs w
      → attempts o p candidate timeout interval began fuel (streak rs) w ≡ some x
      → Ended x.0 x.1
  unfolding attempts
  attempts-Ended zero rs w x ran h = cc
  attempts-Ended (suc fuel) rs w x ran h = elim (attempts-cases fuel rs w ran) [
    | inl (e1, w1, (q, end)) ↦ Ended-subst (e1, w1) x (sym q ∙ h) end
    | inr (r, w1, (q, (early, (ran', same)))) ↦
        attempts-Ended fuel (r ∷ rs) (o.sleep interval w1) x ran' (sym same ∙ h)
  ]

pub execute-attempts :
    {W : Type 0} (o : Outside W) (p : Plugin) (candidate : String) (timeout interval : ℤ) (fuel : ℕ)
    (w : W)
    → o.parse_duration p.config.timeout ≡ duration timeout
    → o.parse_duration p.config.interval ≡ duration interval
    → execute o fuel p candidate w ≡ attempts o p candidate timeout interval w fuel 0 w
unfolding execute started timed
execute-attempts o p candidate timeout interval fuel w t i = rw (t, i) refl

-- A test with durations that parse ends in one of three ways: a request could not be made or sent, and
-- its error is returned; the time was up after a check, and the timeout is returned; or the time was
-- not up, and the checks up to the last, that passed with no other between them, are as many as
-- required. Only then is the result nil, and before it each check left too few passes and time to go.
pub execute-Ended :
    {W : Type 0} (o : Outside W) (p : Plugin) (candidate : String) (timeout interval : ℤ) (fuel : ℕ)
    (w : W) (x : Error × W)
    → o.parse_duration p.config.timeout ≡ duration timeout
    → o.parse_duration p.config.interval ≡ duration interval
    → execute o fuel p candidate w ≡ some x
    → Ended o p candidate timeout interval w x.0 x.1
unfolding streak
execute-Ended o p candidate timeout interval fuel w x t i h =
    attempts-Ended o p candidate timeout interval w fuel [] w x start
      (sym (execute-attempts o p candidate timeout interval fuel w t i) ∙ h)
