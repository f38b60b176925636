-- ===== src/Canary/Rollout.antt =====
-- Canary: while the checks pass, repeated runs bring the roll out to its end.
use consul_release_controlle.Prelude.{
  ℕ, zero, suc, ◌+◌, ◌<◌, ◌≡◌, refl, ◌≤◌, pos, pos_part, neg_part, leb_ℤ, leb_ℤ-false, eqb_ℤ, ◌≤ℤ◌,
  ◌+ℤ◌, ◌⊎◌, inl, inr, none, some, Option, String, Bool-cases, false, arith, int_laws,
}
use consul_release_controlle.Interfaces.{StrategyStatus}
use consul_release_controlle.Canary.{
  PluginConfig, Plugin, Deps, Result, unset, first_traffic, set_traffic, set_status, return_with,
  passed, after_check, check_loop, first_run, later_run, execute,
}
use consul_release_controlle.Canary.Bounds.{
  IsValid, InRange, Returns, first_traffic_range, eqb_unset,
}

module _ {W : Type 0} (deps : Deps W) (name : String) where
  infixl 5 ◌>>=◌
  abbrev ◌>>=◌ : Option (Result W) → (Result W → Option (Result W)) → Option (Result W)
  none >>= f = none
  some r >>= f = f r

  proceed : StrategyStatus → Result W → Option (Result W) → Option (Result W)
  proceed StrategyStatus.success r again = again
  proceed status r again = some r

  -- The runs that the state machine makes, from monitoring to scaling and back: one after another
  -- for as long as the strategy reports success; `none` if more than the given number are needed.
  unfoldable pub roll_out : ℕ → Plugin → W → Option (Result W)
  unfolding proceed
  roll_out zero p w = none
  roll_out (suc n) p w =
      execute deps name p w >>= λ r. proceed r.status r (roll_out n r.plugin r.world)

  abbrev pub IsComplete : Result W → Type 0
  IsComplete r = (r.status ≡ StrategyStatus.complete) × (r.traffic ≡ pos 100)

  -- The durations of the configuration are well formed, and every check passes.
  pub record IsHealthy (c : PluginConfig) : Type 0 where
    pub delay : ℕ
    pub delay_parses : deps.parse_duration c.initial_delay ≡ some delay
    pub interval : ℕ
    pub interval_parses : deps.parse_duration c.interval ≡ some interval
    pub passes : (d : ℕ) (w : W) → (deps.check name d w).1 ≡ none

  pub passed-cases :
      (p : Plugin) (w : W)
      → ((passed deps p w).status ≡ StrategyStatus.complete) × ((passed deps p w).traffic ≡ pos 100)
        ⊎ (((passed deps p w).status ≡ StrategyStatus.success)
            × ((passed deps p w).plugin.config ≡ p.config)
            × ((passed deps p w).plugin.state.candidate_traffic
                ≡ p.state.candidate_traffic +ℤ p.config.traffic_step)
            × (leb_ℤ p.config.max_traffic (p.state.candidate_traffic +ℤ p.config.traffic_step)
                ≡ false))
  unfolding passed return_with
  passed-cases p w =
      elim (Bool-cases
        (leb_ℤ p.config.max_traffic (p.state.candidate_traffic +ℤ p.config.traffic_step))) [
          | inl done ↦ inl (rw done (refl, refl))
          | inr more ↦ inr (rw more (refl, refl, refl, refl))
        ]

  pub execute-eq-passed :
      (p : Plugin) (w : W)
      → IsHealthy p.config
      → eqb_ℤ p.state.candidate_traffic unset ≡ false
      → (w' : W) × (execute deps name p w ≡ some (passed deps p w'))
  unfolding execute later_run check_loop after_check
  execute-eq-passed p w h on =
      let asleep = deps.sleep h.interval w in
      (
        (deps.check name h.interval asleep).2,
        rw (on, h.interval_parses, later_run, h.passes h.interval asleep, after_check),
      )

  proceed_complete :
      (status : StrategyStatus) (r : Result W) (again : Option (Result W))
      → status ≡ StrategyStatus.complete
      → proceed status r again ≡ some r
  unfolding proceed
  proceed_complete status r again h = rw h

  proceed_success :
      (status : StrategyStatus) (r : Result W) (again : Option (Result W))
      → status ≡ StrategyStatus.success
      → proceed status r again ≡ again
  unfolding proceed
  proceed_success status r again h = rw h

  -- A run from a percentage that is set goes on to a larger one, or completes.
  later-IsComplete :
      (n : ℕ) (p : Plugin) (w : W)
      → IsValid p.config
      → IsHealthy p.config
      → (pos 1 ≤ℤ p.state.candidate_traffic) × (p.state.candidate_traffic ≤ℤ pos 100)
      → suc (100 + neg_part p.state.candidate_traffic) ≤ pos_part p.state.candidate_traffic + n
      → Returns IsComplete (roll_out n p w)
  unfolding roll_out
  later-IsComplete zero p w v h range enough = absurd (omega arith)
  later-IsComplete (suc n) p w v h range enough =
      let (w', run) = execute-eq-passed p w h (eqb_unset _ range.0) in
      rw run (elim (passed-cases p w') [
        | inl (done, all) ↦ rw (proceed_complete _ _ _ done) (done, all)
        | inr (more, same, stepped, below) ↦
            let r = passed deps p w' in
            let t = p.state.candidate_traffic +ℤ p.config.traffic_step in
            let in_range : (pos 1 ≤ℤ t) × (t ≤ℤ pos 100) =
              (omega int_laws, omega (int_laws, leb_ℤ-false p.config.max_traffic t below)) in
            let nearer : suc (100 + neg_part t) ≤ pos_part t + n = omega int_laws in
            rw (proceed_success _ _ _ more) (
              later-IsComplete n r.plugin r.world (rw same v) (rw same h) (rw stepped in_range)
                (rw stepped nearer))
      ])

  first-IsComplete :
      (n : ℕ) (p : Plugin) (w : W)
      → IsValid p.config
      → IsHealthy p.config
      → p.state.candidate_traffic ≡ unset
      → 100 < n
      → Returns IsComplete (roll_out (suc n) p w)
  unfolding roll_out execute first_run return_with
  first-IsComplete n p w v h start enough =
      let range = first_traffic_range p.config v in
      let q = set_status (set_traffic p (first_traffic p.config)) StrategyStatus.success in
      rw (start, h.delay_parses, first_run, proceed)
        (later-IsComplete n q _ v h range (omega arith))

  any-IsComplete :
      (n : ℕ) (p : Plugin) (w : W)
      → IsValid p.config
      → IsHealthy p.config
      → InRange p.state.candidate_traffic
      → 100 < n
      → Returns IsComplete (roll_out (suc n) p w)
  any-IsComplete n p w v h (inl start) enough = first-IsComplete n p w v h start enough
  any-IsComplete n p w v h (inr range) enough = later-IsComplete (suc n) p w v h range (omega arith)

  -- With a valid configuration and a healthy candidate, the roll out completes within 102 runs from
  -- any state that a run leaves, and then reports all of the traffic.
  pub roll_out-IsComplete :
      (p : Plugin) (w : W)
      → IsValid p.config
      → IsHealthy p.config
      → InRange p.state.candidate_traffic
      → Returns IsComplete (roll_out 102 p w)
  roll_out-IsComplete p w v h range = any-IsComplete 101 p w v h range (omega arith)
