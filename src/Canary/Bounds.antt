-- ===== src/Canary/Bounds.antt =====
-- Canary: the traffic that the strategy reports stays a percentage.
use consul_release_controlle.Prelude.{
  ℕ, zero, suc, ◌+◌, ◌≡◌, refl, ℤ, pos, ◌≤ℤ◌, ◌+ℤ◌, ◌-ℤ◌, ◌⊎◌, inl, inr, none, some, Option, String,
  Bool-cases, eqb_ℤ, leb_ℤ, leb_ℤ-false, pos_part, ◌<◌, ◌≤◌, false, arith, int_laws,
}
use consul_release_controlle.Interfaces.{StrategyStatus}
use consul_release_controlle.StateMachine.Calls.{Error}
use consul_release_controlle.Canary.{
  PluginConfig, Plugin, Deps, Result, unset, first_traffic, save_state, passed, gave_up,
  after_check, set_status, set_traffic, first_run, later_run, return_with, check_loop, execute,
  rounds, get_primary_traffic, get_candidate_traffic,
}

-- Whatever the state holds: the two shares that are told to the webhooks add up to 100.
pub traffic_shares :
    (p : Plugin)
    → (get_primary_traffic p +ℤ get_candidate_traffic p ≡ pos 100)
      × (pos 0 ≤ℤ get_candidate_traffic p)
      × (get_candidate_traffic p ≤ℤ pos 100)
unfolding get_primary_traffic get_candidate_traffic ◌+ℤ◌ ◌-ℤ◌
traffic_shares p = (ground arith, ground arith, ground arith)

-- The ranges that the `validate` tags of `PluginConfig` ask for.
pub record IsValid (c : PluginConfig) : Type 0 where
  pub initial_low : pos 0 ≤ℤ c.initial_traffic
  pub initial_high : c.initial_traffic ≤ℤ pos 100
  pub step_low : pos 1 ≤ℤ c.traffic_step
  pub step_high : c.traffic_step ≤ℤ pos 100
  pub max_low : pos 1 ≤ℤ c.max_traffic
  pub max_high : c.max_traffic ≤ℤ pos 100
  pub threshold_low : pos 1 ≤ℤ c.error_threshold

-- Between two runs: no traffic is set, or a percentage that is not zero.
abbrev pub InRange : ℤ → Type 0
InRange t = (t ≡ unset) ⊎ ((pos 1 ≤ℤ t) × (t ≤ℤ pos 100))

-- What a run returns, by its status.
abbrev pub Sound : StrategyStatus → ℤ → Type 0
Sound StrategyStatus.success t = (pos 1 ≤ℤ t) × (t ≤ℤ pos 100)
Sound StrategyStatus.complete t = t ≡ pos 100
Sound StrategyStatus.failed t = t ≡ pos 0
Sound StrategyStatus.failing t = ⊥

pub record IsSound {W : Type 0} (c : PluginConfig) (r : Result W) : Type 0 where
  pub returned : Sound r.status r.traffic
  pub kept : InRange r.plugin.state.candidate_traffic
  pub same_config : r.plugin.config ≡ c

-- There is a result, and it satisfies the predicate.
abbrev pub Returns : {R : Type 0} → (R → Type 0) → Option R → Type 0
Returns P none = ⊥
Returns P (some r) = P r

pub first_traffic_range :
    (c : PluginConfig) → IsValid c → (pos 1 ≤ℤ first_traffic c) × (first_traffic c ≤ℤ pos 100)
unfolding first_traffic
first_traffic_range c v = (ground arith, ground arith)

unset_eq : {t : ℤ} → t ≡ unset → eqb_ℤ t unset ≡ false → ⊥
unset_eq {t} e h = ground arith

pub eqb_unset : (t : ℤ) → pos 1 ≤ℤ t → eqb_ℤ t unset ≡ false
eqb_unset t h = ground arith

pub set : {t : ℤ} → InRange t → eqb_ℤ t unset ≡ false → (pos 1 ≤ℤ t) × (t ≤ℤ pos 100)
set (inl e) h = absurd (unset_eq e h)
set (inr range) h = range

module _ {W : Type 0} (deps : Deps W) where
  passed-IsSound :
      (p : Plugin) (w : W)
      → IsValid p.config
      → pos 1 ≤ℤ p.state.candidate_traffic
      → IsSound p.config (passed deps p w)
  unfolding passed return_with
  passed-IsSound p w v low =
      let t = p.state.candidate_traffic +ℤ p.config.traffic_step in
      elim (Bool-cases (leb_ℤ p.config.max_traffic t)) [
        | inl done ↦ rw done (record { returned = refl; kept = inl refl; same_config = refl })
        | inr more ↦
            let above : pos 1 ≤ℤ t = omega int_laws in
            let below : t ≤ℤ pos 100 = omega (int_laws, leb_ℤ-false p.config.max_traffic t more) in
            rw more
              (record { returned = (above, below); kept = inr (above, below); same_config = refl })
      ]

  gave_up-IsSound : (p : Plugin) (w : W) → IsSound p.config (gave_up deps p w)
  unfolding gave_up return_with
  gave_up-IsSound p w = record { returned = refl; kept = inl refl; same_config = refl }

  after_check-Returns :
      (err : Error) (n : ℕ) (p : Plugin) (w : W) (again : Option (Result W))
      → IsValid p.config
      → pos 1 ≤ℤ p.state.candidate_traffic
      → (leb_ℤ p.config.error_threshold (pos n) ≡ false → Returns (IsSound p.config) again)
      → Returns (IsSound p.config) (after_check deps err n p w again)
  unfolding after_check
  after_check-Returns none n p w again v low next = passed-IsSound p w v low
  after_check-Returns (some e) n p w again v low next =
      elim (Bool-cases (leb_ℤ p.config.error_threshold (pos n))) [
        | inl last ↦ rw last (gave_up-IsSound p w)
        | inr more ↦ rw more (next more)
      ]

  check_loop-Returns :
      (fuel : ℕ) (name : String) (d n : ℕ) (p : Plugin) (w : W)
      → n ≤ pos_part p.config.error_threshold
      → pos_part p.config.error_threshold < n + fuel
      → IsValid p.config
      → pos 1 ≤ℤ p.state.candidate_traffic
      → Returns (IsSound p.config) (check_loop deps fuel name d n p w)
  unfolding check_loop
  check_loop-Returns zero name d n p w few enough v low = absurd (omega arith)
  check_loop-Returns (suc fuel) name d n p w few enough v low =
      let (result, err, w') = deps.check name d (deps.sleep d w) in
      let failing = set_status p StrategyStatus.failing in
      after_check-Returns err (n + 1) p w' _ v low λ more.
        let below : n + 1 ≤ pos_part p.config.error_threshold =
          omega (arith, leb_ℤ-false p.config.error_threshold (pos (n + 1)) more) in
        check_loop-Returns fuel name d (n + 1) failing (save_state deps failing w') below
          (omega arith) v low

  first_run-IsSound :
      (o : Option ℕ) (p : Plugin) (w : W)
      → (pos 1 ≤ℤ p.state.candidate_traffic) × (p.state.candidate_traffic ≤ℤ pos 100)
      → IsSound p.config (first_run deps o p w)
  unfolding first_run return_with
  first_run-IsSound none p w h = record { returned = refl; kept = inr h; same_config = refl }
  first_run-IsSound (some d) p w h = record { returned = h; kept = inr h; same_config = refl }

  later_run-Returns :
      (o : Option ℕ) (name : String) (p : Plugin) (w : W)
      → IsValid p.config
      → (pos 1 ≤ℤ p.state.candidate_traffic) × (p.state.candidate_traffic ≤ℤ pos 100)
      → Returns (IsSound p.config) (later_run deps o name p w)
  unfolding later_run return_with
  later_run-Returns none name p w v h = record { returned = refl; kept = inr h; same_config = refl }
  later_run-Returns (some d) name p w v h =
      check_loop-Returns (rounds p) name d 0 p w (omega arith) (omega arith) v h.0

  -- With a configuration in the ranges that are validated and a state that a run leaves or that
  -- `Configure` sets, `Execute` returns for every monitor and store: success with a percentage that
  -- is not zero, complete with 100, or failed with 0; and it leaves such a state again.
  pub execute-Returns :
      (name : String) (p : Plugin) (w : W)
      → IsValid p.config
      → InRange p.state.candidate_traffic
      → Returns (IsSound p.config) (execute deps name p w)
  unfolding execute
  execute-Returns name p w v range = elim (Bool-cases (eqb_ℤ p.state.candidate_traffic unset)) [
    | inl first ↦ rw first (
        first_run-IsSound (deps.parse_duration p.config.initial_delay)
          (set_traffic p (first_traffic p.config)) w (first_traffic_range p.config v))
    | inr later ↦
        rw later
          (later_run-Returns (deps.parse_duration p.config.interval) name p w v (set range later))
  ]
