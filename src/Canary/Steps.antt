-- ===== src/Canary/Steps.antt =====
-- One run of the canary strategy while the checks pass: it completes, or brings the roll out nearer to
-- its end, whatever the rest of the world is like.
use consul_release_controlle.Prelude.{
  ℕ, zero, suc, ◌+◌, ◌<◌, ◌≤◌, ◌≡◌, refl, ℤ, pos, pos_part, neg_part, leb_ℤ, leb_ℤ-false, ◌≤ℤ◌,
  ◌+ℤ◌, inl, inr, none, some, String, Bool-cases, arith, int_laws,
}
use consul_release_controlle.Interfaces.{StrategyStatus}
use consul_release_controlle.Canary.{
  Plugin, Deps, Result, unset, first_traffic, set_traffic, set_status, return_with, passed,
  first_run, execute,
}
use consul_release_controlle.Canary.Bounds.{IsValid, InRange, first_traffic_range, eqb_unset}
use consul_release_controlle.Canary.Rollout.{IsHealthy, passed-cases, execute-eq-passed}

-- At most so many runs are left: no traffic is set, or each run adds a percent at least.
pub data Left : ℕ → ℤ → Type 0 where
  fresh : {n : ℕ} {t : ℤ} → t ≡ unset → 101 < n → Left n t
  under_way :
      {n : ℕ} {t : ℤ}
      → pos 1 ≤ℤ t
      → t ≤ℤ pos 100
      → suc (100 + neg_part t) ≤ pos_part t + n
      → Left n t

pub Left-InRange : (t : ℤ) → InRange t → Left 102 t
Left-InRange t (inl e) = fresh e (omega arith)
Left-InRange t (inr (low, high)) = under_way low high (omega arith)

module _ {W : Type 0} (deps : Deps W) (name : String) where
  -- The plugin has a valid configuration, its checks pass, and so many runs are left.
  pub record IsReady (n : ℕ) (p : Plugin) : Type 0 where
    pub valid : IsValid p.config
    pub healthy : IsHealthy deps name p.config
    pub left : Left n p.state.candidate_traffic

  -- What a run does: without an error it completes, or goes on with one run less.
  pub data Steps (n : ℕ) (r : Result W) : Type 0 where
    is_complete : r.status ≡ StrategyStatus.complete → r.err ≡ none → Steps n r
    goes_on : r.status ≡ StrategyStatus.success → r.err ≡ none → IsReady n r.plugin → Steps n r

  passed-err : (p : Plugin) (w : W) → (passed deps p w).err ≡ none
  unfolding passed return_with
  passed-err p w =
      elim (Bool-cases
        (leb_ℤ p.config.max_traffic (p.state.candidate_traffic +ℤ p.config.traffic_step))) [
          | inl done ↦ rw done refl
          | inr more ↦ rw more refl
        ]

  later-Steps :
      (n : ℕ) (p : Plugin) (w : W)
      → IsValid p.config
      → IsHealthy deps name p.config
      → pos 1 ≤ℤ p.state.candidate_traffic
      → suc (100 + neg_part p.state.candidate_traffic) ≤ pos_part p.state.candidate_traffic + suc n
      → Steps n (passed deps p w)
  later-Steps n p w v h low enough = elim (passed-cases deps name p w) [
    | inl (done, all) ↦ is_complete done (passed-err p w)
    | inr (more, same, stepped, below) ↦
        let t = p.state.candidate_traffic +ℤ p.config.traffic_step in
        let left : Left n t =
          under_way (omega int_laws) (omega (int_laws, leb_ℤ-false p.config.max_traffic t below))
            (omega int_laws) in
        goes_on more (passed-err p w)
          (record { valid = rw same v; healthy = rw same h; left = rw stepped left })
  ]

  pub not-Left : (t : ℤ) → Left zero t → ⊥
  not-Left t (fresh e h) = omega arith
  not-Left t (under_way low high h) = omega arith

  -- A run of a ready plugin returns, in every world.
  pub execute-Steps :
      (n : ℕ) (p : Plugin) (w : W)
      → IsReady (suc n) p
      → (r : Result W) × ((execute deps name p w ≡ some r) × Steps n r)
  unfolding execute first_run return_with
  execute-Steps n p w ready = by_left ready.left
    where
      by_left :
          Left (suc n) p.state.candidate_traffic
          → (r : Result W) × ((execute deps name p w ≡ some r) × Steps n r)
      by_left (under_way low high enough) =
          let (w', run) = execute-eq-passed deps name p w ready.healthy (eqb_unset _ low) in
          (passed deps p w', (run, later-Steps n p w' ready.valid ready.healthy low enough))
      by_left (fresh start enough) =
          let q = set_status (set_traffic p (first_traffic p.config)) StrategyStatus.success in
          let (low, high) = first_traffic_range p.config ready.valid in
          (
            return_with deps StrategyStatus.success (first_traffic p.config) none q
                (deps.sleep ready.healthy.delay w),
            (
              rw (start, ready.healthy.delay_parses, first_run) refl,
              goes_on refl refl (record {
                valid = ready.valid;
                healthy = ready.healthy;
                left = under_way low high (omega arith);
              }),
            ),
          )
