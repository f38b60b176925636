-- ===== src/StateMachine/Replies.antt =====
-- The replies that the plugins can give to a call of Calls.antt, by their forms.
use consul_release_controlle.Prelude.{ℤ, String, none, some}
use consul_release_controlle.Interfaces.{RuntimeDeploymentStatus, StrategyStatus}
use consul_release_controlle.StateMachine.Calls.{
  Error, Call, Reply, setup, scale, wait_until_service_healthy, destroy_config, init_primary,
  promote_candidate, remove_candidate, restore_original, remove_primary, candidate_name,
  execute_test, execute_strategy, get_primary_traffic, get_candidate_traffic, send, sleep,
}

-- A condition on each reply to a call, as a product over the forms that the reply can take.
abbrev pub EachError : (Error → Type 0) → Type 0
EachError P = P none × ((e : String) → P (some e))

abbrev pub EachStatus : (RuntimeDeploymentStatus → Type 0) → Type 0
EachStatus P =
    P RuntimeDeploymentStatus.update
    × P RuntimeDeploymentStatus.no_action
    × P RuntimeDeploymentStatus.not_found
    × P RuntimeDeploymentStatus.internal_error

abbrev pub EachStrategy : (StrategyStatus → Type 0) → Type 0
EachStrategy P =
    P StrategyStatus.success
    × P StrategyStatus.failing
    × P StrategyStatus.failed
    × P StrategyStatus.complete

abbrev pub Each : (c : Call) → (Reply c → Type 0) → Type 0
Each (setup p c) P = EachError P
Each (scale v) P = EachError P
Each (wait_until_service_healthy f) P = EachError P
Each destroy_config P = EachError P
Each (init_primary n) P = EachError (λ e. EachStatus (λ s. P (s, e)))
Each promote_candidate P = EachError (λ e. EachStatus (λ s. P (s, e)))
Each remove_candidate P = EachError P
Each restore_original P = EachError P
Each remove_primary P = EachError P
Each candidate_name P = (n : String) → P n
Each (execute_test n) P = EachError P
Each (execute_strategy n) P = EachError (λ e. EachStrategy (λ s. (v : ℤ) → P (s, v, e)))
Each get_primary_traffic P = (v : ℤ) → P v
Each get_candidate_traffic P = (v : ℤ) → P v
Each (send w x) P = EachError P
Each (sleep n) P = P tt

EachError-all : (P : Error → Type 0) → EachError P → (e : Error) → P e
EachError-all P h none = h.0
EachError-all P h (some e) = h.1 e

EachStatus-all :
    (P : RuntimeDeploymentStatus → Type 0) → EachStatus P → (s : RuntimeDeploymentStatus) → P s
EachStatus-all P h RuntimeDeploymentStatus.update = h.0
EachStatus-all P h RuntimeDeploymentStatus.no_action = h.1
EachStatus-all P h RuntimeDeploymentStatus.not_found = h.2
EachStatus-all P h RuntimeDeploymentStatus.internal_error = h.3

EachStrategy-all : (P : StrategyStatus → Type 0) → EachStrategy P → (s : StrategyStatus) → P s
EachStrategy-all P h StrategyStatus.success = h.0
EachStrategy-all P h StrategyStatus.failing = h.1
EachStrategy-all P h StrategyStatus.failed = h.2
EachStrategy-all P h StrategyStatus.complete = h.3

pub Each-all : (c : Call) (P : Reply c → Type 0) → Each c P → (r : Reply c) → P r
Each-all (setup p c) P h r = EachError-all P h r
Each-all (scale v) P h r = EachError-all P h r
Each-all (wait_until_service_healthy f) P h r = EachError-all P h r
Each-all destroy_config P h r = EachError-all P h r
Each-all (init_primary n) P h (s, e) =
    EachStatus-all (λ t. P (t, e)) (EachError-all (λ x. EachStatus (λ t. P (t, x))) h e) s
Each-all promote_candidate P h (s, e) =
    EachStatus-all (λ t. P (t, e)) (EachError-all (λ x. EachStatus (λ t. P (t, x))) h e) s
Each-all remove_candidate P h r = EachError-all P h r
Each-all restore_original P h r = EachError-all P h r
Each-all remove_primary P h r = EachError-all P h r
Each-all candidate_name P h r = h r
Each-all (execute_test n) P h r = EachError-all P h r
Each-all (execute_strategy n) P h (s, v, e) =
    EachStrategy-all (λ t. (x : ℤ) → P (t, x, e))
      (EachError-all (λ y. EachStrategy (λ t. (x : ℤ) → P (t, x, y))) h e) s v
Each-all get_primary_traffic P h r = h r
Each-all get_candidate_traffic P h r = h r
Each-all (send w x) P h r = EachError-all P h r
Each-all (sleep n) P h r = h
