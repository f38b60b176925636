-- ===== src/Interfaces.antt =====
-- pkg/plugins/interfaces: the vocabulary of the plugins. The string constants that the code
-- compares are data types here, with a constructor for each constant.
use consul_release_controlle.Prelude.{ℤ, String}

-- statemachine.go: the `Event…` constants; `EventNull` is used nowhere.
pub data Event : Type 0 where
  deploy deployed configure configured healthy unhealthy scaled promoted complete fail destroy :
      Event

-- statemachine.go: the `State…` constants.
pub data State : Type 0 where
  start configure idle deploy monitor scale promote rollback fail destroy : State

unfoldable pub State-discrete : Discrete State
State-discrete = hlevel

unfoldable pub Event-discrete : Discrete Event
Event-discrete = hlevel

-- strategy.go
pub data StrategyStatus : Type 0 where
  success failing failed complete : StrategyStatus

-- runtime.go
pub data RuntimeDeploymentStatus : Type 0 where
  update no_action not_found internal_error : RuntimeDeploymentStatus

-- monitor.go
pub data CheckResult : Type 0 where
  check_success check_failed check_no_metrics check_error : CheckResult

-- What `PrimarySubsetFilter()` and `CandidateSubsetFilter()` of the runtime plugin select.
pub data Subset : Type 0 where
  primary candidate : Subset

-- webhook.go
pub record WebhookMessage : Type 0 where
  pub title : String
  pub name : String
  pub namespace : String
  pub state : State
  pub outcome : Event
  pub primary_traffic : ℤ
  pub candidate_traffic : ℤ
  pub error : String

-- runtime.go
pub record RuntimeBaseConfig : Type 0 where
  pub deployment_selector : String
  pub namespace : String

pub record RuntimeBaseState : Type 0 where
  pub candidate_name : String
  pub primary_name : String
