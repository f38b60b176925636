-- ===== src/Release.antt =====
-- pkg/models/release.go: the release and its bounded state history.
pub mod History
use consul_release_controlle.Prelude.{
  ℕ, ◌-◌, String, Option, none, some, List, [], ◌∷◌, ◌++◌, length, drop, get_last?, ltb,
  if◌then◌else◌,
}
use consul_release_controlle.Interfaces.{State}

-- `Config` is the raw JSON of the plugin.
pub record PluginConfig : Type 0 where
  pub name : String
  pub config : String

pub record StateHistory : Type 0 where
  pub time : ℕ
  pub state : State

-- A nil pointer to a `PluginConfig` is `none`. The state of a history entry is a constant of
-- statemachine.go.
pub record Release : Type 0 where
  pub name : String
  pub namespace : String
  pub version : String
  pub created : ℕ
  pub last_updated : ℕ
  pub releaser : Option PluginConfig
  pub runtime : Option PluginConfig
  pub strategy : Option PluginConfig
  pub monitor : Option PluginConfig
  pub webhooks : List PluginConfig
  pub post_deployment_test : Option PluginConfig
  pub state_history : List StateHistory

abbrev pub max_history : ℕ
max_history = 50

-- The append and the cut to the last 50 entries of `UpdateState`.
unfoldable pub append_state : List StateHistory → StateHistory → List StateHistory
append_state history entry =
    let longer = history ++ entry ∷ [] in
    if ltb max_history (length longer) then drop (length longer - max_history) longer else longer

-- `now` is what `time.Now()` returns.
unfoldable pub update_state : Release → ℕ → State → Release
update_state r now state = record r {
  state_history = append_state r.state_history (record { time = now; state = state });
}

abbrev pub state_of : Option StateHistory → Option State
state_of none = none
state_of (some entry) = some entry.state

-- The empty string that `CurrentState` returns for an empty history is `none`.
unfoldable pub current_state : Release → Option State
current_state r = state_of (get_last? r.state_history)
