-- ===== src/Release/History.antt =====
-- The state history of release.go: its bound, and the state that it ends in.
use consul_release_controlle.Prelude.{
  ℕ, ◌+◌, ◌-◌, ◌≤◌, ◌≡◌, some, inl, inr, List, [], ◌∷◌, ◌++◌, length, drop, length-append,
  length-drop, get_last?-append, drop-append, ltb, Bool-cases, arith,
}
use consul_release_controlle.Interfaces.{State}
use consul_release_controlle.Release.{
  Release, StateHistory, max_history, append_state, update_state, current_state,
}

-- However long the history was, after an entry is added it has 50 entries at most.
pub length-append_state :
    (history : List StateHistory) (entry : StateHistory)
    → length (append_state history entry) ≤ max_history
unfolding append_state
length-append_state history entry =
    ground
      (arith, length-drop (length (history ++ entry ∷ []) - max_history) (history ++ entry ∷ []))

-- The entry is added at the end, and the entries that remain before it are the newest ones.
append_state-eq-drop :
    (history : List StateHistory) (entry : StateHistory)
    → append_state history entry ≡ drop (length history + 1 - max_history) history ++ entry ∷ []
unfolding append_state
append_state-eq-drop history entry =
    let grown : length (history ++ entry ∷ []) ≡ length history + 1 = length-append history _ in
    rw grown (elim (Bool-cases (ltb max_history (length history + 1))) [
      | inl over ↦ rw over (drop-append (length history + 1 - max_history) history _ (ground arith))
      | inr fits ↦
          let short : length history + 1 - max_history ≡ 0 = ground arith in rw (fits, short)
    ])

-- After an update the release is in the state of the update, whatever its history was.
pub current_state-update_state :
    (r : Release) (now : ℕ) (state : State) → current_state (update_state r now state) ≡ some state
unfolding update_state current_state
current_state-update_state r now state =
    rw (append_state-eq-drop r.state_history _, get_last?-append)
