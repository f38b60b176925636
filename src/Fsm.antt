-- ===== src/Fsm.antt =====
-- The interface of github.com/looplab/fsm that statemachine.go uses: a table of event
-- descriptions, and the transition that `Event` makes in a state. The library is not part of the
-- repository, so its transition function is a parameter with its documented behaviour as laws.
pub mod Lookup
pub mod Search
use consul_release_controlle.Prelude.{◌≡◌, Option, none, some, List, [], ◌∷◌, ◌⊎◌}
use consul_release_controlle.Interfaces.{State, Event}

-- fsm.EventDesc
pub record EventDesc : Type 0 where
  pub name : Event
  pub src : List State
  pub dst : State

abbrev pub In : State → List State → Type 0
In s [] = ⊥
In s (x ∷ xs) = (x ≡ s) ⊎ In s xs

-- The table has a row that takes the event from the first state to the second.
abbrev pub Row : List EventDesc → State → Event → State → Type 0
Row [] s e d = ⊥
Row (r ∷ t) s e d = ((r.name ≡ e) × In s r.src × (r.dst ≡ d)) ⊎ Row t s e d

-- `none` is an error: the event is inappropriate in the state, and the state stays.
pub record Fsm : Type 0 where
  pub transition : List EventDesc → State → Event → Option State
  pub accepts :
      (t : List EventDesc) (s : State) (e : Event) (d : State)
      → Row t s e d
      → ((d' : State) → Row t s e d' → d' ≡ d)
      → transition t s e ≡ some d
  pub rejects :
      (t : List EventDesc) (s : State) (e : Event)
      → ((d : State) → ¬ Row t s e d)
      → transition t s e ≡ none
