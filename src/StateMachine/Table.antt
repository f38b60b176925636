-- ===== src/StateMachine/Table.antt =====
-- The events that `New` of statemachine.go gives to `fsm.NewFSM`, and the transitions of a machine
-- over them.
use consul_release_controlle.Prelude.{◌≡◌, refl, Option, List, [], ◌∷◌}
use consul_release_controlle.Interfaces.{State, Event}
use consul_release_controlle.Fsm.{EventDesc, Fsm}
use consul_release_controlle.Fsm.Lookup.{find_dst, consistent, transition-eq-find_dst}

abbrev desc : Event → List State → State → EventDesc
desc name src dst = record { name = name; src = src; dst = dst }

unfoldable pub events : List EventDesc
events =
    desc Event.configure (State.start ∷ State.idle ∷ State.fail ∷ []) State.configure
    ∷ desc Event.configured (State.configure ∷ []) State.idle
    ∷ desc Event.deploy (State.idle ∷ State.fail ∷ []) State.deploy
    ∷ desc Event.deployed (State.deploy ∷ []) State.monitor
    ∷ desc Event.healthy (State.monitor ∷ []) State.scale
    ∷ desc Event.scaled (State.scale ∷ []) State.monitor
    ∷ desc Event.complete (State.monitor ∷ []) State.promote
    ∷ desc Event.promoted (State.promote ∷ []) State.idle
    ∷ desc Event.unhealthy (State.monitor ∷ []) State.rollback
    ∷ desc Event.complete (State.deploy ∷ []) State.idle
    ∷ desc Event.complete (State.rollback ∷ []) State.idle
    ∷ desc Event.complete (State.destroy ∷ []) State.idle
    ∷ desc Event.fail
        (State.start ∷ State.configure ∷ State.idle ∷ State.deploy ∷ State.monitor ∷ State.scale
          ∷ State.promote ∷ State.rollback ∷ State.destroy ∷ [])
        State.fail
    ∷ desc Event.destroy
        (State.fail ∷ State.idle ∷ State.configure ∷ State.deploy ∷ State.monitor ∷ State.scale
          ∷ State.promote ∷ State.rollback ∷ [])
        State.destroy
    ∷ []

-- The transition that the table describes.
unfoldable pub dst_of : State → Event → Option State
unfolding find_dst events
dst_of = find_dst events

pub transition_lem : (fsm : Fsm) (s : State) (e : Event) → fsm.transition events s e ≡ dst_of s e
unfolding dst_of consistent
transition_lem fsm s e = transition-eq-find_dst fsm events s e refl
