-- ===== src/Fsm/Search.antt =====
-- A state machine in the sense of Fsm.antt exists: one that takes the first row that applies.
use consul_release_controlle.Prelude.{◌≡◌, refl, Option, none, some, List}
use consul_release_controlle.Interfaces.{State, Event}
use consul_release_controlle.Fsm.{EventDesc, Row, Fsm}
use consul_release_controlle.Fsm.Lookup.{find_dst, find_dst-Row, find_dst-Row-none}

pub accepts_found :
    (t : List EventDesc) (s : State) (e : Event) (d : State) (o : Option State)
    → find_dst t s e ≡ o
    → Row t s e d
    → ((d' : State) → Row t s e d' → d' ≡ d)
    → find_dst t s e ≡ some d
accepts_found t s e d none q h only = absurd (find_dst-Row-none t s e d q h)
accepts_found t s e d (some d') q h only = rw (← only d' (find_dst-Row t s e d' q)) q

pub rejects_found :
    (t : List EventDesc) (s : State) (e : Event) (o : Option State)
    → find_dst t s e ≡ o
    → ((d : State) → ¬ Row t s e d)
    → find_dst t s e ≡ none
rejects_found t s e none q h = q
rejects_found t s e (some d) q h = absurd (h d (find_dst-Row t s e d q))

abbrev pub first_row : Fsm
first_row = record {
  transition = find_dst;
  accepts = λ t s e d. accepts_found t s e d (find_dst t s e) refl;
  rejects = λ t s e. rejects_found t s e (find_dst t s e) refl;
}
