-- ===== src/Fsm/Lookup.antt =====
-- A table whose rows agree has the transitions that a search from its first row finds.
use consul_release_controlle.Prelude.{
  ◌≡◌, refl, Option, none, some, List, [], ◌∷◌, inl, inr, Bool, true, false, ◌&&◌, ◌||◌, ap,
  if◌then◌else◌, Bool-cases, arith,
}
use consul_release_controlle.Interfaces.{State, Event, State-discrete, Event-discrete}
use consul_release_controlle.Fsm.{EventDesc, In, Row, Fsm}

unfoldable pub eq_state : State → State → Bool
unfolding State-discrete
eq_state a b = elim (State-discrete a b) [ yes _ ↦ true | no _ ↦ false ]

unfoldable pub eq_event : Event → Event → Bool
unfolding Event-discrete
eq_event a b = elim (Event-discrete a b) [ yes _ ↦ true | no _ ↦ false ]

eq_state_sound : (a b : State) → eq_state a b ≡ true → a ≡ b
unfolding eq_state
eq_state_sound a b h = ground arith

eq_state_refl : (a : State) → eq_state a a ≡ true
unfolding eq_state
eq_state_refl a = ground arith

eq_event_sound : (a b : Event) → eq_event a b ≡ true → a ≡ b
unfolding eq_event
eq_event_sound a b h = ground arith

eq_event_refl : (a : Event) → eq_event a a ≡ true
unfolding eq_event
eq_event_refl a = ground arith

member : State → List State → Bool
member s [] = false
member s (x ∷ xs) = eq_state x s || member s xs

-- The destination in the first row for the event and the state.
unfoldable pub find_dst : List EventDesc → State → Event → Option State
unfolding eq_event eq_state member
find_dst [] s e = none
find_dst (r ∷ t) s e = if eq_event r.name e && member s r.src then some r.dst else find_dst t s e

abbrev leads : Option State → State → Bool
leads none d = false
leads (some x) d = eq_state x d

-- Every source state of a row is taken by the event to the row's destination.
agrees : List EventDesc → Event → State → List State → Bool
agrees t e d [] = true
agrees t e d (s ∷ ss) = leads (find_dst t s e) d && agrees t e d ss

unfoldable pub consistent : List EventDesc → List EventDesc → Bool
unfolding agrees eq_state
consistent t [] = true
consistent t (r ∷ rows) = agrees t r.name r.dst r.src && consistent t rows

In-member : (s : State) (xs : List State) → In s xs → member s xs ≡ true
unfolding member
In-member s [] h = absurd h
In-member s (x ∷ xs) (inl h) = rw (h, eq_state_refl s)
In-member s (x ∷ xs) (inr h) = ground (arith, In-member s xs h)

member-In : (s : State) (xs : List State) → member s xs ≡ true → In s xs
unfolding member
member-In s [] h = cc
member-In s (x ∷ xs) h = elim (Bool-cases (eq_state x s)) [
  | inl here ↦ inl (eq_state_sound x s here)
  | inr later ↦ inr (member-In s xs (ground arith))
]

agrees-find_dst :
    (t : List EventDesc) (e : Event) (s d : State) (ss : List State)
    → agrees t e d ss ≡ true
    → In s ss
    → find_dst t s e ≡ some d
unfolding agrees
agrees-find_dst t e s d [] h i = absurd i
agrees-find_dst t e s d (x ∷ ss) h (inl q) = rw (← q) (leads_some (find_dst t x e) (ground arith))
  where
    leads_some : (o : Option State) → leads o d ≡ true → o ≡ some d
    leads_some none l = cc
    leads_some (some y) l = ap some (eq_state_sound y d l)
agrees-find_dst t e s d (x ∷ ss) h (inr i) = agrees-find_dst t e s d ss (ground arith) i

Row-find_dst :
    (t rows : List EventDesc) (s : State) (e : Event) (d : State)
    → consistent t rows ≡ true
    → Row rows s e d
    → find_dst t s e ≡ some d
unfolding consistent
Row-find_dst t [] s e d c h = absurd h
Row-find_dst t (r ∷ rows) s e d c (inl (n, i, q)) =
    rw (← n, ← q) (agrees-find_dst t r.name s r.dst r.src (ground arith) i)
Row-find_dst t (r ∷ rows) s e d c (inr h) = Row-find_dst t rows s e d (ground arith) h

pub find_dst-Row :
    (t : List EventDesc) (s : State) (e : Event) (d : State) → find_dst t s e ≡ some d → Row t s e d
unfolding find_dst
find_dst-Row [] s e d h = cc
find_dst-Row (r ∷ t) s e d h = elim (Bool-cases (eq_event r.name e && member s r.src)) [
  | inl hit ↦
      inl (eq_event_sound r.name e (ground arith), member-In s r.src (ground arith), ground arith)
  | inr miss ↦ inr (find_dst-Row t s e d (ground arith))
]

-- Where the search finds nothing, no row applies.
pub find_dst-Row-none :
    (t : List EventDesc) (s : State) (e : Event) (d : State) → find_dst t s e ≡ none → ¬ Row t s e d
unfolding find_dst
find_dst-Row-none [] s e d h r = r
find_dst-Row-none (r ∷ t) s e d h (inl (n, i, q)) =
    ground (arith, In-member s r.src i, n, eq_event_refl e)
find_dst-Row-none (r ∷ t) s e d h (inr later) =
    elim (Bool-cases (eq_event r.name e && member s r.src)) [
      | inl hit ↦ ground arith
      | inr miss ↦ find_dst-Row-none t s e d (ground arith) later
    ]

-- A machine over a consistent table moves as the search says, and refuses what it does not find.
pub transition-eq-find_dst :
    (fsm : Fsm) (t : List EventDesc) (s : State) (e : Event)
    → consistent t t ≡ true
    → fsm.transition t s e ≡ find_dst t s e
transition-eq-find_dst fsm t s e c = go (find_dst t s e) refl
  where
    go : (o : Option State) → find_dst t s e ≡ o → fsm.transition t s e ≡ o
    go none q = fsm.rejects t s e (λ d h. cc (Row-find_dst t t s e d c h))
    go (some d) q =
        fsm.accepts t s e d (find_dst-Row t s e d q) (λ d' h. cc (Row-find_dst t t s e d' c h))
