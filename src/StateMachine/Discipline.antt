-- ===== src/StateMachine/Discipline.antt =====
-- Rules on the calls of a goroutine: an automaton reads the calls with their replies and the events
-- in the order in which they happen, and says which calls and events it allows.
use consul_release_controlle.Prelude.{
  ◌≡◌, Bool, true, false, if◌then◌else◌, none, some, Option, List, [], ◌∷◌, ℤ, String,
}
use consul_release_controlle.Interfaces.{State, Event, WebhookMessage}
use consul_release_controlle.Release.{PluginConfig}
use consul_release_controlle.StateMachine.Calls.{
  Error, Call, Reply, Prog, ret, call, fire, get_primary_traffic, get_candidate_traffic, send,
  ◌>>=◌, event,
}
use consul_release_controlle.StateMachine.Handlers.{
  StateMachine, send_all, call_webhooks, tell, finish,
}
use consul_release_controlle.StateMachine.Replies.{Each, Each-all}

pub record Rule (S : Type 0) : Type 0 where
  pub allow : S → Call → Bool
  pub next : S → (c : Call) → Reply c → S
  pub allow_event : S → Event → Bool
  pub next_event : S → Event → S
  pub final : S → Bool

-- From state `s` of the rule the goroutine keeps the rule to its end, whatever the replies are.
abbrev pub Obeys : {S A : Type 0} → Rule S → S → Prog A → Type 0
Obeys m s (ret a) = m.final s ≡ true
Obeys m s (call c k) = (m.allow s c ≡ true) × ((r : Reply c) → Obeys m (m.next s c r) (k r))
Obeys m s (fire e args p) = (m.allow_event s e ≡ true) × Obeys m (m.next_event s e) p

-- `Obeys` in the form that a search can go through: the replies by their forms.
abbrev pub Checks : {S A : Type 0} → Rule S → S → Prog A → Type 0
Checks m s (ret a) = m.final s ≡ true
Checks m s (call c k) = (m.allow s c ≡ true) × Each c (λ r. Checks m (m.next s c r) (k r))
Checks m s (fire e args p) = (m.allow_event s e ≡ true) × Checks m (m.next_event s e) p

-- The same for a goroutine that a state may not have.
abbrev pub ObeysAny : {S : Type 0} → Rule S → S → Option (Prog Unit) → Type 0
ObeysAny m s none = Unit
ObeysAny m s (some p) = Obeys m s p

abbrev pub ChecksAny : {S : Type 0} → Rule S → S → Option (Prog Unit) → Type 0
ChecksAny m s none = Unit
ChecksAny m s (some p) = Checks m s p

pub Checks-Obeys : {S A : Type 0} (m : Rule S) (s : S) (p : Prog A) → Checks m s p → Obeys m s p
Checks-Obeys m s (ret a) h = h
Checks-Obeys m s (call c k) h = (
  h.0,
  λ r. Checks-Obeys m (m.next s c r) (k r) (Each-all c (λ x. Checks m (m.next s c x) (k x)) h.1 r),
)
Checks-Obeys m s (fire e args p) h = (h.0, Checks-Obeys m (m.next_event s e) p h.1)

module _ {S : Type 0} (m : Rule S) where
  -- The rule does not read what the webhooks are sent, nor the traffic that they are told.
  pub record IgnoresWebhooks : Type 0 where
    pub allowed : (s : S) (w : PluginConfig) (x : WebhookMessage) → m.allow s (send w x) ≡ true
    pub kept :
        (s : S) (w : PluginConfig) (x : WebhookMessage) (r : Error) → m.next s (send w x) r ≡ s
    pub primary_allowed : (s : S) → m.allow s get_primary_traffic ≡ true
    pub primary_kept : (s : S) (n : ℤ) → m.next s get_primary_traffic n ≡ s
    pub candidate_allowed : (s : S) → m.allow s get_candidate_traffic ≡ true
    pub candidate_kept : (s : S) (n : ℤ) → m.next s get_candidate_traffic n ≡ s

module _ {S : Type 0} (m : Rule S) (i : IgnoresWebhooks m) (s : S) where
  send_all-bind :
      {A : Type 0} (ws : List PluginConfig) (x : WebhookMessage) (p : Prog A)
      → Checks m s p
      → Checks m s (send_all ws x >>= λ _. p)
  unfolding send_all
  send_all-bind [] x p h = h
  send_all-bind (w ∷ ws) x p h =
      let again = send_all-bind ws x p h in
      (i.allowed s w x, (rw (i.kept s w x none) again, λ e. rw (i.kept s w x (some e)) again))

  module _ (sm : StateMachine) (title : String) (state : State) (result : Event) where
    pub finish-Checks :
        (p c : ℤ) (err : Error)
        → m.allow_event s result ≡ true
        → m.final (m.next_event s result) ≡ true
        → Checks m s (finish sm title state result p c err)
    unfolding finish call_webhooks
    finish-Checks p c err allowed done = send_all-bind sm.webhooks _ (event result) (allowed, done)

    pub tell-Checks :
        (err : Error) (rest : Prog Unit)
        → Checks m s rest
        → Checks m s (tell sm title state result err rest)
    unfolding tell call_webhooks
    tell-Checks err rest h = (
      i.primary_allowed s,
      λ p. rw (i.primary_kept s p) (
        i.candidate_allowed s,
        λ c. rw (i.candidate_kept s c) (send_all-bind sm.webhooks _ rest h),
      ),
    )

  pub if-Checks :
      (b : Bool) (p q : Prog Unit) → Checks m s p → Checks m s q → Checks m s (if b then p else q)
  if-Checks true p q h k = h
  if-Checks false p q h k = k

pub ChecksAny-ObeysAny :
    {S : Type 0} (m : Rule S) (s : S) (o : Option (Prog Unit)) → ChecksAny m s o → ObeysAny m s o
ChecksAny-ObeysAny m s none h = tt
ChecksAny-ObeysAny m s (some p) h = Checks-Obeys m s p h
