-- ===== src/Webhooks/Delivery.antt =====
-- When a webhook is called, and with which text.
use mathlib.Core.Bool.{true≢false}
use consul_release_controlle.Prelude.{
  ◌≡◌, refl, sym, ap, ◌∙◌, String, Option, none, some, List, [], ◌∷◌, Bool, true, false, ◌||◌,
  Bool-cases, inl, inr, str_eq, eq_iff,
}
use consul_release_controlle.Interfaces.{WebhookMessage}
use consul_release_controlle.Storage.Kv.{Result, ok, err}
use consul_release_controlle.Webhooks.{
  Outside, Channel, state_name, has_status, is_wanted, content, executed, parsed, sent_if, send,
}

-- The state is one of the list.
pub data IsListed (state : String) : List String → Type 0 where
  first : {ss : List String} → IsListed state (state ∷ ss)
  later : {s : String} {ss : List String} → IsListed state ss → IsListed state (s ∷ ss)

-- The list of the configuration is empty, or the state is one of it.
pub data IsWanted (state : String) : List String → Type 0 where
  all_states : IsWanted state []
  listed : {ss : List String} → IsListed state ss → IsWanted state ss

has_status-IsListed :
    (ss : List String) (state : String) → has_status ss state ≡ true → IsListed state ss
unfolding has_status
has_status-IsListed [] state h = absurd (cc)
has_status-IsListed (s ∷ ss) state h = elim (Bool-cases (str_eq s state)) [
  | inl same ↦ rw ((eq_iff s state).0 same) first
  | inr differ ↦
      later (has_status-IsListed ss state (ap (λ b. b || has_status ss state) (sym differ) ∙ h))
]

or_true : (b : Bool) → (b || true) ≡ true
or_true true = refl
or_true false = refl

IsListed-has_status :
    (ss : List String) (state : String) → IsListed state ss → has_status ss state ≡ true
unfolding has_status
IsListed-has_status [] state l = elim l [ ]
IsListed-has_status (s ∷ ss) state first = rw ((eq_iff s s).1 refl) refl
IsListed-has_status (s ∷ ss) state (later l) =
    rw (IsListed-has_status ss state l) (or_true (str_eq s state))

is_wanted-IsWanted :
    (ss : List String) (state : String) → is_wanted ss state ≡ true → IsWanted state ss
unfolding is_wanted
is_wanted-IsWanted [] state h = all_states
is_wanted-IsWanted (s ∷ ss) state h = listed (has_status-IsListed (s ∷ ss) state h)

IsWanted-is_wanted :
    (ss : List String) (state : String) → IsWanted state ss → is_wanted ss state ≡ true
unfolding is_wanted
IsWanted-is_wanted [] state h = refl
IsWanted-is_wanted (s ∷ ss) state (listed l) = IsListed-has_status (s ∷ ss) state l

module _ {W : Type 0} (o : Outside W) (c : Channel W) (m : WebhookMessage) (w : W) where
  -- What `Send` does: nothing, if the configuration names states and the message's is none of them; an
  -- error without a call, if the template is not well formed or does not fit the message; and
  -- otherwise one call, with the title and the text of the configured template, or of the default one.
  pub data Sent : Option String × W → Type 0 where
    ignored : (IsWanted (state_name m.state) c.status → ⊥) → Sent (none, w)
    not_rendered :
        {e : String}
        → IsWanted (state_name m.state) c.status
        → ((render : WebhookMessage → Result String) (text : String)
            → o.parse c.name (content o c) ≡ ok render
            → render m ≡ ok text
            → ⊥)
        → Sent (some e, w)
    delivered :
        {render : WebhookMessage → Result String} {text : String}
        → IsWanted (state_name m.state) c.status
        → o.parse c.name (content o c) ≡ ok render
        → render m ≡ ok text
        → Sent (c.deliver m.title text w)

  executed-Sent :
      (render : WebhookMessage → Result String) (r : Result String)
      → IsWanted (state_name m.state) c.status
      → o.parse c.name (content o c) ≡ ok render
      → render m ≡ r
      → Sent (executed o c m r w)
  unfolding executed
  executed-Sent render (ok text) wanted p q = delivered wanted p q
  executed-Sent render (err e) wanted p q = not_rendered wanted (λ other text a b. cc)

  parsed-Sent :
      (r : Result (WebhookMessage → Result String))
      → IsWanted (state_name m.state) c.status
      → o.parse c.name (content o c) ≡ r
      → Sent (parsed o c m r w)
  unfolding parsed
  parsed-Sent (ok render) wanted p = executed-Sent render (render m) wanted p refl
  parsed-Sent (err e) wanted p = not_rendered wanted (λ render text a b. cc)

  sent_if-Sent : (b : Bool) → is_wanted c.status (state_name m.state) ≡ b → Sent (sent_if o b c m w)
  unfolding sent_if
  sent_if-Sent true h = parsed-Sent _ (is_wanted-IsWanted c.status (state_name m.state) h) refl
  sent_if-Sent false h =
      ignored
        (λ wanted. true≢false (sym (IsWanted-is_wanted c.status (state_name m.state) wanted) ∙ h))

  -- A webhook is called once, with the rendered text, just when the list of states of its configuration
  -- is empty or has the state of the message, and the template can be rendered; without that it is
  -- not called, and an error is returned only if the template is at fault.
  pub send-Sent : Sent (send o c m w)
  unfolding send
  send-Sent = sent_if-Sent (is_wanted c.status (state_name m.state)) refl
