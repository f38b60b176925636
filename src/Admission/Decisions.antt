-- ===== src/Admission/Decisions.antt =====
-- The answers of `Check`.
use consul_release_controlle.Prelude.{
  ◌≡◌, ◌≢◌, refl, inl, inr, String, Option, none, some, List, [], ◌∷◌, ◌++◌, Bool, true, false,
  ◌||◌, Bool-cases, arith,
}
use consul_release_controlle.Interfaces.{State}
use consul_release_controlle.Release.{Release}
use consul_release_controlle.Storage.Kv.{Result, ok, err}
use consul_release_controlle.ConfigEntries.{Meta}
use consul_release_controlle.Admission.{
  AdmissionResponse, Answer, Provider, is_own_change, selects, start_deployment, by_state,
  found_machine, admit, check_releases, listed, check, deployed, restarted, saved, marshalled,
}

-- A grant comes without an error, and every other answer with one.
abbrev pub IsExplained : {W : Type 0} → Answer W → Type 0
IsExplained (AdmissionResponse.admission_granted, e, w) = e ≡ none
IsExplained (AdmissionResponse.admission_error, e, w) = e ≢ none
IsExplained (AdmissionResponse.admission_rejected, e, w) = e ≢ none

-- The states in which a roll out is under way.
abbrev pub is_active : State → Bool
is_active State.idle = false
is_active State.fail = false
is_active State.destroy = false
is_active d = true

abbrev pub is_rejected : AdmissionResponse → Bool
is_rejected AdmissionResponse.admission_rejected = true
is_rejected r = false

some_ne : (e : String) → some e ≢ none
some_ne e h = cc

module _ {W : Type 0} {M : Type 0} (p : Provider W M) where
  deployed-IsExplained : (r : Option String × W) → IsExplained (deployed p r)
  unfolding deployed
  deployed-IsExplained (none, w) = refl
  deployed-IsExplained (some e, w) = some_ne e

  restarted-IsExplained : (r : Result M × W) → IsExplained (restarted p r)
  unfolding restarted
  restarted-IsExplained (ok sm, w) = deployed-IsExplained (p.deploy sm w)
  restarted-IsExplained (err e, w) = some_ne e

  saved-IsExplained : (rel : Release) (r : Option String × W) → IsExplained (saved p rel r)
  unfolding saved
  saved-IsExplained rel (none, w) = restarted-IsExplained _
  saved-IsExplained rel (some e, w) = some_ne e

  marshalled-IsExplained :
      (rel : Release) (r : Result String) (w : W) → IsExplained (marshalled p rel r w)
  unfolding marshalled
  marshalled-IsExplained rel (ok d) w = saved-IsExplained rel _
  marshalled-IsExplained rel (err e) w = some_ne e

  start_deployment-IsExplained :
      (rel : Release) (name : String) (w : W) → IsExplained (start_deployment p rel name w)
  unfolding start_deployment
  start_deployment-IsExplained rel name w = marshalled-IsExplained rel _ _

  by_state-IsExplained :
      (rel : Release) (name : String) (d : State) (w : W) → IsExplained (by_state p rel name d w)
  unfolding by_state
  by_state-IsExplained rel name State.destroy w = refl
  by_state-IsExplained rel name State.idle w = start_deployment-IsExplained rel name w
  by_state-IsExplained rel name State.fail w = start_deployment-IsExplained rel name w
  by_state-IsExplained rel name _ w = some_ne _

  found_machine-IsExplained :
      (rel : Release) (name : String) (r : Result M × W) → IsExplained (found_machine p rel name r)
  unfolding found_machine
  found_machine-IsExplained rel name (ok sm, w) = by_state-IsExplained rel name _ w
  found_machine-IsExplained rel name (err e, w) = some_ne e

  check_releases-IsExplained :
      (rels : List Release) (name namespace : String) (w : W)
      → IsExplained (check_releases p rels name namespace w)
  unfolding check_releases admit
  check_releases-IsExplained [] name namespace w = refl
  check_releases-IsExplained (rel ∷ rels) name namespace w =
      elim (Bool-cases (selects p rel name namespace)) [
        | inl hit ↦ rw hit (found_machine-IsExplained rel name _)
        | inr miss ↦ rw miss (check_releases-IsExplained rels name namespace w)
      ]

  listed-IsExplained :
      (r : Result (List Release) × W) (name namespace : String)
      → IsExplained (listed p r name namespace)
  unfolding listed
  listed-IsExplained (ok rels, w) name namespace = check_releases-IsExplained rels name namespace w
  listed-IsExplained (err e, w) name namespace = some_ne e

  -- Whatever the provider does: a grant comes without an error, and an error or a rejection comes
  -- with one.
  pub check-IsExplained :
      (name namespace : String) (labels : Option Meta) (version runtime : String) (w : W)
      → IsExplained (check p name namespace labels version runtime w)
  unfolding check
  check-IsExplained name namespace labels version runtime w =
      elim (Bool-cases (is_own_change labels version)) [
        | inl own ↦ rw own refl
        | inr other ↦ rw other (listed-IsExplained (p.list_releases runtime w) name namespace)
      ]

  is_rejected-deployed : (r : Option String × W) → is_rejected (deployed p r).0 ≡ false
  unfolding deployed
  is_rejected-deployed (none, w) = refl
  is_rejected-deployed (some e, w) = refl

  is_rejected-restarted : (r : Result M × W) → is_rejected (restarted p r).0 ≡ false
  unfolding restarted
  is_rejected-restarted (ok sm, w) = is_rejected-deployed (p.deploy sm w)
  is_rejected-restarted (err e, w) = refl

  is_rejected-saved :
      (rel : Release) (r : Option String × W) → is_rejected (saved p rel r).0 ≡ false
  unfolding saved
  is_rejected-saved rel (none, w) = is_rejected-restarted _
  is_rejected-saved rel (some e, w) = refl

  is_rejected-marshalled :
      (rel : Release) (r : Result String) (w : W) → is_rejected (marshalled p rel r w).0 ≡ false
  unfolding marshalled
  is_rejected-marshalled rel (ok d) w = is_rejected-saved rel _
  is_rejected-marshalled rel (err e) w = refl

  is_rejected-by_state :
      (rel : Release) (name : String) (d : State) (w : W)
      → is_rejected (by_state p rel name d w).0 ≡ is_active d
  unfolding by_state start_deployment
  is_rejected-by_state rel name State.destroy w = refl
  is_rejected-by_state rel name State.idle w = is_rejected-marshalled rel _ _
  is_rejected-by_state rel name State.fail w = is_rejected-marshalled rel _ _
  is_rejected-by_state rel name _ w = refl

  unfoldable pub any_selects : List Release → String → String → Bool
  any_selects [] name namespace = false
  any_selects (rel ∷ rels) name namespace =
      selects p rel name namespace || any_selects rels name namespace

  -- The first release that selects the deployment decides.
  check_releases-append :
      (before : List Release) (rel : Release) (after : List Release) (name namespace : String)
      (w : W)
      → any_selects before name namespace ≡ false
      → selects p rel name namespace ≡ true
      → check_releases p (before ++ rel ∷ after) name namespace w ≡ admit p rel name w
  unfolding check_releases any_selects
  check_releases-append [] rel after name namespace w none_before hit = rw hit refl
  check_releases-append (r ∷ before) rel after name namespace w none_before hit =
      elim (Bool-cases (selects p r name namespace)) [
        | inl first ↦ ground arith
        | inr miss ↦
            rw miss (check_releases-append before rel after name namespace w (ground arith) hit)
      ]

  -- For a deployment that the controller did not change itself, and whose releases are listed: the
  -- first release that selects it decides. If the release's state machine is found, then the
  -- deployment is rejected just if the machine is in a state of an active roll out; not if it is
  -- idle, has failed or is being destroyed.
  pub is_rejected-check :
      (name namespace : String) (labels : Option Meta) (version runtime : String)
      (before : List Release) (rel : Release) (after : List Release) (sm : M) (w w' w'' : W)
      → is_own_change labels version ≡ false
      → p.list_releases runtime w ≡ (ok (before ++ rel ∷ after), w')
      → any_selects before name namespace ≡ false
      → selects p rel name namespace ≡ true
      → p.get_state_machine rel w' ≡ (ok sm, w'')
      → is_rejected (check p name namespace labels version runtime w).0
        ≡ is_active (p.current_state sm w'')
  unfolding check listed admit found_machine
  is_rejected-check name namespace labels version runtime before rel after sm w w' w'' other found
        none_before hit machine =
      rw
        (
          other,
          found,
          listed,
          check_releases-append before rel after name namespace w' none_before hit,
          admit,
          machine,
          found_machine,
        )
        (is_rejected-by_state rel name (p.current_state sm w'') w'')
