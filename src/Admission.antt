-- ===== src/Admission.antt =====
-- pkg/controllers/admission.go: `Check` decides whether a deployment is let in, and starts a roll out
-- for it.
pub mod Decisions
use Prim.Native.String.{◌++◌ as append}
use consul_release_controlle.Prelude.{
  String, Option, none, some, List, [], ◌∷◌, Bool, true, false, not, ◌&&◌, if◌then◌else◌, str_eq,
}
use consul_release_controlle.Interfaces.{State, RuntimeBaseConfig, RuntimeBaseState}
use consul_release_controlle.Release.{Release}
use consul_release_controlle.Runtime.Platform.{version_label}
use consul_release_controlle.Storage.Kv.{Result, ok, err}
use consul_release_controlle.ConfigEntries.{Meta, get_meta}

pub data AdmissionResponse : Type 0 where
  admission_error admission_granted admission_rejected : AdmissionResponse

-- What `Check` uses of the provider, of its store and of a state machine `M`, over a state `W`.
-- `base_config` is what `json.Unmarshal` reads from the configuration of the release's runtime,
-- `read_state` what it reads from the state of the runtime plugin (the zero value, where that fails),
-- `compile` is
-- `regexp.Compile`, with `MatchString` of what it returns, and `has_suffix` is `strings.HasSuffix`.
pub record Provider (W : Type 0) (M : Type 0) : Type 0 where
  pub list_releases : String → W → Result (List Release) × W
  pub base_config : Release → RuntimeBaseConfig
  pub compile : String → Option (String → Bool)
  pub has_suffix : String → String → Bool
  pub get_state_machine : Release → W → Result M × W
  pub delete_state_machine : Release → W → W
  pub current_state : M → W → State
  pub deploy : M → W → Option String × W
  pub read_state : Release → W → RuntimeBaseState × W
  pub marshal_state : RuntimeBaseState → Result String
  pub upsert_state : Release → String → W → Option String × W
  pub state_name : State → String

abbrev pub Answer : Type 0 → Type 0
Answer W = AdmissionResponse × Option String × W

-- The deployment was last changed by the release controller.
unfoldable pub is_own_change : Option Meta → String → Bool
is_own_change none version = false
is_own_change (some labels) version =
    not (str_eq (get_meta version_label labels) "")
    && str_eq (get_meta version_label labels) version

module _ {W : Type 0} {M : Type 0} (p : Provider W M) where
  unfoldable pub anchored : String → String
  anchored selector = if p.has_suffix selector "$" then selector else append selector "$"

  matches_pattern : Option (String → Bool) → String → Bool
  matches_pattern none name = false
  matches_pattern (some re) name = re name

  -- A selector that does not compile is logged, and the release skipped.
  unfoldable pub selects : Release → String → String → Bool
  unfolding anchored matches_pattern
  selects rel name namespace =
      let conf = p.base_config rel in
      matches_pattern (p.compile (anchored conf.deployment_selector)) name
      && str_eq conf.namespace namespace

  deployed : Option String × W → Answer W
  deployed (some e, w) = (AdmissionResponse.admission_error, some e, w)
  deployed (none, w) = (AdmissionResponse.admission_granted, none, w)

  restarted : Result M × W → Answer W
  unfolding deployed
  restarted (err e, w) = (AdmissionResponse.admission_error, some e, w)
  restarted (ok sm, w) = deployed (p.deploy sm w)

  saved : Release → Option String × W → Answer W
  unfolding restarted
  saved rel (some e, w) = (AdmissionResponse.admission_error, some e, w)
  saved rel (none, w) = restarted (p.get_state_machine rel (p.delete_state_machine rel w))

  marshalled : Release → Result String → W → Answer W
  unfolding saved
  marshalled rel (err e) w = (AdmissionResponse.admission_error, some e, w)
  marshalled rel (ok d) w = saved rel (p.upsert_state rel d w)

  -- The candidate's name is set in the state of the runtime plugin, and a new state machine deploys.
  unfoldable pub start_deployment : Release → String → W → Answer W
  unfolding marshalled
  start_deployment rel name w =
      let (ps, w') = p.read_state rel w in
      marshalled rel (p.marshal_state (record ps { candidate_name = name })) w'

  -- The answer for a release that selects the deployment, by the state of its machine.
  unfoldable pub by_state : Release → String → State → W → Answer W
  unfolding start_deployment
  by_state rel name State.destroy w = (AdmissionResponse.admission_granted, none, w)
  by_state rel name State.idle w = start_deployment rel name w
  by_state rel name State.fail w = start_deployment rel name w
  by_state rel name state w = (
    AdmissionResponse.admission_rejected,
    some (
        append "A release for the deployment "
          (append name (append " currently active, state: " (p.state_name state)))),
    w,
  )

  found_machine : Release → String → Result M × W → Answer W
  unfolding by_state
  found_machine rel name (err e, w) = (AdmissionResponse.admission_error, some e, w)
  found_machine rel name (ok sm, w) = by_state rel name (p.current_state sm w) w

  unfoldable pub admit : Release → String → W → Answer W
  unfolding found_machine
  admit rel name w = found_machine rel name (p.get_state_machine rel w)

  -- The loop over the releases.
  unfoldable pub check_releases : List Release → String → String → W → Answer W
  unfolding admit selects
  check_releases [] name namespace w = (AdmissionResponse.admission_granted, none, w)
  check_releases (rel ∷ rels) name namespace w =
      let rest = check_releases rels name namespace w in
      if selects rel name namespace then admit rel name w else rest

  listed : Result (List Release) × W → String → String → Answer W
  unfolding check_releases
  listed (err e, w) name namespace = (AdmissionResponse.admission_error, some e, w)
  listed (ok rels, w) name namespace = check_releases rels name namespace w

  unfoldable pub check : String → String → Option Meta → String → String → W → Answer W
  unfolding is_own_change listed
  check name namespace labels version runtime w =
      if is_own_change labels version
      then (AdmissionResponse.admission_granted, none, w)
      else listed (p.list_releases runtime w) name namespace
