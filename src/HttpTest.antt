-- ===== src/HttpTest.antt =====
-- pkg/plugins/httptest/plugin.go: the post deployment test.
pub mod Passes
pub mod Termination
pub mod Configure
use Prim.Native.String.{◌++◌ as append}
use consul_release_controlle.Prelude.{
  ◌≡◌, ℕ, zero, suc, ℤ, pos, leb_ℤ, String, Option, none, some, List, [], ◌∷◌, Bool, true, false,
  if◌then◌else◌, str_eq,
}
use consul_release_controlle.Interfaces.{CheckResult}
use consul_release_controlle.StateMachine.Calls.{Error}

pub record PluginConfig : Type 0 where
  pub path : String
  pub method : String
  pub payload : String
  pub required_test_passes : ℤ
  pub interval : String
  pub timeout : String

pub record Plugin : Type 0 where
  pub name : String
  pub namespace : String
  pub config : PluginConfig

-- `http.Request`, as far as the plugin sets it.
pub record Request : Type 0 where
  pub method : String
  pub url : String
  pub payload : String
  pub host : String

pub data Duration : Type 0 where
  bad_duration : String → Duration
  duration : ℤ → Duration

-- What the plugin is given, over a state `W`: `time.ParseDuration`, the environment variable
-- `UPSTREAMS`, the error of `http.NewRequest` for a method and a URL, `http.DefaultClient.Do`, `Check`
-- of the monitor, `time.Sleep`, and whether the context that `WithTimeout` makes in one state is done
-- in another.
pub record Outside (W : Type 0) : Type 0 where
  pub parse_duration : String → Duration
  pub consul_service_upstreams : W → String
  pub new_request : String → String → Error
  pub send : Request → W → Error × W
  pub check : String → ℕ → W → CheckResult × Error × W
  pub sleep : ℤ → W → W
  pub is_done : ℤ → W → W → Bool

-- A namespace that is not set is "default".
unfoldable pub new : String → String → PluginConfig → Plugin
new name namespace c = record {
  name = name;
  namespace = if str_eq namespace "" then "default" else namespace;
  config = c;
}

pub data Round (W : Type 0) : Type 0 where
  broke : String → W → Round W
  measured : CheckResult → W → Round W

-- `successCount` after a check: a failure sets it back to 0.
unfoldable pub counted : CheckResult → ℕ → ℕ
counted CheckResult.check_success n = suc n
counted CheckResult.check_failed n = 0
counted CheckResult.check_no_metrics n = 0
counted CheckResult.check_error n = 0

abbrev pub timeout_error : String
timeout_error = "post deployment test failed, timeout waiting for successful tests"

module _ {W : Type 0} (o : Outside W) where
  unfoldable pub request : Plugin → W → Request
  request p w = record {
    method = p.config.method;
    url = append (o.consul_service_upstreams w) p.config.path;
    payload = p.config.payload;
    host = append p.name (append "." p.namespace);
  }

  unfoldable pub sent : String → Error × W → Round W
  sent candidate (some e, w) = broke e w
  sent candidate (none, w) = let (res, err, w') = o.check candidate 30 w in measured res w'

  unfoldable pub created : Plugin → String → W → Error → Round W
  created p candidate w (some e) = broke e w
  created p candidate w none = sent candidate (o.send (request p w) w)

  -- The loop's body, up to the count.
  unfoldable pub round : Plugin → String → W → Round W
  round p candidate w = created p candidate w (o.new_request p.config.method (request p w).url)

  module _ (p : Plugin) (candidate : String) (timeout interval : ℤ) (began : W) where
    -- The rest of the body. `again` is the loop from there on.
    unfoldable pub finish : (ℕ → W → Option (Error × W)) → ℕ → Round W → Option (Error × W)
    finish again count (broke e w) = some (some e, w)
    finish again count (measured res w) =
        let count' = counted res count in
        let rest = again count' (o.sleep interval w) in
        if o.is_done timeout began w
        then some (some timeout_error, w)
        else if leb_ℤ p.config.required_test_passes (pos count')
        then some (none, w)
        else rest

    -- The loop, with fuel for its passes: `none` is out of fuel.
    unfoldable pub attempts : ℕ → ℕ → W → Option (Error × W)
    attempts zero count w = none
    attempts (suc fuel) count w =
        finish (λ count' w'. attempts fuel count' w') count (round p candidate w)

  unfoldable pub timed : ℕ → Plugin → String → W → ℤ → Duration → Option (Error × W)
  timed fuel p candidate w timeout (bad_duration e) =
      some (some (append "unable to parse interval as duration: " e), w)
  timed fuel p candidate w timeout (duration interval) =
      attempts p candidate timeout interval w fuel 0 w

  unfoldable pub started : ℕ → Plugin → String → W → Duration → Option (Error × W)
  started fuel p candidate w (bad_duration e) =
      some (some (append "unable to parse timeout as duration: " e), w)
  started fuel p candidate w (duration timeout) =
      timed fuel p candidate w timeout (o.parse_duration p.config.interval)

  unfoldable pub execute : ℕ → Plugin → String → W → Option (Error × W)
  execute fuel p candidate w = started fuel p candidate w (o.parse_duration p.config.timeout)
