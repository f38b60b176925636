-- ===== src/HttpTest/Configure.antt =====
-- pkg/plugins/httptest/plugin.go: Configure.
use consul_release_controlle.Prelude.{
  pos, leb_ℤ, eqb_ℤ, String, Option, none, some, List, [], ◌∷◌, Bool, true, false, not, ◌&&◌, ◌||◌,
  str_eq,
}
use consul_release_controlle.Storage.Kv.{Result, ok, err}
use consul_release_controlle.Validation.{Field, validate}
use consul_release_controlle.HttpTest.{PluginConfig, Outside, Duration, bad_duration, duration}

-- `json.Unmarshal` at the configuration, and the test `uri` of the validator.
pub record Sources : Type 0 where
  pub unmarshal_config : String → Result PluginConfig
  pub is_uri : String → Bool

is_duration : Duration → Bool
is_duration (bad_duration e) = false
is_duration (duration d) = true

is_one_of : List String → String → Bool
is_one_of [] t = false
is_one_of (x ∷ xs) t = str_eq t x || is_one_of xs t

-- `required`, of a text.
is_given : String → Bool
is_given t = not (str_eq t "")

abbrev methods : List String
methods = "GET" ∷ "POST" ∷ "PUT" ∷ "DELETE" ∷ "HEAD" ∷ "OPTIONS" ∷ "TRACE" ∷ "PATCH" ∷ []

module _ {W : Type 0} (o : Outside W) (sources : Sources) where
  -- The tags of the fields that have some, and the texts of their errors.
  unfoldable pub fields : PluginConfig → List Field
  unfolding is_duration is_one_of is_given
  fields c =
      record {
        holds = is_given c.path && sources.is_uri c.path;
        text = "Path is not a valid HTTP path";
      }
      ∷ record {
        holds = is_given c.method && is_one_of methods c.method;
        text =
            "Method is not a valid HTTP method, please specify one of GET,POST,PUT,DELETE,HEAD,OPTIONS,TRACE,PATCH";
      }
      ∷ record {
        holds = not (eqb_ℤ c.required_test_passes (pos 0)) && leb_ℤ (pos 1) c.required_test_passes;
        text = "RequiredTestPasses is not valid, please specify a value greater than 0";
      }
      ∷ record {
        holds = is_given c.interval && is_duration (o.parse_duration c.interval);
        text =
            "Interval is not a valid duration, please specify using Go duration format e.g (30s, 30ms, 60m)";
      }
      ∷ record {
        holds = is_given c.timeout && is_duration (o.parse_duration c.timeout);
        text =
            "Timeout is not a valid duration, please specify using Go duration format e.g (30s, 30ms, 60m)";
      }
      ∷ []

  validated : PluginConfig → Option String → Result PluginConfig
  validated c none = ok c
  validated c (some e) = err e

  unmarshalled : Result PluginConfig → Result PluginConfig
  unfolding validated fields
  unmarshalled (err e) = err e
  unmarshalled (ok c) = validated c (validate (fields c))

  unfoldable pub configure : String → Result PluginConfig
  unfolding unmarshalled
  configure d = unmarshalled (sources.unmarshal_config d)
