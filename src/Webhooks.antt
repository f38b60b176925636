-- ===== src/Webhooks.antt =====
-- pkg/plugins/slack/plugin.go and pkg/plugins/discord/plugin.go: the webhooks.
pub mod Delivery
use Prim.Native.String.{◌++◌ as append}
use consul_release_controlle.Prelude.{
  String, Option, none, some, List, [], ◌∷◌, Bool, true, false, not, ◌||◌, if◌then◌else◌, str_eq,
}
use consul_release_controlle.Interfaces.{State, WebhookMessage}
use consul_release_controlle.Storage.Kv.{Result, ok, err}
use consul_release_controlle.Validation.{Field, validate}

-- The texts of the constants of pkg/plugins/interfaces/statemachine.go.
unfoldable pub state_name : State → String
state_name State.start = "state_start"
state_name State.configure = "state_configure"
state_name State.idle = "state_idle"
state_name State.deploy = "state_deploy"
state_name State.monitor = "state_monitor"
state_name State.scale = "state_scale"
state_name State.promote = "state_promote"
state_name State.rollback = "state_rollback"
state_name State.fail = "state_fail"
state_name State.destroy = "state_destroy"

pub record SlackConfig : Type 0 where
  pub url : String
  pub template : String
  pub status : List String

pub record DiscordConfig : Type 0 where
  pub id : String
  pub token : String
  pub template : String
  pub status : List String

-- What the plugins call, over a state `W`: `template.New` with `Parse` and `Execute`, `Send` of the
-- Slack library, `CreateEmbeds` of the Discord library, and `json.Unmarshal` at the configurations.
pub record Outside (W : Type 0) : Type 0 where
  pub parse : String → String → Result (WebhookMessage → Result String)
  pub post_slack : String → String → W → Option String × W
  pub create_embed : String → String → String → String → W → Option String × W
  pub unmarshal_slack : String → Result SlackConfig
  pub unmarshal_discord : String → Result DiscordConfig

default_end : String
default_end =
    "Consul Release Controller state has changed to \"{{ .State }}\" for\nthe release \"{{ .Name }}\" in the namespace \"{{ .Namespace }}\".\n\nPrimary traffic: {{ .PrimaryTraffic }}\nCandidate traffic: {{ .CandidateTraffic }}\n\n{{ if ne .Error \"\" }}\nAn error occurred when processing: {{ .Error }}\n{{ else }}\nThe outcome is \"{{ .Outcome }}\"\n{{ end }}\n"

-- A webhook as `Send` uses it: the name of the template, the default one, the configuration, and the
-- call that is made with the title and the text.
pub record Channel (W : Type 0) : Type 0 where
  pub name : String
  pub default_content : String
  pub template : String
  pub status : List String
  pub deliver : String → String → W → Option String × W

-- The loop over the status of the configuration.
unfoldable pub has_status : List String → String → Bool
has_status [] state = false
has_status (s ∷ ss) state = str_eq s state || has_status ss state

-- The list is empty, or the state is in it.
unfoldable pub is_wanted : List String → String → Bool
unfolding has_status
is_wanted [] state = true
is_wanted (s ∷ ss) state = has_status (s ∷ ss) state

is_required : String → Bool
is_required t = not (str_eq t "")

abbrev missing : String → String
missing name =
    append name
      " is a required field when configuring Discord webhooks, \n\tyou can obtain this value from the webhook URL in the Discord UI ('https://discord.com/api/webhooks/{id}/{token}')"

module _ {W : Type 0} (o : Outside W) where
  slack_delivered : Option String × W → Option String × W
  slack_delivered (none, w) = (none, w)
  slack_delivered (some e, w) = (some (append "unable to call Slack webhook: " e), w)

  discord_delivered : Option String × W → Option String × W
  discord_delivered (none, w) = (none, w)
  discord_delivered (some e, w) = (some (append "unable to make Webhook call to Discord: " e), w)

  unfoldable pub slack_channel : SlackConfig → Channel W
  unfolding slack_delivered default_end
  slack_channel c = record {
    name = "slack";
    default_content = append "\n{{ .Title }}\n\n" default_end;
    template = c.template;
    status = c.status;
    deliver = λ title text w. slack_delivered (o.post_slack c.url text w);
  }

  unfoldable pub discord_channel : DiscordConfig → Channel W
  unfolding discord_delivered default_end
  discord_channel c = record {
    name = "discord";
    default_content = append "\n" default_end;
    template = c.template;
    status = c.status;
    deliver = λ title text w. discord_delivered (o.create_embed c.id c.token title text w);
  }

  unfoldable pub content : Channel W → String
  content c = if str_eq c.template "" then c.default_content else c.template

  executed : Channel W → WebhookMessage → Result String → W → Option String × W
  executed c m (err e) w = (some (append "unable to execute template for Webhook plugin: " e), w)
  executed c m (ok text) w = c.deliver m.title text w

  parsed :
      Channel W → WebhookMessage → Result (WebhookMessage → Result String) → W → Option String × W
  unfolding executed
  parsed c m (err e) w =
      (some (append "unable to process message template for Webhook plugin: " e), w)
  parsed c m (ok render) w = executed c m (render m) w

  sent_if : Bool → Channel W → WebhookMessage → W → Option String × W
  unfolding parsed content
  sent_if false c m w = (none, w)
  sent_if true c m w = parsed c m (o.parse c.name (content c)) w

  -- `Send`, of both plugins.
  unfoldable pub send : Channel W → WebhookMessage → W → Option String × W
  unfolding sent_if
  send c m w = sent_if (is_wanted c.status (state_name m.state)) c m w

  checked : {C : Type 0} → C → Option String → Result C
  checked c none = ok c
  checked c (some e) = err e

  slack_unmarshalled : Result SlackConfig → Result SlackConfig
  unfolding checked is_required
  slack_unmarshalled (err e) = err (append "unable to decode Webhook config: " e)
  slack_unmarshalled (ok c) =
      checked c (validate (record { holds = is_required c.url; text = missing "ID" } ∷ []))

  -- `Configure` of the Slack plugin; its text for a missing URL is that of Discord's identifier.
  unfoldable pub slack_configure : String → Result SlackConfig
  unfolding slack_unmarshalled
  slack_configure d = slack_unmarshalled (o.unmarshal_slack d)

  discord_unmarshalled : Result DiscordConfig → Result DiscordConfig
  unfolding checked is_required
  discord_unmarshalled (err e) = err (append "unable to decode Monitoring config: " e)
  discord_unmarshalled (ok c) = checked c (
      validate (
        record { holds = is_required c.id; text = missing "ID" }
        ∷ record { holds = is_required c.token; text = missing "Token" }
        ∷ []))

  unfoldable pub discord_configure : String → Result DiscordConfig
  unfolding discord_unmarshalled
  discord_configure d = discord_unmarshalled (o.unmarshal_discord d)
