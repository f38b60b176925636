-- ===== src/Examples/Events.antt =====
-- A stream of Nomad with one pending job, and a webhook for two states.
use consul_release_controlle.Prelude.{◌≡◌, refl, ℕ, suc, pos, String, none, some, List, [], ◌∷◌}
use consul_release_controlle.Interfaces.{State, Event as Signal, WebhookMessage}
use consul_release_controlle.Storage.Kv.{ok}
use consul_release_controlle.NomadController.{Job, Event, Stream, start}
use consul_release_controlle.NomadController.Events.{
  all_pending, AllHaveJobs, HasJobs, check_jobs, start_lem,
}
use consul_release_controlle.Examples.Admissions.{provider}
use consul_release_controlle.Webhooks.{Outside, SlackConfig, slack_channel, send}
use consul_release_controlle.Webhooks.Delivery.{Sent, send-Sent}

abbrev job : String → Job
job status = record {
  name = "api-v2";
  namespace = "default";
  meta = none;
  version = 3;
  status = status;
}

abbrev registered : String → Event
registered status = record { kind = "JobRegistered"; job = some (job status) }

abbrev deregistered : Event
deregistered = record { kind = "JobDeregistered"; job = none }

abbrev batches : List (List Event)
batches = (registered "pending" ∷ deregistered ∷ []) ∷ (registered "running" ∷ []) ∷ []

abbrev stream : Stream ℕ
stream = record { get_events = λ w. (ok batches, w); format_version = λ n. "3" }

have_jobs : AllHaveJobs batches
unfolding AllHaveJobs HasJobs
have_jobs = ((λ h. (job "pending", refl), (λ h. cc, tt)), ((λ h. (job "running", refl), tt), tt))

start_lem_example :
    start stream (provider State.idle) 0
    ≡ some (none, check_jobs stream (provider State.idle) (all_pending batches) 0)
start_lem_example = start_lem stream (provider State.idle) 0 refl have_jobs

abbrev config : SlackConfig
config = record {
  url = "https://hooks.slack.com/1";
  template = "";
  status = "state_deploy" ∷ "state_fail" ∷ [];
}

-- The world counts the calls.
abbrev outside : Outside ℕ
outside = record {
  parse = λ name text. ok (λ m. ok text);
  post_slack = λ url text w. (none, suc w);
  create_embed = λ id token title text w. (none, suc w);
  unmarshal_slack = λ d. ok config;
  unmarshal_discord = λ d. ok (record { id = "1"; token = "2"; template = ""; status = [] });
}

abbrev message : WebhookMessage
message = record {
  title = "Deploy";
  name = "api";
  namespace = "default";
  state = State.deploy;
  outcome = Signal.deployed;
  primary_traffic = pos 100;
  candidate_traffic = pos 0;
  error = "";
}

send-Sent_example :
    Sent outside
      (slack_channel outside config)
      message
      0
      (send outside (slack_channel outside config) message 0)
send-Sent_example = send-Sent outside (slack_channel outside config) message 0
