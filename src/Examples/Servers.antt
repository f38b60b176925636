-- ===== src/Examples/Servers.antt =====
-- Requests to the API, and the state machines of two releases with one key.
use consul_release_controlle.Prelude.{
  ◌≡◌, ◌≢◌, refl, ℕ, suc, pos, none, some, String, List, [], ◌∷◌,
}
use consul_release_controlle.Interfaces.{State}
use consul_release_controlle.Release.{Release}
use consul_release_controlle.Storage.{release_not_found, found, failed}
use consul_release_controlle.Storage.Kv.{ok}
use consul_release_controlle.Api.{Outside, made, delete}
use consul_release_controlle.Api.Status.{Answers, post_request, handle, handle-Answers}
use consul_release_controlle.Api.Contents.{Deletes, delete-Deletes}
use consul_release_controlle.Provider.{Makers, Machines, get_release_key, get_state_machine}
use consul_release_controlle.Provider.Machines.{
  Request, get, delete as drop, serve_all, Spares, get_state_machine-keeps,
}

abbrev release : String → String → Release
release name namespace = record {
  name = name;
  namespace = namespace;
  version = "1";
  created = 10;
  last_updated = 10;
  releaser = none;
  runtime = none;
  strategy = none;
  monitor = none;
  webhooks = [];
  post_deployment_test = none;
  state_history = [];
}

-- The world counts the calls. `Configure` fails.
abbrev outside : Outside Unit ℕ
outside = record {
  upsert_release = λ r w. (none, suc w);
  list_releases = λ w. (found (release "api" "default" ∷ release "web" "default" ∷ []), suc w);
  get_release = λ n w. (found (release n "default"), suc w);
  get_state_machine = λ r w. (made tt, suc w);
  strategy_state = λ r w. (failed release_not_found, suc w);
  read_strategy_state = λ d. record { candidate_traffic = some (pos 10); status = none };
  configure = λ m w. (some "not ready", suc w);
  destroy = λ m w. (none, suc w);
  machine_state = λ m w. State.idle;
}

handle-Answers_example :
    Answers outside
      (post_request (ok (release "api" "default")))
      0
      (handle outside (post_request (ok (release "api" "default"))) 0)
handle-Answers_example = handle-Answers outside (post_request (ok (release "api" "default"))) 0

delete-Deletes_example : Deletes outside "api" 0 (delete outside "api" 0)
delete-Deletes_example = delete-Deletes outside "api" 0

-- Machines are numbered.
abbrev makers : Makers Unit ℕ ℕ
makers = record {
  new_kubernetes = λ w. (ok tt, w);
  new_nomad = λ w. (ok tt, w);
  new_machine = λ r w. (ok w, suc w);
}

-- Two releases, of the names `api` and `api-web`, that have the key `api-web-x`.
abbrev short : Release
short = release "api" "web-x"

abbrev long : Release
long = release "api-web" "x"

abbrev calls : List Request
calls = drop (release "db" "x") ∷ get (release "db" "x") ∷ []

db_ne : ◌≢◌ {A = String} "db-x" "api-web-x"
db_ne h = cc

spared : Spares makers (get_release_key short) calls
unfolding Spares get_release_key
spared = (db_ne, tt)

get_state_machine-keeps_example :
    get_state_machine makers long
      (serve_all makers (get short ∷ calls) [] 0).0
      (serve_all makers (get short ∷ calls) [] 0).1
    ≡ (
      ok 0,
      (serve_all makers (get short ∷ calls) [] 0).0,
      (serve_all makers (get short ∷ calls) [] 0).1,
    )
unfolding get_state_machine get_release_key consul_release_controlle.Provider.machine_at
get_state_machine-keeps_example =
    get_state_machine-keeps makers short long [] 0 refl calls spared refl
