-- ===== src/Examples/Deployments.antt =====
-- A platform that holds one deployment for each name, or none.
use consul_release_controlle.Prelude.{
  ◌≡◌, ◌≢◌, refl, pos, String, Option, none, some, Bool, true, false, if◌then◌else◌, str_eq, eq_iff,
  Bool-cases, inl, inr, List, [], ◌∷◌,
}
use consul_release_controlle.Runtime.Platform.{
  deployment_not_found, Called, replied, fails, Deployment, Client, View, Frames,
}
use consul_release_controlle.Runtime.{Plugin, init_primary, promote_candidate}
use consul_release_controlle.Runtime.Lifetime.{
  Operation, initialise, promote, remove, restore, retire, target, perform, perform_all, Avoids,
  perform_all-untouched,
}

-- What runs under a name: its number of instances, zero for a deployment that was scaled down.
abbrev pub Names : Type 0
Names = String → Bool

abbrev deployment : String → String → Deployment
deployment n s = record {
  name = n;
  namespace = s;
  resource_version = "7";
  meta = some [];
  instances = pos 2;
}

abbrev look : Bool → String → String → Called (Option Deployment)
look true n s = replied (some (deployment n s))
look false n s = fails deployment_not_found

abbrev seen : Bool → String → String → Option Deployment
seen true n s = some (deployment n s)
seen false n s = none

abbrev pub assign : Bool → String → Names → Names
assign b n w = λ m. if str_eq m n then b else w m

abbrev platform : Client Names
platform = record {
  get_deployment = λ n s w. (look (w n) n s, w);
  get_deployment_with_selector = λ n s w. (replied (seen (w "api-v2") "api-v2" s), w);
  update_deployment = λ d w. (replied tt, assign true d.name w);
  clone_deployment = λ c d w. (replied tt, assign true d.name w);
  delete_deployment = λ n s w. (none, assign false n w);
  get_healthy_deployment = λ n s w. (look (w n) n s, w);
  upsert_state = λ c p w. w;
}

abbrev pub view : View Names
view w n s = seen (w n) n s

named : (b : Bool) (n s : String) {d : Deployment} → look b n s ≡ replied (some d) → d.name ≡ n
named true n s h = cc
named false n s h = cc

pub apart : (b : Bool) (n a s : String) (w : Names) → n ≢ a → view (assign b n w) a s ≡ view w a s
apart b n a s w h = elim (Bool-cases (str_eq a n)) [
  | inl same ↦ absurd (h (cc ((eq_iff a n).0 same)))
  | inr other ↦ rw other refl
]

platform-Frames : (a b : String) → Frames platform view a b
platform-Frames a b = record {
  get_named = λ n s w. named (w n) n s;
  get_reads = λ n s w. refl;
  select_reads = λ n s w. refl;
  healthy_reads = λ n s w. refl;
  state_apart = λ n s w. refl;
  update_apart = λ d w. apart true d.name a b w;
  clone_apart = λ c d w. apart true d.name a b w;
  delete_apart = λ n s w. apart false n a b w;
}

abbrev pub plugin : Plugin
plugin = record {
  deployment_selector = "api-(.*)";
  namespace = "default";
  candidate_name = "api-v2";
  primary_name = "api-primary";
}

-- Everything runs.
abbrev pub all_up : Names
all_up n = true

pub primary_ne : ◌≢◌ {A = String} "api-primary" "db"
primary_ne h = cc

pub candidate_ne : ◌≢◌ {A = String} "api-v2" "db"
candidate_ne h = cc

-- The platform of a client that answers nil, without an error, for a deployment that is not healthy.
abbrev unhealthy : Client Names
unhealthy = record platform { get_healthy_deployment = λ n s w. (replied none, w) }

-- The primary that was running is gone.
primary_lost : view (promote_candidate unhealthy plugin all_up).2 "api-primary" "default" ≡ none
unfolding promote_candidate
primary_lost = refl

-- A roll out, a roll back and the end of the release.
abbrev pub calls : List Operation
calls = initialise "api" ∷ promote ∷ remove ∷ restore ∷ retire ∷ []

avoids : Avoids platform "db" calls plugin all_up
unfolding Avoids target perform init_primary promote_candidate
avoids = (primary_ne, (primary_ne, (candidate_ne, (candidate_ne, (primary_ne, tt)))))

perform_all-untouched_example :
    view (perform_all platform calls plugin all_up) "db" "default"
    ≡ some (deployment "db" "default")
perform_all-untouched_example =
    perform_all-untouched platform view "db" "default" (platform-Frames "db" "default") calls plugin
      all_up avoids
