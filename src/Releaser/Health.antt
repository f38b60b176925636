-- ===== src/Releaser/Health.antt =====
-- CheckHealth of pkg/clients/consul.go, and WaitUntilServiceHealthy of pkg/plugins/consul/releaser.go.
use Prim.Native.String.{◌++◌ as append}
use consul_release_controlle.Prelude.{
  ◌≡◌, refl, ℕ, zero, suc, String, Option, none, some, List, [], ◌∷◌, Bool, true, false,
  if◌then◌else◌, str_eq, eq_iff, ◌⊎◌, inl, inr,
}
use consul_release_controlle.Storage.Kv.{Result, ok, err, ConsulOptions}

-- api.ServiceEntry: the id of the service, and `AggregatedStatus` of its checks.
pub record ServiceEntry : Type 0 where
  pub id : String
  pub aggregated_status : String

-- `Health().Service` and `Health().Connect` with a filter, over a state `W`, and the interval of the
-- retries.
pub record HealthApi (W : Type 0) : Type 0 where
  pub service : ConsulOptions → String → String → W → Result (List ServiceEntry) × W
  pub connect : ConsulOptions → String → String → W → Result (List ServiceEntry) × W
  pub sleep : W → W

unfoldable pub first_failing : String → List ServiceEntry → Option String
first_failing kind [] = none
first_failing kind (s ∷ ss) =
    let rest = first_failing kind ss in
    if str_eq s.aggregated_status "passing"
    then rest
    else some (
        append kind
          (append " health checks failing: " (append s.id (append ", " s.aggregated_status))))

-- The errors of one of the two reads.
unfoldable pub check_entries : String → String → String → Result (List ServiceEntry) → Option String
check_entries kind name filter (err e) =
    some (append "unable to check health for service " (append name (append ": " e)))
check_entries kind name filter (ok []) = some (
    append "no service checks returned for service " (append name (append ", with filter " filter)))
check_entries kind name filter (ok (s ∷ ss)) = first_failing kind (s ∷ ss)

-- Every entry passes, and there is one.
pub data ArePassing : List ServiceEntry → Type 0 where
  one : {s : ServiceEntry} → s.aggregated_status ≡ "passing" → ArePassing (s ∷ [])
  more :
      {s t : ServiceEntry} {ss : List ServiceEntry}
      → s.aggregated_status ≡ "passing"
      → ArePassing (t ∷ ss)
      → ArePassing (s ∷ t ∷ ss)

first_failing-cons :
    (kind : String) (s : ServiceEntry) (ss : List ServiceEntry)
    → first_failing kind (s ∷ ss) ≡ none
    → (s.aggregated_status ≡ "passing") × (first_failing kind ss ≡ none)
unfolding first_failing
first_failing-cons kind s ss h = by_status _ (str_eq s.aggregated_status "passing") refl h
  where
    by_status :
        (e : String) (b : Bool)
        → str_eq s.aggregated_status "passing" ≡ b
        → (if b then first_failing kind ss else some e) ≡ none
        → (s.aggregated_status ≡ "passing") × (first_failing kind ss ≡ none)
    by_status e true q h = ((eq_iff s.aggregated_status "passing").0 q, h)
    by_status e false q h = cc

first_failing-ArePassing :
    (kind : String) (s : ServiceEntry) (ss : List ServiceEntry)
    → first_failing kind (s ∷ ss) ≡ none
    → ArePassing (s ∷ ss)
first_failing-ArePassing kind s [] h = one (first_failing-cons kind s [] h).0
first_failing-ArePassing kind s (t ∷ ss) h =
    let (passes, rest) = first_failing-cons kind s (t ∷ ss) h in
    more passes (first_failing-ArePassing kind t ss rest)

check_entries-ArePassing :
    (kind name filter : String) (r : Result (List ServiceEntry))
    → check_entries kind name filter r ≡ none
    → (ss : List ServiceEntry) × ((r ≡ ok ss) × ArePassing ss)
unfolding check_entries
check_entries-ArePassing kind name filter (err e) h = absurd (cc)
check_entries-ArePassing kind name filter (ok []) h = absurd (cc)
check_entries-ArePassing kind name filter (ok (s ∷ ss)) h =
    (s ∷ ss, (refl, first_failing-ArePassing kind s ss h))

module _ {W : Type 0} (api : HealthApi W) (o : ConsulOptions) where
  unfoldable pub check_connect : String → String → Option String → W → Option String × W
  check_connect name filter (some e) w = (some e, w)
  check_connect name filter none w =
      let (found, w') = api.connect o name filter w in
      (check_entries "connect" name filter found, w')

  unfoldable pub check_health : String → String → W → Option String × W
  check_health name filter w =
      let (found, w') = api.service o name filter w in
      check_connect name filter (check_entries "service" name filter found) w'

  unfoldable pub retried : Option String × W → (W → Option String × W) → Option String × W
  retried (none, w) again = (none, w)
  retried (some e, w) again = again (api.sleep w)

  unfoldable pub timed_out : Option String × W → Option String × W
  timed_out (none, w) = (none, w)
  timed_out (some e, w) = (some "context deadline exceeded", w)

  -- `retry.Constant`: `n` attempts after the first, then the timeout.
  unfoldable pub wait_until_service_healthy : ℕ → String → String → W → Option String × W
  wait_until_service_healthy zero name filter w = timed_out (check_health name filter w)
  wait_until_service_healthy (suc n) name filter w =
      retried (check_health name filter w) (λ w'. wait_until_service_healthy n name filter w')

  -- The wait that starts in `w`, with `n` attempts after the first, comes to an attempt that starts in
  -- `v`: each attempt before it failed, and was followed by a sleep.
  pub data ComesTo (name filter : String) : ℕ → W → W → Type 0 where
    this_attempt : {n : ℕ} {w : W} → ComesTo name filter n w w
    next_attempt :
        {n : ℕ} {w v : W} {e : String}
        → (check_health name filter w).0 ≡ some e
        → ComesTo name filter n (api.sleep (check_health name filter w).1) v
        → ComesTo name filter (suc n) w v

  -- The wait ends with an attempt, `at`, in which the instances of the service that the filter selects
  -- were read, and right after that their sidecar proxies: there were some of either, and all of them
  -- passed.
  pub record WasHealthy (attempts : ℕ) (name filter : String) (w : W) : Type 0 where
    pub at : W
    pub attempt : ComesTo name filter attempts w at
    pub is_last :
        (wait_until_service_healthy attempts name filter w).1 ≡ (check_health name filter at).1
    pub instances : List ServiceEntry
    pub proxies : List ServiceEntry
    pub instances_read : (api.service o name filter at).0 ≡ ok instances
    pub proxies_read : (api.connect o name filter (api.service o name filter at).1).0 ≡ ok proxies
    pub instances_pass : ArePassing instances
    pub proxies_pass : ArePassing proxies

  check_connect-none :
      (name filter : String) (x : Option String) (w : W)
      → (check_connect name filter x w).0 ≡ none
      → (x ≡ none) × (check_entries "connect" name filter (api.connect o name filter w).0 ≡ none)
  unfolding check_connect
  check_connect-none name filter (some e) w h = absurd (cc)
  check_connect-none name filter none w h = (refl, h)

  -- What a check without an error has read.
  record Reads (name filter : String) (at : W) : Type 0 where
    instances : List ServiceEntry
    proxies : List ServiceEntry
    instances_read : (api.service o name filter at).0 ≡ ok instances
    proxies_read : (api.connect o name filter (api.service o name filter at).1).0 ≡ ok proxies
    instances_pass : ArePassing instances
    proxies_pass : ArePassing proxies

  check_health-Reads :
      (name filter : String) (w : W) → (check_health name filter w).0 ≡ none → Reads name filter w
  unfolding check_health
  check_health-Reads name filter w h =
      let r = api.service o name filter w in
      let (first, second) =
        check_connect-none name filter (check_entries "service" name filter r.0) r.1 h in
      let (is, (read, pass)) = check_entries-ArePassing "service" name filter r.0 first in
      let (ps, (read', pass')) = check_entries-ArePassing "connect" name filter _ second in
      record {
        instances = is;
        proxies = ps;
        instances_read = read;
        proxies_read = read';
        instances_pass = pass;
        proxies_pass = pass';
      }

  was_healthy :
      {n : ℕ} {name filter : String} {w : W} (at : W)
      → ComesTo name filter n w at
      → (wait_until_service_healthy n name filter w).1 ≡ (check_health name filter at).1
      → Reads name filter at
      → WasHealthy n name filter w
  was_healthy at attempt is_last r = record {
    at = at;
    attempt = attempt;
    is_last = is_last;
    instances = r.instances;
    proxies = r.proxies;
    instances_read = r.instances_read;
    proxies_read = r.proxies_read;
    instances_pass = r.instances_pass;
    proxies_pass = r.proxies_pass;
  }

  timed_out-none :
      (r : Option String × W) → (timed_out r).0 ≡ none → (r.0 ≡ none) × ((timed_out r).1 ≡ r.1)
  unfolding timed_out
  timed_out-none (none, w) h = (refl, refl)
  timed_out-none (some e, w) h = absurd (cc)

  -- Either this attempt succeeds and is the end, or it fails and the others follow.
  retried-none :
      (r : Option String × W) (again : W → Option String × W)
      → (retried r again).0 ≡ none
      → ((r.0 ≡ none) × ((retried r again).1 ≡ r.1))
        ⊎ ((e : String) × ((r.0 ≡ some e) × (retried r again ≡ again (api.sleep r.1))))
  unfolding retried
  retried-none (none, w) again h = inl (refl, refl)
  retried-none (some e, w) again h = inr (e, (refl, refl))

  -- The wait for a healthy service ends without an error only with an attempt of it in which instances
  -- that the filter selects were found, and proxies of it, and all of them passed their checks; every
  -- attempt before that one failed.
  pub wait_until_service_healthy-WasHealthy :
      (attempts : ℕ) (name filter : String) (w : W)
      → (wait_until_service_healthy attempts name filter w).0 ≡ none
      → WasHealthy attempts name filter w
  unfolding wait_until_service_healthy
  wait_until_service_healthy-WasHealthy zero name filter w h =
      let (succeeds, ends) = timed_out-none (check_health name filter w) h in
      was_healthy w this_attempt ends (check_health-Reads name filter w succeeds)
  wait_until_service_healthy-WasHealthy (suc n) name filter w h =
      elim (retried-none (check_health name filter w) (wait_until_service_healthy n name filter)
        h) [
          | inl (succeeds, ends) ↦
              was_healthy w this_attempt ends (check_health-Reads name filter w succeeds)
          | inr (e, (fails, goes_on)) ↦
              let next = api.sleep (check_health name filter w).1 in
              let later =
                wait_until_service_healthy-WasHealthy n name filter next (rw (← goes_on) h) in
              record {
                at = later.at;
                attempt = next_attempt fails later.attempt;
                is_last = rw goes_on later.is_last;
                instances = later.instances;
                proxies = later.proxies;
                instances_read = later.instances_read;
                proxies_read = later.proxies_read;
                instances_pass = later.instances_pass;
                proxies_pass = later.proxies_pass;
              }
        ]
