-- ===== src/Canary/Configure/Validity.antt =====
-- What `Configure` of the canary strategy guarantees to `Execute`.
use consul_release_controlle.Prelude.{
  ◌≡◌, refl, ◌∙◌, ap, ℕ, ℤ, pos, leb_ℤ, leb_ℤ-true, ◌≤ℤ◌, inl, String, Option, none, some, Bool,
  true, false, ◌&&◌, arith,
}
use consul_release_controlle.Storage.Kv.{Result, ok, err}
use consul_release_controlle.Validation.{all_hold, validate, validate-none}
use consul_release_controlle.Canary.{PluginConfig, Plugin, Deps}
use consul_release_controlle.Canary.Bounds.{IsValid, InRange, Returns}
use consul_release_controlle.Canary.Rollout.{IsHealthy, IsComplete, roll_out, roll_out-IsComplete}
use consul_release_controlle.Canary.Configure.{
  Sources, is_some, with_delay, is_between, is_set, validate_duration, fields, state_of,
  state_loaded, validated, unmarshalled, configure,
}

and-true : (a b : Bool) → (a && b) ≡ true → (a ≡ true) × (b ≡ true)
and-true true b h = (refl, h)
and-true false b h = absurd (cc)

between_true : (low high t : ℤ) → is_between low high t ≡ true → (low ≤ℤ t) × (t ≤ℤ high)
unfolding is_between
between_true low high t h = let (l, u) = and-true _ _ h in (leb_ℤ-true low t l, leb_ℤ-true t high u)

positive : (t : ℤ) → (is_set t && leb_ℤ (pos 0) t) ≡ true → pos 1 ≤ℤ t
unfolding is_set
positive t h = ground arith

parsed : (o : Option ℕ) → is_some o ≡ true → (d : ℕ) × (o ≡ some d)
parsed none h = absurd (cc)
parsed (some d) h = (d, refl)

module _ {W : Type 0} (deps : Deps W) (sources : Sources W) where
  -- The configuration is valid, and its durations are well formed.
  pub record IsChecked (c : PluginConfig) : Type 0 where
    pub valid : IsValid c
    pub delay : ℕ
    pub delay_parses : deps.parse_duration c.initial_delay ≡ some delay
    pub interval : ℕ
    pub interval_parses : deps.parse_duration c.interval ≡ some interval

  fields-IsChecked : (c : PluginConfig) → all_hold (fields deps sources c) ≡ true → IsChecked c
  unfolding fields all_hold validate_duration
  fields-IsChecked c h =
      let (a, b) = and-true (is_some (deps.parse_duration c.initial_delay)) _ h in
      let (a', b') = and-true (is_some (deps.parse_duration c.interval)) _ b in
      let (i, b'') = and-true (is_between (pos 0) (pos 100) c.initial_traffic) _ b' in
      let (t, b3) =
        and-true (is_between (pos 1) (pos 100) c.traffic_step && is_set c.traffic_step) _ b'' in
      let (m, b4) =
        and-true (is_between (pos 1) (pos 100) c.max_traffic && is_set c.max_traffic) _ b3 in
      let (e, b5) = and-true (is_set c.error_threshold && leb_ℤ (pos 0) c.error_threshold) _ b4 in
      let (delay, p) = parsed _ a in
      let (interval, q) = parsed _ a' in
      let (i0, i1) = between_true (pos 0) (pos 100) c.initial_traffic i in
      let (t0, t1) = between_true (pos 1) (pos 100) c.traffic_step (and-true _ _ t).0 in
      let (m0, m1) = between_true (pos 1) (pos 100) c.max_traffic (and-true _ _ m).0 in
      record {
        valid = record {
          initial_low = i0;
          initial_high = i1;
          step_low = t0;
          step_high = t1;
          max_low = m0;
          max_high = m1;
          threshold_low = positive c.error_threshold e;
        };
        delay = delay;
        delay_parses = p;
        interval = interval;
        interval_parses = q;
      }

  -- The plugin after a `Configure` without an error.
  pub record IsConfigured (p : Plugin) (loaded : Option String) : Type 0 where
    pub checked : IsChecked p.config
    pub state_is : p.state ≡ state_of deps sources loaded

  validated-IsConfigured :
      (c : PluginConfig) (e : Option String) (w w' : W) (p : Plugin)
      → validate (fields deps sources c) ≡ e
      → validated deps sources c e w ≡ (ok p, w')
      → IsConfigured p (sources.get_state w).0
  unfolding validated state_loaded
  validated-IsConfigured c (some t) w w' p v h = absurd (cc)
  validated-IsConfigured c none w w' p v h =
      let made : record { config = c; state = state_of deps sources (sources.get_state w).0 } ≡ p =
        cc in
      rw (← made) (record {
        checked = fields-IsChecked c (validate-none (fields deps sources c) v);
        state_is = refl;
      })

  unmarshalled-IsConfigured :
      (c : Result PluginConfig) (w w' : W) (p : Plugin)
      → unmarshalled deps sources c w ≡ (ok p, w')
      → IsConfigured p (sources.get_state w).0
  unfolding unmarshalled
  unmarshalled-IsConfigured (err e) w w' p h = absurd (cc)
  unmarshalled-IsConfigured (ok c) w w' p h = validated-IsConfigured (with_delay c) _ w w' p refl h

  -- After a `Configure` without an error the configuration is valid and its durations are well formed;
  -- the state is the stored one if there is one that can be read, and otherwise no traffic and
  -- success.
  pub configure-IsConfigured :
      (d : String) (w : W) {p : Plugin} {w' : W}
      → configure deps sources d w ≡ (ok p, w')
      → IsConfigured p (sources.get_state w).0
  unfolding configure
  configure-IsConfigured d w {p} {w'} h =
      unmarshalled-IsConfigured (sources.unmarshal_config d) w w' p h

  fresh_range :
      (p : Plugin) → p.state ≡ state_of deps sources none → InRange p.state.candidate_traffic
  unfolding state_of
  fresh_range p h = rw h (inl refl)

  -- A release without a stored state whose strategy was configured without an error completes: while the
  -- checks pass, repeated runs of the strategy end within 102 runs with all of the traffic, whatever
  -- the configuration is.
  pub configure-IsComplete :
      (d name : String) (w : W) {p : Plugin} {w' : W}
      → configure deps sources d w ≡ (ok p, w')
      → (sources.get_state w).0 ≡ none
      → ((interval : ℕ) (v : W) → (deps.check name interval v).1 ≡ none)
      → Returns (IsComplete deps name) (roll_out deps name 102 p w')
  configure-IsComplete d name w {p} {w'} h fresh passes =
      let c = configure-IsConfigured d w h in
      let k = c.checked in
      let healthy : IsHealthy deps name p.config = record {
        delay = k.delay;
        delay_parses = k.delay_parses;
        interval = k.interval;
        interval_parses = k.interval_parses;
        passes = passes;
      } in
      roll_out-IsComplete deps name p w' k.valid healthy
        (fresh_range p (c.state_is ∙ ap (state_of deps sources) fresh))
