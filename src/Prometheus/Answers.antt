-- ===== src/Prometheus/Answers.antt =====
-- When one query of the check is passed.
use mathlib.Core.Bool.{true≢false}
use mathlib.Core.Option.{some-injective}
use consul_release_controlle.Prelude.{
  ◌≡◌, ◌≢◌, refl, sym, ◌∙◌, inl, inr, ℤ, ◌≤ℤ◌, String, Option, none, some, List, [], ◌∷◌, Bool,
  true, false, ◌||◌, if◌then◌else◌, str_eq, eq_iff, Bool-cases, arith,
}
use consul_release_controlle.Interfaces.{CheckResult}
use consul_release_controlle.Prometheus.{
  Query, Context, Fault, query_is_empty, got_value, Executed, not_executed, text, Value, vector,
  other_type, Answer, no_answer, answer, Outside, Outcome, returns, continues, is_below, is_above,
  judged, answered, executed, parsed, run_query,
}

-- The value is not below the least value that is set, nor above the greatest.
pub record IsWithin (q : Query) (v : ℤ) : Type 0 where
  pub above_min : (m : ℤ) → q.min ≡ some m → m ≤ℤ v
  pub below_max : (m : ℤ) → q.max ≡ some m → v ≤ℤ m

is_below-false : (v : ℤ) (b : Option ℤ) → is_below v b ≡ false → (m : ℤ) → b ≡ some m → m ≤ℤ v
unfolding is_below
is_below-false v none h m q = cc
is_below-false v (some n) h m q = rw (sym (some-injective n m q)) ground arith

is_above-false : (v : ℤ) (b : Option ℤ) → is_above v b ≡ false → (m : ℤ) → b ≡ some m → v ≤ℤ m
unfolding is_above
is_above-false v none h m q = cc
is_above-false v (some n) h m q = rw (sym (some-injective n m q)) ground arith

false-is_below : (v : ℤ) (b : Option ℤ) → ((m : ℤ) → b ≡ some m → m ≤ℤ v) → is_below v b ≡ false
unfolding is_below
false-is_below v none h = refl
false-is_below v (some n) h = let low = h n refl in ground arith

false-is_above : (v : ℤ) (b : Option ℤ) → ((m : ℤ) → b ≡ some m → v ≤ℤ m) → is_above v b ≡ false
unfolding is_above
false-is_above v none h = refl
false-is_above v (some n) h = let high = h n refl in ground arith

||-false : (a b : Bool) → (a || b) ≡ false → (a ≡ false) × (b ≡ false)
||-false true b h = cc
||-false false b h = (refl, h)

if-continues :
    {W : Type 0} (b : Bool) (r : CheckResult) (e : Fault) (w w' : W)
    → (if b then returns r e w else continues w) ≡ continues w'
    → (b ≡ false) × (w ≡ w')
if-continues true r e w w' h = absurd cc
if-continues false r e w w' h = (refl, cc)

module _ {S W : Type 0} (o : Outside S W) where
  -- One query's answer: a vector with a first sample whose value is within the bounds.
  pub record IsGood (address : String) (q : Query) (t : String) (c : Context) (w w' : W)
      : Type 0 where
    pub out : String
    pub sample : S
    pub samples : List S
    pub not_empty : t ≢ ""
    pub parses : o.parse t ≡ none
    pub executes : o.execute t c ≡ text out
    pub answers : o.query address out w ≡ (answer (vector (sample ∷ samples)), w')
    pub within : IsWithin q (o.to_int sample)

  judged-IsWithin :
      (q : Query) (v : Value S) (w w' : W)
      → judged o q v w ≡ continues w'
      → (s : S) × (ss : List S) × ((v ≡ vector (s ∷ ss)) × ((w ≡ w') × IsWithin q (o.to_int s)))
  unfolding judged
  judged-IsWithin q (vector []) w w' h = absurd cc
  judged-IsWithin q (vector (s ∷ ss)) w w' h =
      let (in_bounds, same) =
        if-continues (is_below (o.to_int s) q.min || is_above (o.to_int s) q.max)
          CheckResult.check_failed (got_value q.name q.preset (o.to_int s)) w w' h in
      let (low, high) = ||-false _ _ in_bounds in
      (
        s,
        ss,
        (
          refl,
          (
            same,
            record {
              above_min = is_below-false (o.to_int s) q.min low;
              below_max = is_above-false (o.to_int s) q.max high;
            },
          ),
        ),
      )
  judged-IsWithin q other_type w w' h = absurd cc

  IsWithin-judged :
      (q : Query) (s : S) (ss : List S) (w : W)
      → IsWithin q (o.to_int s)
      → judged o q (vector (s ∷ ss)) w ≡ continues w
  unfolding judged
  IsWithin-judged q s ss w h =
      rw
        (
          false-is_below (o.to_int s) q.min h.above_min,
          false-is_above (o.to_int s) q.max h.below_max,
        )
        refl

  -- What a chain of steps that goes on says of each of them.
  answered-continues :
      (q : Query) (x : Answer S × W) (w' : W)
      → answered o q x ≡ continues w'
      → (s : S) × (ss : List S) × ((x ≡ (answer (vector (s ∷ ss)), w')) × IsWithin q (o.to_int s))
  unfolding answered
  answered-continues q (no_answer e, w) w' h = absurd cc
  answered-continues q (answer v, w) w' h =
      let (s, ss, (is_vector, (same, within))) = judged-IsWithin q v w w' h in
      (s, ss, (rw (is_vector, same) refl, within))

  executed-continues :
      (address : String) (q : Query) (x : Executed) (w w' : W)
      → executed o address q x w ≡ continues w'
      → (out : String) × ((x ≡ text out) × (answered o q (o.query address out w) ≡ continues w'))
  unfolding executed
  executed-continues address q (not_executed e) w w' h = absurd cc
  executed-continues address q (text out) w w' h = (out, (refl, h))

  parsed-continues :
      (address : String) (q : Query) (t : String) (c : Context) (x : Option String) (w w' : W)
      → parsed o address q t c x w ≡ continues w'
      → (x ≡ none) × (executed o address q (o.execute t c) w ≡ continues w')
  unfolding parsed
  parsed-continues address q t c (some e) w w' h = absurd cc
  parsed-continues address q t c none w w' h = (refl, h)

  nonempty-continues :
      (b : Bool) (r : CheckResult) (e : Fault) (w w' : W) (x : Outcome W)
      → (if b then returns r e w else x) ≡ continues w'
      → (b ≡ false) × (x ≡ continues w')
  nonempty-continues true r e w w' x h = absurd cc
  nonempty-continues false r e w w' x h = (refl, h)

  pub run_query-IsGood :
      (address : String) (q : Query) (t : String) (c : Context) (w w' : W)
      → run_query o address q t c w ≡ continues w'
      → IsGood address q t c w w'
  unfolding run_query
  run_query-IsGood address q t c w w' h =
      let (filled, h1) =
        nonempty-continues (str_eq t "") CheckResult.check_error (query_is_empty q.name) w w'
          (parsed o address q t c (o.parse t) w) h in
      let (no_error, h2) = parsed-continues address q t c (o.parse t) w w' h1 in
      let (out, (rendered, h3)) = executed-continues address q (o.execute t c) w w' h2 in
      let (s, ss, (is_vector, good)) = answered-continues q (o.query address out w) w' h3 in
      record {
        out = out;
        sample = s;
        samples = ss;
        not_empty = λ e. true≢false (sym ((eq_iff t "").1 e) ∙ filled);
        parses = no_error;
        executes = rendered;
        answers = is_vector;
        within = good;
      }

  pub IsGood-run_query :
      (address : String) (q : Query) (t : String) (c : Context) (w w' : W)
      → IsGood address q t c w w'
      → run_query o address q t c w ≡ continues w'
  unfolding run_query parsed executed answered
  IsGood-run_query address q t c w w' g = elim (Bool-cases (str_eq t "")) [
    | inl empty ↦ absurd (g.not_empty ((eq_iff t "").0 empty))
    | inr filled ↦
        rw (filled, g.parses, g.executes, g.answers)
          (IsWithin-judged q g.sample g.samples w' g.within)
  ]
