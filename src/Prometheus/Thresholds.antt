-- ===== src/Prometheus/Thresholds.antt =====
-- When the check of a release's metrics succeeds.
use mathlib.Core.Option.{some-injective, none-ne-some}
use mathlib.Core.Path.{subst}
use consul_release_controlle.Prelude.{
  ◌≡◌, ◌≢◌, ◌↔◌, refl, sym, ap, ℤ, String, Option, none, some, List, [], ◌∷◌,
}
use consul_release_controlle.Interfaces.{CheckResult}
use consul_release_controlle.Prometheus.{
  Query, Plugin, Context, Fault, Outside, Outcome, returns, continues, Resolved, unresolved,
  resolved, query_text, add_text, resolve, run_query, went_on, run_queries, run_resolved, context,
  check,
}
use consul_release_controlle.Prometheus.Answers.{IsGood, run_query-IsGood, IsGood-run_query}

module _ {S W : Type 0} (o : Outside S W) where
  abbrev texts_of : Resolved → List String
  texts_of (unresolved e) = []
  texts_of (resolved ts) = ts

  succeeds : W → Option (CheckResult × Option Fault × W)
  succeeds w = some (CheckResult.check_success, none, w)

  fault≢none :
      (r : CheckResult) (e : Fault) (w w' : W)
      → ◌≢◌ {A = Option (CheckResult × Option Fault × W)} (some (r, some e, w)) (succeeds w')
  unfolding succeeds
  fault≢none r e w w' h = none-ne-some e (sym (ap (λ x. x.1) (some-injective _ _ h)))

  -- Every query's text, in order.
  data Texts (runtime : String) : List Query → List String → Type 0 where
    no_texts : Texts runtime [] []
    one_more :
        {q : Query} {qs : List Query} {t : String} {ts : List String}
        → query_text runtime q ≡ some t
        → Texts runtime qs ts
        → Texts runtime (q ∷ qs) (t ∷ ts)

  add_text-resolved :
      (runtime : String) (q : Query) (x : Option String) (rest : Resolved) (ts : List String)
      → add_text runtime q x rest ≡ resolved ts
      → (t : String) × (ts' : List String) × ((x ≡ some t)
          × ((rest ≡ resolved ts') × (ts ≡ t ∷ ts')))
  unfolding add_text
  add_text-resolved runtime q none rest ts h = absurd cc
  add_text-resolved runtime q (some t) (unresolved e) ts h = absurd cc
  add_text-resolved runtime q (some t) (resolved ts') ts h = (t, ts', (refl, (refl, sym (cc))))

  resolve-Texts :
      (runtime : String) (qs : List Query) (ts : List String)
      → resolve runtime qs ≡ resolved ts
      → Texts runtime qs ts
  unfolding resolve
  resolve-Texts runtime [] ts h = subst (Texts runtime []) (ap texts_of h) no_texts
  resolve-Texts runtime (q ∷ qs) ts h =
      let (t, ts', (found, (rest, same))) =
        add_text-resolved runtime q (query_text runtime q) (resolve runtime qs) ts h in
      rw same (one_more found (resolve-Texts runtime qs ts' rest))

  Texts-resolve :
      (runtime : String) (qs : List Query) (ts : List String)
      → Texts runtime qs ts
      → resolve runtime qs ≡ resolved ts
  unfolding resolve add_text
  Texts-resolve runtime [] [] no_texts = refl
  Texts-resolve runtime [] (t ∷ ts) x = elim x [ ]
  Texts-resolve runtime (q ∷ qs) [] x = elim x [ ]
  Texts-resolve runtime (q ∷ qs) (t ∷ ts) (one_more found rest) =
      rw (found, Texts-resolve runtime qs ts rest) refl

  -- The queries are answered one after another, each with a value within its bounds.
  pub data Passes (p : Plugin) (c : Context) : List Query → W → W → Type 0 where
    all_passed : {w : W} → Passes p c [] w w
    passes :
        {q : Query} {qs : List Query} {w w1 w2 : W} (t : String)
        → query_text p.runtime q ≡ some t
        → IsGood o p.config.address q t c w w1
        → Passes p c qs w1 w2
        → Passes p c (q ∷ qs) w w2

  went_on-succeeds :
      (next : W → Option (CheckResult × Option Fault × W)) (x : Outcome W) (w' : W)
      → went_on next x ≡ succeeds w'
      → (w1 : W) × ((x ≡ continues w1) × (next w1 ≡ succeeds w'))
  unfolding went_on succeeds
  went_on-succeeds next (returns r e w) w' h = absurd (fault≢none _ _ _ _ h)
  went_on-succeeds next (continues w) w' h = (w, (refl, h))

  run_queries-Passes :
      (p : Plugin) (c : Context) (qs : List Query) (ts : List String) (w w' : W)
      → Texts p.runtime qs ts
      → run_queries o p.config.address c qs ts w ≡ succeeds w'
      → Passes p c qs w w'
  unfolding run_queries succeeds
  run_queries-Passes p c [] [] w w' no_texts h =
      subst (λ v. Passes p c [] w v) (ap (λ x. x.2) (some-injective _ _ h)) all_passed
  run_queries-Passes p c [] (t ∷ ts) w w' x h = elim x [ ]
  run_queries-Passes p c (q ∷ qs) [] w w' x h = elim x [ ]
  run_queries-Passes p c (q ∷ qs) (t ∷ ts) w w' (one_more found rest) h =
      let (w1, (goes_on, h')) =
        went_on-succeeds (λ v. run_queries o p.config.address c qs ts v)
          (run_query o p.config.address q t c w) w' h in
      passes t found (run_query-IsGood o p.config.address q t c w w1 goes_on)
        (run_queries-Passes p c qs ts w1 w' rest h')

  Passes-run_queries :
      (p : Plugin) (c : Context) (qs : List Query) (w w' : W)
      → Passes p c qs w w'
      → (ts : List String) × (Texts p.runtime qs ts
          × (run_queries o p.config.address c qs ts w ≡ succeeds w'))
  unfolding run_queries went_on succeeds
  Passes-run_queries p c [] w _ all_passed = ([], (no_texts, refl))
  Passes-run_queries p c (q ∷ qs) w w' (passes {w1 = w1} t found good rest) =
      let (ts, (texts, h)) = Passes-run_queries p c qs w1 w' rest in
      (t ∷ ts, (one_more found texts, rw (IsGood-run_query o p.config.address q t c w w1 good) h))

  run_resolved-Passes :
      (p : Plugin) (c : Context) (x : Resolved) (w w' : W)
      → resolve p.runtime p.config.queries ≡ x
      → run_resolved o p c x w ≡ succeeds w'
      → Passes p c p.config.queries w w'
  unfolding run_resolved succeeds
  run_resolved-Passes p c (unresolved e) w w' q h = absurd (fault≢none _ _ _ _ h)
  run_resolved-Passes p c (resolved ts) w w' q h =
      run_queries-Passes p c p.config.queries ts w w'
        (resolve-Texts p.runtime p.config.queries ts q) h

  -- A check succeeds, and leaves a state behind, exactly if the presets of all queries exist and the
  -- queries are sent one after another up to that state, each rendered from a text that is not empty
  -- and answered with a vector whose first value is within the query's bounds.
  pub check-Passes :
      (p : Plugin) (candidate : String) (interval : ℤ) (w w' : W)
      → (check o p candidate interval w ≡ some (CheckResult.check_success, none, w'))
        ↔ Passes p (context o p candidate interval) p.config.queries w w'
  unfolding check run_resolved succeeds
  check-Passes p candidate interval w w' =
      let c = context o p candidate interval in
      (
        λ h. run_resolved-Passes p c (resolve p.runtime p.config.queries) w w' refl h,
        λ passed.
            let (ts, (texts, h)) = Passes-run_queries p c p.config.queries w w' passed in
            rw (Texts-resolve p.runtime p.config.queries ts texts) h,
      )
