-- ===== src/Provider/Machines.antt =====
-- Which state machine a release gets from the provider.
use mathlib.Core.Bool.{true≢false}
use mathlib.Core.Option.{none-ne-some}
use consul_release_controlle.Prelude.{
  ◌≡◌, ◌≢◌, refl, sym, ap, ◌∙◌, String, Option, none, some, List, [], ◌∷◌, Bool-cases, inl, inr,
  str_eq, eq_iff, true, false,
}
use consul_release_controlle.Release.{Release}
use consul_release_controlle.Storage.Kv.{Result, ok, err}
use consul_release_controlle.Provider.{
  Makers, Machines, get_release_key, machine_at, without_machine, delete_state_machine,
  machine_made, machine_or_new, get_state_machine,
}

-- A call of the provider about the state machine of a release.
pub data Request : Type 0 where
  get : Release → Request
  delete : Release → Request

unfoldable pub release_of : Request → Release
release_of (get r) = r
release_of (delete r) = r

str_eq_refl : (k : String) → str_eq k k ≡ true
str_eq_refl k = (eq_iff k k).1 refl

str_eq_ne : (j k : String) → j ≢ k → str_eq j k ≡ false
str_eq_ne j k h = elim (Bool-cases (str_eq j k)) [
  | inl same ↦ absurd (h ((eq_iff j k).0 same))
  | inr differ ↦ differ
]

module _ {M : Type 0} where
  machine_at_skip :
      (i k : String) (m : M) (ms ns : Machines M)
      → machine_at k ms ≡ machine_at k ns
      → machine_at k ((i, m) ∷ ms) ≡ machine_at k ((i, m) ∷ ns)
  unfolding machine_at
  machine_at_skip i k m ms ns h = rw h refl

  machine_at-without_ne :
      (j k : String) (ms : Machines M)
      → j ≢ k
      → machine_at k (without_machine j ms) ≡ machine_at k ms
  unfolding machine_at without_machine
  machine_at-without_ne j k [] h = refl
  machine_at-without_ne j k ((i, m) ∷ ms) h = elim (Bool-cases (str_eq i j)) [
    | inl same ↦
        rw (same, str_eq_ne i k (λ q. h (sym ((eq_iff i j).0 same) ∙ q)))
          (machine_at-without_ne j k ms h)
    | inr differ ↦
        rw differ (machine_at_skip i k m (without_machine j ms) ms (machine_at-without_ne j k ms h))
  ]

  machine_at-without : (k : String) (ms : Machines M) → machine_at k (without_machine k ms) ≡ none
  unfolding machine_at without_machine
  machine_at-without k [] = refl
  machine_at-without k ((i, m) ∷ ms) = elim (Bool-cases (str_eq i k)) [
    | inl same ↦ rw same (machine_at-without k ms)
    | inr differ ↦ rw (differ, machine_at, differ) (machine_at-without k ms)
  ]

module _ {C M W : Type 0} (o : Makers C M W) where
  unfoldable pub serve : Request → Machines M → W → Machines M × W
  serve (get r) ms w = let (answer, ms', w') = get_state_machine o r ms w in (ms', w')
  serve (delete r) ms w = (delete_state_machine r ms, w)

  unfoldable pub serve_all : List Request → Machines M → W → Machines M × W
  serve_all [] ms w = (ms, w)
  serve_all (q ∷ qs) ms w = let (ms', w') = serve q ms w in serve_all qs ms' w'

  -- None of the calls deletes the machine of the key.
  unfoldable pub Spares : String → List Request → Type 0
  Spares k [] = Unit
  Spares k (get r ∷ qs) = Spares k qs
  Spares k (delete r ∷ qs) = (get_release_key r ≢ k) × Spares k qs

  made-keeps :
      (r : Release) (ms : Machines M) (made : Result M × W) (k : String) (m : M)
      → machine_at (get_release_key r) ms ≡ none
      → machine_at k ms ≡ some m
      → machine_at k (machine_made o r ms made).1 ≡ some m
  unfolding machine_made machine_at
  made-keeps r ms (err e, w) k m fresh h = h
  made-keeps r ms (ok x, w) k m fresh h = elim (Bool-cases (str_eq (get_release_key r) k)) [
    | inl same ↦
        absurd (none-ne-some m (sym fresh ∙ ap (λ j. machine_at j ms) ((eq_iff _ k).0 same) ∙ h))
    | inr differ ↦ rw differ (
        machine_at-without_ne (get_release_key r) k ms
          (λ q. true≢false (sym ((eq_iff _ k).1 q) ∙ differ))
        ∙ h)
  ]

  get-keeps :
      (r : Release) (ms : Machines M) (w : W) (found : Option M) (k : String) (m : M)
      → machine_at (get_release_key r) ms ≡ found
      → machine_at k ms ≡ some m
      → machine_at k (machine_or_new o found r ms w).1 ≡ some m
  unfolding machine_or_new
  get-keeps r ms w (some x) k m seen h = h
  get-keeps r ms w none k m seen h = made-keeps r ms (o.new_machine r w) k m seen h

  serve_all-keeps :
      (qs : List Request) (ms : Machines M) (w : W) (k : String) (m : M)
      → Spares k qs
      → machine_at k ms ≡ some m
      → machine_at k (serve_all qs ms w).0 ≡ some m
  unfolding serve_all serve Spares get_state_machine delete_state_machine
  serve_all-keeps [] ms w k m spared h = h
  serve_all-keeps (get r ∷ qs) ms w k m spared h =
      let (answer, ms', w') = get_state_machine o r ms w in
      serve_all-keeps qs ms' w' k m spared
        (get-keeps r ms w (machine_at (get_release_key r) ms) k m refl h)
  serve_all-keeps (delete r ∷ qs) ms w k m spared h =
      serve_all-keeps qs (delete_state_machine r ms) w k m spared.1
        (machine_at-without_ne _ k ms spared.0 ∙ h)

  stored :
      (r : Release) (ms : Machines M) (w : W) (found : Option M) (m : M)
      → machine_at (get_release_key r) ms ≡ found
      → (machine_or_new o found r ms w).0 ≡ ok m
      → machine_at (get_release_key r) (machine_or_new o found r ms w).1 ≡ some m
  unfolding machine_or_new machine_made machine_at
  stored r ms w (some x) m seen h = cc
  stored r ms w none m seen h = made_stored (o.new_machine r w) h
    where
      made_stored :
          (made : Result M × W)
          → (machine_made o r ms made).0 ≡ ok m
          → machine_at (get_release_key r) (machine_made o r ms made).1 ≡ some m
      made_stored (err e, v) q = absurd (cc)
      made_stored (ok x, v) q = rw (str_eq_refl (get_release_key r)) (cc)

  -- A release that was given a state machine keeps it: whatever machines are asked for and deleted after
  -- that, provided none is deleted under the same key, a release with the key gets the same
  -- machine, and neither the map nor the outside changes. The key is the name, a dash and the
  -- namespace, so the machine may be that of another release.
  pub get_state_machine-keeps :
      (r s : Release) (ms : Machines M) (w : W) {m : M}
      → (get_state_machine o r ms w).0 ≡ ok m
      → (qs : List Request) → Spares (get_release_key r) qs
      → get_release_key s ≡ get_release_key r
      → let (ms', w') = serve_all (get r ∷ qs) ms w in
        get_state_machine o s ms' w' ≡ (ok m, ms', w')
  unfolding get_state_machine serve_all serve machine_or_new
  get_state_machine-keeps r s ms w {m} h qs spared same =
      let (answer, ms', w') = get_state_machine o r ms w in
      rw
        (
          same,
          serve_all-keeps qs ms' w' (get_release_key r) m spared
              (stored r ms w (machine_at (get_release_key r) ms) m refl h),
        )
        refl
