-- ===== src/Memory/Refinement.antt =====
-- The memory store behaves as a function from names.
use mathlib.Core.Option.{some-injective}
use consul_release_controlle.Prelude.{
  ◌≡◌, refl, sym, ap, ◌∙◌, String, Option, none, some, List, [], ◌∷◌, Bool, true, false,
  if◌then◌else◌, str_eq, eq_iff, Bool-cases, inl, inr, arith,
}
use consul_release_controlle.Release.{Release}
use consul_release_controlle.Storage.{StoreError, release_not_found, other, Found, found, failed}
use consul_release_controlle.Memory.{
  Store, new_store, lookup, remove, upsert_release, delete_found, delete_release, get_release,
}

pub data StoreCall : Type 0 where
  upsert : Release → StoreCall
  delete : String → StoreCall
  get : String → StoreCall

pub data Observation : Type 0 where
  returned : Option StoreError → Observation
  read : Found Release → Observation

abbrev pub step : StoreCall → Store → Observation × Store
step (upsert r) m = let (e, m') = upsert_release r m in (returned e, m')
step (delete n) m = let (e, m') = delete_release n m in (returned e, m')
step (get n) m = (read (get_release n m), m)

-- The specification: a function from names. A release without a name is refused, and one that is not
-- there cannot be deleted.
abbrev pub Spec : Type 0
Spec = String → Option Release

abbrev pub assign : String → Option Release → Spec → Spec
assign k v f = λ n. if str_eq k n then v else f n

abbrev pub as_found : Option Release → Found Release
as_found none = failed release_not_found
as_found (some r) = found r

abbrev delete_error : Option Release → Option StoreError
delete_error none = some release_not_found
delete_error (some r) = none

abbrev pub spec_step : StoreCall → Spec → Observation × Spec
spec_step (upsert r) f =
    if str_eq r.name ""
    then (returned (some (other "invalid name:  for release")), f)
    else (returned none, assign r.name (some r) f)
spec_step (delete n) f = (returned (delete_error (f n)), assign n none f)
spec_step (get n) f = (read (as_found (f n)), f)

-- What a client sees of a sequence of calls.
unfoldable pub observe :
    {S : Type 0} → (StoreCall → S → Observation × S) → List StoreCall → S → List Observation
observe f [] s = []
observe f (c ∷ cs) s = let (o, s') = f c s in o ∷ observe f cs s'

-- Every release is kept under its name.
abbrev IsKeyed : Store → Type 0
IsKeyed [] = Unit
IsKeyed ((k, r) ∷ m) = (k ≡ r.name) × IsKeyed m

pub record Tracks (m : Store) (f : Spec) : Type 0 where
  keyed : IsKeyed m
  agrees : (n : String) → lookup n m ≡ f n

remove-IsKeyed : (k : String) (m : Store) → IsKeyed m → IsKeyed (remove k m)
unfolding remove
remove-IsKeyed k [] h = tt
remove-IsKeyed k ((j, r) ∷ m) h = elim (Bool-cases (str_eq j k)) [
  | inl same ↦ rw same (remove-IsKeyed k m h.1)
  | inr apart ↦ rw apart (h.0, remove-IsKeyed k m h.1)
]

lookup-remove :
    (k n : String) (m : Store) → lookup n (remove k m) ≡ (if str_eq k n then none else lookup n m)
unfolding lookup remove
lookup-remove k n [] = ground arith
lookup-remove k n ((j, r) ∷ m) =
    ground (arith, eq_iff j k, eq_iff k n, eq_iff j n, lookup-remove k n m)

get_release-lookup : (n : String) (m : Store) → IsKeyed m → get_release n m ≡ as_found (lookup n m)
unfolding get_release lookup
get_release-lookup n [] h = refl
get_release-lookup n ((k, r) ∷ m) h = rw (h.0) (elim (Bool-cases (str_eq r.name n)) [
  | inl here ↦ rw here refl
  | inr there ↦ rw there (get_release-lookup n m h.1)
])

pick-name :
    (b : Bool) (k n : String) (x r : Release) (rest : Option Release)
    → str_eq k n ≡ b
    → k ≡ x.name
    → (rest ≡ some r → r.name ≡ n)
    → (if b then some x else rest) ≡ some r
    → r.name ≡ n
pick-name true k n x r rest e h later q =
    ap (λ o. o.name) (sym (some-injective x r q)) ∙ sym h ∙ (eq_iff k n).0 e
pick-name false k n x r rest e h later q = later q

lookup-name : (n : String) (m : Store) (r : Release) → IsKeyed m → lookup n m ≡ some r → r.name ≡ n
unfolding lookup
lookup-name n [] r h q = cc
lookup-name n ((k, x) ∷ m) r h q =
    pick-name (str_eq k n) k n x r (lookup n m) refl (h.0) (lookup-name n m r (h.1)) q

upsert-Tracks :
    (r : Release) (m : Store) (f : Spec)
    → Tracks m f
    → Tracks ((r.name, r) ∷ remove r.name m) (assign r.name (some r) f)
unfolding lookup
upsert-Tracks r m f t = record {
  keyed = (refl, remove-IsKeyed r.name m t.keyed);
  agrees = λ n. ground (arith, lookup-remove r.name n m, t.agrees n);
}

missing-Tracks :
    (k : String) (m : Store) (f : Spec)
    → Tracks m f
    → lookup k m ≡ none
    → Tracks m (assign k none f)
missing-Tracks k m f t q = record {
  keyed = t.keyed;
  agrees = λ n. ground (arith, t.agrees n, eq_iff k n);
}

remove-Tracks :
    (k : String) (m : Store) (f : Spec) → Tracks m f → Tracks (remove k m) (assign k none f)
remove-Tracks k m f t = record {
  keyed = remove-IsKeyed k m t.keyed;
  agrees = λ n. ground (arith, lookup-remove k n m, t.agrees n);
}

abbrev Simulates : Observation × Store → Observation × Spec → Type 0
Simulates x y = (x.0 ≡ y.0) × Tracks x.1 y.1

delete_found-Simulates :
    (k : String) (m : Store) (f : Spec) (o : Option Release)
    → Tracks m f
    → lookup k m ≡ o
    → Simulates
        (returned (delete_found o m).0, (delete_found o m).1)
        (returned (delete_error o), assign k none f)
unfolding delete_found
delete_found-Simulates k m f none t q = (refl, missing-Tracks k m f t q)
delete_found-Simulates k m f (some r) t q =
    (refl, rw (lookup-name k m r t.keyed q) (remove-Tracks k m f t))

step-Simulates :
    (c : StoreCall) (m : Store) (f : Spec) → Tracks m f → Simulates (step c m) (spec_step c f)
unfolding upsert_release delete_release
step-Simulates (upsert r) m f t = elim (Bool-cases (str_eq r.name "")) [
  | inl empty ↦ rw empty (refl, t)
  | inr named ↦ rw named (refl, upsert-Tracks r m f t)
]
step-Simulates (delete n) m f t =
    rw (sym (t.agrees n)) (delete_found-Simulates n m f (lookup n m) t refl)
step-Simulates (get n) m f t =
    (ap read (get_release-lookup n m t.keyed ∙ ap as_found (t.agrees n)), t)

observe-Tracks :
    (cs : List StoreCall) (m : Store) (f : Spec)
    → Tracks m f
    → observe step cs m ≡ observe spec_step cs f
unfolding observe
observe-Tracks [] m f t = refl
observe-Tracks (c ∷ cs) m f t =
    let (same, next) = step-Simulates c m f t in
    rw same
      (ap (λ l. (spec_step c f).0 ∷ l) (observe-Tracks cs (step c m).1 (spec_step c f).1 next))

-- The memory store is a function from names to releases: any sequence of upserts, deletions and reads
-- that starts with an empty store answers every call as the function does, the errors included.
pub observe_lem :
    (cs : List StoreCall) → observe step cs new_store ≡ observe spec_step cs (λ n. none)
unfolding lookup
observe_lem cs = observe-Tracks cs new_store (λ n. none) record { keyed = tt; agrees = λ n. refl }
