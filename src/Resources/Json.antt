-- ===== src/Resources/Json.antt =====
-- What the code uses of encoding/json: objects whose fields have names and may be left out if they are
-- empty (`omitempty`), and the fields of a struct that are read from one.
use mathlib.Core.Option.{none-ne-some}
use consul_release_controlle.Prelude.{
  ◌≡◌, refl, sym, ap, ◌∙◌, ℤ, pos, eqb_ℤ, eqb_ℤ-true, String, Option, none, some, List, [], ◌∷◌,
  Bool, true, false, ◌&&◌, if◌then◌else◌, str_eq, eq_iff, Bool-cases, inl, inr,
}

pub data Flat : Type 0 where
  text : String → Flat
  number : ℤ → Flat
  flag : Bool → Flat
  texts : List String → Flat

abbrev pub Object : Type 0 → Type 0
Object V = List (String × V)

-- The values of a document's fields: those of one object, or a list of objects.
pub data Value : Type 0 where
  flat : Flat → Value
  objects : List (Object Flat) → Value

abbrev pub Document : Type 0
Document = Object Value

unfoldable pub is_empty_flat : Flat → Bool
is_empty_flat (text t) = str_eq t ""
is_empty_flat (number n) = eqb_ℤ n (pos 0)
is_empty_flat (flag b) = elim b [ true ↦ false | false ↦ true ]
is_empty_flat (texts []) = true
is_empty_flat (texts (t ∷ ts)) = false

unfoldable pub is_empty : Value → Bool
unfolding is_empty_flat
is_empty (flat v) = is_empty_flat v
is_empty (objects []) = true
is_empty (objects (o ∷ os)) = false

-- A field of a struct: its name in JSON, whether `omitempty` is set, and its value.
pub record Tagged (V : Type 0) : Type 0 where
  pub name : String
  pub omitempty : Bool
  pub value : V

module _ {V : Type 0} where
  -- `json.Marshal` of a struct.
  unfoldable pub encode : (V → Bool) → List (Tagged V) → Object V
  encode empty [] = []
  encode empty (t ∷ ts) =
      let rest = encode empty ts in
      if t.omitempty && empty t.value then rest else (t.name, t.value) ∷ rest

  unfoldable pub find : String → Object V → Option V
  find k [] = none
  find k ((j, v) ∷ o) = if str_eq j k then some v else find k o

  unfoldable pub tagged_at : String → List (Tagged V) → Option (Tagged V)
  tagged_at k [] = none
  tagged_at k (t ∷ ts) = if str_eq t.name k then some t else tagged_at k ts

  unfoldable pub after : String → List (Tagged V) → List (Tagged V)
  after k [] = []
  after k (t ∷ ts) = if str_eq t.name k then ts else after k ts

  -- What a reader finds of a field: nothing, if it was left out.
  unfoldable pub visible : (V → Bool) → Option (Tagged V) → Option V
  visible empty none = none
  visible empty (some t) = if t.omitempty && empty t.value then none else some t.value

  find-encode-skip :
      (empty : V → Bool) (k : String) (t : Tagged V) (ts : List (Tagged V))
      → str_eq t.name k ≡ false
      → find k (encode empty (t ∷ ts)) ≡ find k (encode empty ts)
  unfolding find encode
  find-encode-skip empty k t ts h = elim (Bool-cases (t.omitempty && empty t.value)) [
    | inl omitted ↦ rw omitted refl
    | inr kept ↦ rw (kept, find, h) refl
  ]

  find-encode-hit :
      (empty : V → Bool) (k : String) (t : Tagged V) (ts : List (Tagged V))
      → str_eq t.name k ≡ true
      → find k (encode empty ts) ≡ none
      → find k (encode empty (t ∷ ts)) ≡ visible empty (some t)
  unfolding find encode visible
  find-encode-hit empty k t ts h later = elim (Bool-cases (t.omitempty && empty t.value)) [
    | inl omitted ↦ rw omitted later
    | inr kept ↦ rw (kept, find, h) refl
  ]

  find-encode-none :
      (empty : V → Bool) (k : String) (ts : List (Tagged V))
      → tagged_at k ts ≡ none
      → find k (encode empty ts) ≡ none
  unfolding tagged_at find encode
  find-encode-none empty k [] = λ h. refl
  find-encode-none empty k (t ∷ ts) = elim (Bool-cases (str_eq t.name k)) [
    | inl same ↦ rw same (λ h. absurd (none-ne-some t (sym h)))
    | inr differ ↦
        rw differ (λ h. find-encode-skip empty k t ts differ ∙ find-encode-none empty k ts h)
  ]

  -- The value of a field whose name no later field has.
  pub find-encode :
      (empty : V → Bool) (k : String) (ts : List (Tagged V))
      → tagged_at k (after k ts) ≡ none
      → find k (encode empty ts) ≡ visible empty (tagged_at k ts)
  unfolding tagged_at after find encode visible
  find-encode empty k [] = λ h. refl
  find-encode empty k (t ∷ ts) = elim (Bool-cases (str_eq t.name k)) [
    | inl same ↦ rw same (λ h. find-encode-hit empty k t ts same (find-encode-none empty k ts h))
    | inr differ ↦ rw differ (λ h. find-encode-skip empty k t ts differ ∙ find-encode empty k ts h)
  ]

-- What `json.Unmarshal` reads into a field of a struct: the zero value if the field is missing, and an
-- error (none) if its value is of another kind.
unfoldable pub read_text : Option Flat → Option String
read_text none = some ""
read_text (some (text t)) = some t
read_text (some _) = none

unfoldable pub read_number : Option Flat → Option ℤ
read_number none = some (pos 0)
read_number (some (number n)) = some n
read_number (some _) = none

-- `*int`
unfoldable pub read_pointer : Option Flat → Option (Option ℤ)
read_pointer none = some none
read_pointer (some (number n)) = some (some n)
read_pointer (some _) = none

unfoldable pub read_flag : Option Flat → Option Bool
read_flag none = some false
read_flag (some (flag b)) = some b
read_flag (some _) = none

unfoldable pub read_texts : Option Flat → Option (List String)
read_texts none = some []
read_texts (some (texts ts)) = some ts
read_texts (some _) = none

abbrev pub tagged : {V : Type 0} → String → Bool → V → Tagged V
tagged name omitempty value = record { name = name; omitempty = omitempty; value = value }

-- A text, a number or a list is read back, whether it is left out when it is empty or not.
pub read_text-visible :
    (k t : String) (b : Bool)
    → read_text (visible is_empty_flat (some (tagged k b (text t)))) ≡ some t
unfolding read_text visible is_empty_flat
read_text-visible k t false = refl
read_text-visible k t true = elim (Bool-cases (str_eq t "")) [
  | inl is_none ↦ rw is_none (ap some (sym ((eq_iff t "").0 is_none)))
  | inr not_none ↦ rw not_none refl
]

pub read_number-visible :
    (k : String) (n : ℤ) (b : Bool)
    → read_number (visible is_empty_flat (some (tagged k b (number n)))) ≡ some n
unfolding read_number visible is_empty_flat
read_number-visible k n false = refl
read_number-visible k n true = elim (Bool-cases (eqb_ℤ n (pos 0))) [
  | inl is_zero ↦ rw is_zero (ap some (sym (eqb_ℤ-true n (pos 0) is_zero)))
  | inr not_zero ↦ rw not_zero refl
]

pub read_texts-visible :
    (k : String) (ts : List String) (b : Bool)
    → read_texts (visible is_empty_flat (some (tagged k b (texts ts)))) ≡ some ts
unfolding read_texts visible is_empty_flat
read_texts-visible k ts false = refl
read_texts-visible k [] true = refl
read_texts-visible k (t ∷ ts) true = refl

-- A number that is not left out when it is zero would be read back; with `omitempty` zero becomes no
-- number.
unfoldable pub not_zero : ℤ → Option ℤ
not_zero n = if eqb_ℤ n (pos 0) then none else some n

pub read_pointer-visible :
    (k : String) (n : ℤ)
    → read_pointer (visible is_empty_flat (some (tagged k true (number n)))) ≡ some (not_zero n)
unfolding read_pointer visible is_empty_flat not_zero
read_pointer-visible k n = elim (Bool-cases (eqb_ℤ n (pos 0))) [
  | inl is_zero ↦ rw is_zero refl
  | inr differs ↦ rw differs refl
]

-- A field that is no list of objects.
unfoldable pub read_flat : Option Value → Option (Option Flat)
read_flat none = some none
read_flat (some (flat v)) = some (some v)
read_flat (some (objects os)) = none

read_flat-visible :
    (k : String) (b : Bool) (v : Flat)
    → read_flat (visible is_empty (some (tagged k b (flat v))))
      ≡ some (visible is_empty_flat (some (tagged k b v)))
unfolding read_flat visible is_empty
read_flat-visible k b v = elim (Bool-cases (b && is_empty_flat v)) [
  | inl omitted ↦ rw omitted refl
  | inr kept ↦ rw kept refl
]

and_then : {A B : Type 0} → Option A → (A → Option B) → Option B
and_then none f = none
and_then (some a) f = f a

-- A field of a document, read into a field of a struct.
unfoldable pub field : {A : Type 0} → (Option Flat → Option A) → String → Document → Option A
unfolding and_then
field read k d = and_then (read_flat (find k d)) read

-- A field whose name stands once is found as it was written.
pub field-encode :
    {A : Type 0} (read : Option Flat → Option A) (k : String) (b : Bool) (v : Flat)
    (ts : List (Tagged Value))
    → tagged_at k ts ≡ some (tagged k b (flat v))
    → tagged_at k (after k ts) ≡ none
    → field read k (encode is_empty ts) ≡ read (visible is_empty_flat (some (tagged k b v)))
unfolding field and_then
field-encode read k b v ts at once =
    rw (find-encode is_empty k ts once, at, read_flat-visible k b v) refl

-- A field that the writer does not have gets the zero value.
pub field-absent :
    {A : Type 0} (read : Option Flat → Option A) (k : String) (ts : List (Tagged Value))
    → tagged_at k ts ≡ none
    → field read k (encode is_empty ts) ≡ read none
unfolding field and_then read_flat
field-absent read k ts h = rw (find-encode-none is_empty k ts h) refl
