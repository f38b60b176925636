-- ===== src/Validation.antt =====
-- What the plugins use of github.com/go-playground/validator: `validate.Struct` checks the fields of a
-- configuration in their order, and the plugins write a text for each field that it refuses
-- (pkg/plugins/canary/plugin.go, pkg/plugins/httptest/plugin.go, pkg/plugins/slack/plugin.go,
-- pkg/plugins/discord/plugin.go, pkg/plugins/consul/releaser.go).
use Prim.Native.String.{◌++◌ as append}
use consul_release_controlle.Prelude.{
  ◌≡◌, refl, String, Option, none, some, List, [], ◌∷◌, Bool, true, false, ◌&&◌, if◌then◌else◌,
}

-- A field, whether its tags hold, and the text that is written otherwise.
pub record Field : Type 0 where
  pub holds : Bool
  pub text : String

unfoldable pub all_hold : List Field → Bool
all_hold [] = true
all_hold (f ∷ fs) = f.holds && all_hold fs

unfoldable pub error_message : List Field → String
error_message [] = ""
error_message (f ∷ fs) =
    let later = error_message fs in if f.holds then later else append (append f.text "\n") later

-- The error of `Configure` for the fields, if there is one.
unfoldable pub validate : List Field → Option String
unfolding all_hold error_message
validate fs = if all_hold fs then none else some (error_message fs)

pub validate-none : (fs : List Field) → validate fs ≡ none → all_hold fs ≡ true
unfolding validate
validate-none fs = go (all_hold fs)
  where
    go : (b : Bool) → (if b then none else some (error_message fs)) ≡ none → b ≡ true
    go true h = refl
    go false h = absurd (cc)
