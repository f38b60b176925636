-- ===== src/ConfigEntries/Reading.antt =====
-- What the tests on the result of `Get` say of the entries.
use consul_release_controlle.Prelude.{
  ◌≡◌, refl, sym, ◌∙◌, String, Option, none, some, Bool, false, true, if◌then◌else◌,
}
use consul_release_controlle.Storage.Kv.{ok, err, ConsulOptions}
use consul_release_controlle.ConfigEntries.{
  EntryApi, IsEntries, nothing, entry, existing, to_remove,
}

ok-injective : {A : Type 0} {a b : A} → ok a ≡ ok b → a ≡ b
ok-injective h = cc

picked :
    {A : Type 0} {a b : A} (missing : Bool) (e : String)
    → (if missing then ok a else err e) ≡ ok b
    → (missing ≡ true) × (a ≡ b)
picked true e q = (refl, ok-injective q)
picked false e q = cc

module _ {E : Type 0} {W : Type 0} (api : EntryApi E W) (o : ConsulOptions) (name_of : E → String)
    (laws : IsEntries api o name_of) where
  pub existing-value :
      (n : String) (w : W) (found : Option E × Option String) {ce : Option E}
      → (api.get o n w).0 ≡ found
      → existing api found ≡ ok ce
      → ce ≡ laws.value w n
  unfolding existing
  existing-value n w (ce, none) h q = rw (← ok-injective q) (laws.get_reads n w h)
  existing-value n w (ce, some e) h q =
      let (missing, same) = picked (api.has_404 e) e q in
      sym same ∙ laws.get_fails n w h ∙ sym (laws.get_missing n w h missing)

  pub to_remove-entry :
      (n : String) (w : W) (found : Option E × Option String) {d : E}
      → (api.get o n w).0 ≡ found
      → to_remove api found ≡ entry d
      → laws.value w n ≡ some d
  unfolding to_remove
  to_remove-entry n w (some ce, none) h q = sym (laws.get_reads n w h) ∙ cc
  to_remove-entry n w (some ce, some e) h q = cc
  to_remove-entry n w (none, e) h q = cc

  pub to_remove-nothing :
      (n : String) (w : W) (found : Option E × Option String)
      → (api.get o n w).0 ≡ found
      → to_remove api found ≡ nothing none
      → laws.value w n ≡ none
  unfolding to_remove
  to_remove-nothing n w (some ce, none) h q = cc
  to_remove-nothing n w (some ce, some e) h q = absurd (cc (laws.get_fails n w h))
  to_remove-nothing n w (none, none) h q = sym (laws.get_reads n w h)
  to_remove-nothing n w (none, some e) h q = cc
