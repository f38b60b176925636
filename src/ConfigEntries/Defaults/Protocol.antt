-- ===== src/ConfigEntries/Defaults/Protocol.antt =====
-- What the service defaults are set to, and which of them are removed.
use mathlib.Core.Path.{subst}
use consul_release_controlle.Prelude.{
  ◌≡◌, refl, sym, ap, ◌∙◌, String, Option, none, some, Bool, true, false, if◌then◌else◌, str_eq,
  eq_iff,
}
use consul_release_controlle.Storage.Kv.{Result, ok, err, ConsulOptions}
use consul_release_controlle.ConfigEntries.{
  is_created, EntryApi, IsEntries, Removable, nothing, entry, existing, to_remove,
}
use consul_release_controlle.ConfigEntries.Reading.{
  existing-value, to_remove-entry, to_remove-nothing,
}
use consul_release_controlle.ConfigEntries.Defaults.{
  ServiceDefaults, new_defaults, as_http, refused, create_service_defaults, delete_service_defaults,
  create_with, update_existing, remove_from,
}

-- There is an entry, and its protocol is HTTP.
abbrev pub IsHttp : Option ServiceDefaults → Type 0
IsHttp none = ⊥
IsHttp (some d) = d.protocol ≡ "http"

-- What is left of an entry after a deletion.
abbrev pub kept : Option ServiceDefaults → Option ServiceDefaults
kept none = none
kept (some d) = if is_created d.meta then none else some d

module _ {W : Type 0} (api : EntryApi ServiceDefaults W) (o : ConsulOptions)
    (laws : IsEntries api o (λ d. d.name)) (name : String) where
  set-IsHttp :
      (d : ServiceDefaults) (w : W)
      → d.name ≡ name
      → d.protocol ≡ "http"
      → (api.set o d w).0 ≡ none
      → IsHttp (laws.value (api.set o d w).1 name)
  set-IsHttp d w n http done =
      subst (λ x. IsHttp (laws.value (api.set o d w).1 x)) n
        (subst IsHttp (sym (laws.set_sets d w done)) http)

  update_existing-IsHttp :
      (d : ServiceDefaults) (w : W)
      → laws.value w name ≡ some d
      → (update_existing api o name d w).0 ≡ none
      → IsHttp (laws.value (update_existing api o name d w).1 name)
  unfolding update_existing
  update_existing-IsHttp d w q done =
      by_protocol (str_eq d.protocol "grpc") (str_eq d.protocol "http2") (str_eq d.protocol "http")
        (str_eq d.protocol "tcp") refl done
    where
      by_protocol :
          (a b c t : Bool)
          → str_eq d.protocol "http" ≡ c
          → (if a
              then (some (refused name "gRPC"), w)
              else if b
              then (some (refused name "HTTP2"), w)
              else if c
              then (none, w)
              else if t
              then api.set o (as_http d) w
              else api.set o (new_defaults o name) w).0
            ≡ none
          → IsHttp (
              laws.value
                (if a
                  then (some (refused name "gRPC"), w)
                  else if b
                  then (some (refused name "HTTP2"), w)
                  else if c
                  then (none, w)
                  else if t
                  then api.set o (as_http d) w
                  else api.set o (new_defaults o name) w).1
                name)
      by_protocol true b c t h done = cc
      by_protocol false true c t h done = cc
      by_protocol false false true t h done = subst IsHttp (sym q) ((eq_iff d.protocol "http").0 h)
      by_protocol false false false true h done =
          set-IsHttp (as_http d) w (laws.named name w q) refl done
      by_protocol false false false false h done = set-IsHttp (new_defaults o name) w refl refl done

  create_with-IsHttp :
      (r : Result (Option ServiceDefaults)) (w : W)
      → ((ce : Option ServiceDefaults) → r ≡ ok ce → ce ≡ laws.value w name)
      → (create_with api o name r w).0 ≡ none
      → IsHttp (laws.value (create_with api o name r w).1 name)
  unfolding create_with
  create_with-IsHttp (err e) w reads done = cc
  create_with-IsHttp (ok none) w reads done = set-IsHttp (new_defaults o name) w refl refl done
  create_with-IsHttp (ok (some d)) w reads done =
      update_existing-IsHttp d w (sym (reads (some d) refl)) done

  -- If the service defaults are created without an error, then the service has service defaults, and
  -- their protocol is HTTP, whatever they were before.
  create_service_defaults-IsHttp :
      (w : W)
      → (create_service_defaults api o name w).0 ≡ none
      → IsHttp (laws.value (create_service_defaults api o name w).1 name)
  unfolding create_service_defaults
  create_service_defaults-IsHttp w done =
      let r = api.get o name w in
      create_with-IsHttp (existing api r.0) r.1
        (λ ce q. existing-value api o _ laws name w r.0 refl q ∙ sym (laws.get_keeps name name w))
        done

  remove_from-value :
      (r : Removable ServiceDefaults) (w w' : W)
      → ((d : ServiceDefaults) → r ≡ entry d → laws.value w name ≡ some d)
      → (r ≡ nothing none → laws.value w name ≡ none)
      → laws.value w' name ≡ laws.value w name
      → (remove_from api o name r w').0 ≡ none
      → laws.value (remove_from api o name r w').1 name ≡ kept (laws.value w name)
  unfolding remove_from
  remove_from-value (nothing (some e)) w w' reads absent keeps done = cc
  remove_from-value (nothing none) w w' reads absent keeps done =
      keeps ∙ absent refl ∙ ap kept (sym (absent refl))
  remove_from-value (entry d) w w' reads absent keeps done =
      rw (reads d refl) (by_creator (is_created d.meta) done)
    where
      by_creator :
          (ours : Bool)
          → (if ours then api.delete o name w' else (none, w')).0 ≡ none
          → laws.value (if ours then api.delete o name w' else (none, w')).1 name
            ≡ (if ours then none else some d)
      by_creator true done = laws.delete_deletes name w' done
      by_creator false done = keeps ∙ reads d refl

  -- If the service defaults are deleted without an error, then those that the controller created are
  -- gone, and others are as they were.
  pub delete_service_defaults-value :
      (w : W)
      → (delete_service_defaults api o name w).0 ≡ none
      → laws.value (delete_service_defaults api o name w).1 name ≡ kept (laws.value w name)
  unfolding delete_service_defaults
  delete_service_defaults-value w done =
      let r = api.get o name w in
      remove_from-value (to_remove api r.0) w r.1
        (λ d q. to_remove-entry api o _ laws name w r.0 refl q)
        (λ q. to_remove-nothing api o _ laws name w r.0 refl q) (laws.get_keeps name name w) done
