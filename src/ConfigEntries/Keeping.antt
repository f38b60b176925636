-- ===== src/ConfigEntries/Keeping.antt =====
-- A view of the state that the operations on one kind of entry leave as it is.
use consul_release_controlle.Prelude.{◌≡◌, String, Bool, true, false, if◌then◌else◌}
use consul_release_controlle.Storage.Kv.{ConsulOptions}
use consul_release_controlle.ConfigEntries.{EntryApi}

pub record Keeps {E W V : Type 0} (api : EntryApi E W) (o : ConsulOptions) (view : W → V)
    : Type 0 where
  pub gets : (n : String) (w : W) → view (api.get o n w).1 ≡ view w
  pub sets : (d : E) (w : W) → view (api.set o d w).1 ≡ view w
  pub deletes : (n : String) (w : W) → view (api.delete o n w).1 ≡ view w

pub if-keeps :
    {R W V : Type 0} (view : W → V) (b : Bool) (x y : R × W) (v : V)
    → view x.1 ≡ v
    → view y.1 ≡ v
    → view (if b then x else y).1 ≡ v
if-keeps view true x y v h k = h
if-keeps view false x y v h k = k
