-- ===== src/ConfigEntries/Splitters.antt =====
-- CreateServiceSplitter and DeleteServiceSplitter of pkg/clients/consul.go.
use consul_release_controlle.Prelude.{ℤ, String, Option, List, [], ◌∷◌}
use consul_release_controlle.Storage.Kv.{ConsulOptions}
use consul_release_controlle.ConfigEntries.{Meta, created_meta, EntryApi}
use consul_release_controlle.ConfigEntries.Resolvers.{primary_subset, candidate_subset}

-- api.ServiceSplit; the weight is a percentage, which a `float32` holds exactly.
pub record Split : Type 0 where
  pub service_subset : String
  pub weight : ℤ

-- api.ServiceSplitterConfigEntry
pub record ServiceSplitter : Type 0 where
  pub name : String
  pub namespace : String
  pub partition : String
  pub meta : Meta
  pub splits : List Split

unfoldable pub new_splitter : ConsulOptions → String → ℤ → ℤ → ServiceSplitter
new_splitter o name primary canary = record {
  name = name;
  namespace = o.namespace;
  partition = o.partition;
  meta = created_meta;
  splits =
      record { service_subset = primary_subset name; weight = primary }
      ∷ record { service_subset = candidate_subset name; weight = canary }
      ∷ [];
}

module _ {W : Type 0} (api : EntryApi ServiceSplitter W) (o : ConsulOptions) where
  unfoldable pub create_service_splitter : String → ℤ → ℤ → W → Option String × W
  create_service_splitter name primary canary w = api.set o (new_splitter o name primary canary) w

  unfoldable pub delete_service_splitter : String → W → Option String × W
  delete_service_splitter name w = api.delete o name w
