-- ===== src/Nomad/Tags.antt =====
-- The jobs of Nomad, and what `CloneDeployment` of pkg/clients/nomad.go writes on their services.
use consul_release_controlle.Prelude.{
  ℕ, ℤ, String, Option, some, List, [], ◌∷◌, ◌++◌, Bool, false, ◌||◌, if◌then◌else◌, str_eq, map,
}
use consul_release_controlle.ConfigEntries.{get_meta}
use consul_release_controlle.Runtime.Platform.{
  Meta, put, delete, meta_or_empty, version_label, Deployment,
}

-- api.Service, api.TaskGroup and api.Job, as far as the code reads them. A job has a task group.
pub record Service : Type 0 where
  pub name : String
  pub tags : List String
  pub meta : Option Meta

pub record TaskGroup : Type 0 where
  pub count : ℤ
  pub services : List Service

pub record JobGroups : Type 0 where
  pub first : TaskGroup
  pub others : List TaskGroup

pub record Job : Type 0 where
  pub id : String
  pub name : String
  pub namespace : String
  pub meta : Option Meta
  pub version : ℕ
  pub status : Option String
  pub groups : JobGroups

-- The label with underscores for its dashes.
abbrev pub version_key : String
version_key = "consul_release_controller_version"

unfoldable pub has_tag : List String → Bool
has_tag [] = false
has_tag (t ∷ ts) = str_eq t version_label || has_tag ts

unfoldable pub without_tag : List String → List String
without_tag [] = []
without_tag (t ∷ ts) =
    let rest = without_tag ts in if str_eq t version_label then rest else t ∷ rest

unfoldable pub with_tag : List String → List String
unfolding has_tag
with_tag ts = if has_tag ts then ts else ts ++ version_label ∷ []

-- The value of the label: the empty text if it is not set.
unfoldable pub label_of : Deployment → String
label_of d = get_meta version_label (meta_or_empty d.meta)

-- The tag and the meta of a service of the clone.
unfoldable pub relabel : String → Service → Service
relabel label s =
    if str_eq label ""
    then record s {
      tags = without_tag s.tags;
      meta = some (delete version_key (meta_or_empty s.meta));
    }
    else record s {
      tags = with_tag s.tags;
      meta = some (put version_key label (meta_or_empty s.meta));
    }

abbrev pub relabel_group : String → TaskGroup → TaskGroup
relabel_group label g = record g { services = map (relabel label) g.services }

unfoldable pub relabelled : Deployment → Job → Job
relabelled d j = record j {
  id = d.name;
  name = d.name;
  meta = d.meta;
  groups = record {
    first = relabel_group (label_of d) j.groups.first;
    others = map (relabel_group (label_of d)) j.groups.others;
  };
}
