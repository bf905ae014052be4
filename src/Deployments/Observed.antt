-- ===== src/Deployments/Observed.antt =====
-- What the API server makes of an object that is applied: it keeps the spec that was sent, and fills
-- in generation, resource version, creation time and status.
use kernexys.Prelude.{String, Option, none, some, ◌≡◌, refl, pos, ℕ}
use kernexys.Json.{Json, Fields, member, obj, str, int, end}
use kernexys.Deployments.Resources.{
  Schemas, DeploymentUpsert, DeploymentRead, DeploymentStatus, desired_resource, resource_to_read,
  default, item,
}
use kernexys.Deployments.Desired.{expected}

abbrev member_of : String → Option Fields → Option Json
member_of k none = none
member_of k (some d) = member k d

-- d[j][k]
abbrev pub second : String → String → Fields → Option Json
second j k d = member_of k (item j d)

abbrev second_of : String → String → Option Fields → Option Json
second_of j k none = none
second_of j k (some d) = second j k d

-- d[i][j][k]
abbrev pub third : String → String → String → Fields → Option Json
third i j k d = second_of j k (item i d)

-- What the server fills in; the creation time is the text of the object and the time it denotes.
pub record Filled : Type 0 where
  pub generation : ℕ
  pub resource_version : String
  pub timestamp : String
  pub created_at : String
  pub status : DeploymentStatus

-- `observed` is what the server has for the object `sent`: the dicts of `sent` are there, in any
-- order and with any other entries, the entries that were sent for the name, the namespace and the
-- parts of the spec are kept, and the others are filled in.
pub record IsStored (c : Schemas) (sent : Fields) (f : Filled) (observed : Fields) : Type 0 where
  pub metadata : Fields
  pub spec : Fields
  pub model : Fields
  pub runtime : Fields
  pub has_metadata : member "metadata" observed ≡ some (obj metadata)
  pub has_spec : member "spec" observed ≡ some (obj spec)
  pub has_model : member "model" spec ≡ some (obj model)
  pub has_runtime : member "runtime" spec ≡ some (obj runtime)
  pub name_kept : member "name" metadata ≡ second "metadata" "name" sent
  pub namespace_kept : member "namespace" metadata ≡ second "metadata" "namespace" sent
  pub replicas_kept : member "replicas" spec ≡ second "spec" "replicas" sent
  pub resources_kept : member "resources" spec ≡ second "spec" "resources" sent
  pub model_kept : member "name" model ≡ third "spec" "model" "name" sent
  pub version_kept : member "version" model ≡ third "spec" "model" "version" sent
  pub image_kept : member "image" runtime ≡ third "spec" "runtime" "image" sent
  pub port_kept : member "port" runtime ≡ third "spec" "runtime" "port" sent
  pub generation_filled : member "generation" metadata ≡ some (int f.generation)
  pub version_filled : member "resourceVersion" metadata ≡ some (str f.resource_version)
  pub created_filled : member "creationTimestamp" metadata ≡ some (str f.timestamp)
  pub created_is : c.time (str f.timestamp) ≡ some (some f.created_at)
  pub status_is : c.status (default (obj end) (member "status" observed)) ≡ some f.status

module _ (c : Schemas) (namespace name : String) where
  -- the requested deployment, with what the server has filled in
  abbrev pub filled_read : DeploymentUpsert → String → Filled → DeploymentRead
  filled_read body image f = record (expected c namespace name body image none f.status) {
    generation = pos f.generation;
    resource_version = f.resource_version;
    created_at = some f.created_at;
  }

  module _ (body : DeploymentUpsert) (image : String) (digest : Option String)
      (resource_version : Option Json) (f : Filled) (observed : Fields)
      (stored : IsStored c
        (desired_resource namespace name body image digest resource_version)
        f
        observed) where
    pub resource_to_read-stored :
        c.IsValid body.resources → resource_to_read c observed ≡ some (filled_read body image f)
    unfolding resource_to_read desired_resource
    resource_to_read-stored valid =
        rw
          (
            stored.has_metadata,
            stored.has_spec,
            stored.has_model,
            stored.has_runtime,
            stored.status_is,
            stored.name_kept,
            stored.namespace_kept,
            stored.generation_filled,
            stored.version_filled,
            stored.created_filled,
            stored.created_is,
            stored.model_kept,
            stored.version_kept,
            stored.image_kept,
            stored.port_kept,
            stored.replicas_kept,
            stored.resources_kept,
            c.text-str name,
            c.text-str namespace,
            c.text-str f.resource_version,
            c.text-str body.model,
            c.text-str body.version,
            c.text-str image,
            c.integer-int f.generation,
            c.integer-int body.replicas,
            c.integer-int body.port,
            c.resources-dump body.resources valid,
          )
          refl
