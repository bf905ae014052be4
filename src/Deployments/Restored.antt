-- ===== src/Deployments/Restored.antt =====
-- A rollback of an object that the API itself wrote.
use kernexys.Prelude.{String, Option, none, some, ◌≡◌, refl, ap, ◌∙◌, Result, ok}
use kernexys.Json.{str, Fields}
use kernexys.Kubernetes.{Cluster, DeploymentGatewayError, value}
use kernexys.Registry.Session.{Database, ModelVersion, Others, World, seen}
use kernexys.Deployments.{reply, read_or_502}
use kernexys.Deployments.Resources.{Schemas, DeploymentUpsert, desired_resource}
use kernexys.Deployments.Observed.{Filled, IsStored, filled_read, resource_to_read-stored}
use kernexys.Deployments.Applied.{IsAppliedBy, apply-IsAppliedBy}
use kernexys.Deployments.Rollback.{current_model, desired_rollback, rollback_deployment}

module _ (c : Schemas) (namespace name : String) (body : DeploymentUpsert) (image : String)
    (digest : Option String) (f : Filled) (current : Fields)
    (stored : IsStored c (desired_resource namespace name body image digest none) f current) where
  -- the object for another version, with the resource version that the server had
  abbrev pub restored : String → ModelVersion → Fields
  restored version v =
      desired_resource namespace name (record body { version = version }) v.runtime_image
        v.artifact_digest (some (str f.resource_version))

  current_model-stored : current_model current ≡ ok (stored.spec, body.model)
  unfolding current_model desired_resource
  current_model-stored = rw (stored.has_spec, stored.has_model, stored.model_kept) refl

  desired_rollback-stored :
      (version : String) (v : ModelVersion)
      → c.IsUpsert (record body { version = version })
      → desired_rollback c namespace name stored.spec body.model version v current
        ≡ ok (restored version v)
  unfolding desired_rollback desired_resource
  desired_rollback-stored version v valid =
      rw
        (
          stored.has_runtime,
          stored.has_metadata,
          stored.replicas_kept,
          stored.port_kept,
          stored.resources_kept,
          stored.version_filled,
          c.upsert-dump (record body { version = version }) valid,
        )
        refl

  module _ (d : Database) (k : Cluster) (version : String) where
    -- When the server holds an object whose name, namespace and entries of the spec are those
    -- that an earlier request of the API wrote, with whatever generation, resource version,
    -- creation time and status it filled in, the registry holds the requested version of the
    -- object's model, the changed request validates, and server-side apply of that request with
    -- the resource version that was read succeeds, keeping and filling in the same entries
    -- anew: rollback_deployment replies with the deployment as it was requested earlier except
    -- for version and image, which are those of the registered version, and with what the
    -- server has filled in now.
    pub rollback_deployment_applied :
        (others : Others d) (w : World d) (v : ModelVersion) (g : Filled) (s s' : k.Objects)
        (observed : Fields)
        → k.get_object namespace name s ≡ value current
        → d.tables.select body.model version (seen d others w) ≡ some v
        → c.IsUpsert (record body { version = version })
        → c.IsValid body.resources
        → IsAppliedBy d k c namespace name body s (restored version v) observed s'
        → IsStored c (restored version v) g observed
        → (rollback_deployment d k c namespace name version others w s).0 ≡ (
          ok (filled_read c namespace name (record body { version = version }) v.runtime_image g),
          s',
        )
    unfolding rollback_deployment
    rollback_deployment_applied others w v g s s' observed there registered upsert valid applied
          now_stored =
        rw (there, current_model-stored, registered, desired_rollback-stored version v upsert)
          (ap
              (λ (x : Result DeploymentGatewayError Fields × k.Objects).
                (reply d k c namespace name x.0, x.1))
              (apply-IsAppliedBy d k c namespace name body s s' (restored version v) observed
                applied)
            ∙ ap (λ r. (read_or_502 r, s'))
                (resource_to_read-stored c namespace name (record body { version = version })
                  v.runtime_image v.artifact_digest (some (str f.resource_version)) g observed
                  now_stored valid))
