-- ===== src/Deployments/Applied.antt =====
-- put_deployment from the registered version to the reply.
use kernexys.Prelude.{String, none, some, ◌≡◌, refl, ap, ◌∙◌, Result, ok}
use kernexys.Json.{Fields}
use kernexys.Kubernetes.{Cluster, DeploymentGatewayError, value, apply}
use kernexys.Registry.Session.{Database, ModelVersion, Others, World, seen}
use kernexys.Deployments.{put_deployment, reply, read_or_502}
use kernexys.Deployments.Resources.{Schemas, DeploymentUpsert, desired_resource}
use kernexys.Deployments.Observed.{Filled, IsStored, filled_read, resource_to_read-stored}

module _ (d : Database) (k : Cluster) (c : Schemas) (namespace name : String)
    (body : DeploymentUpsert) where
  -- the object for a registered version
  abbrev pub desired : ModelVersion → Fields
  desired v = desired_resource namespace name body v.runtime_image v.artifact_digest none

  -- Server-side apply of `object` left the server with `observed`, which the client reported or
  -- which can be read afterwards.
  pub data IsAppliedBy (s : k.Objects) (object observed : Fields) (s' : k.Objects) : Type 0 where
    reported :
        k.patch namespace name object s ≡ (value (some observed), s')
        → IsAppliedBy s object observed s'
    unreported :
        k.patch namespace name object s ≡ (value none, s')
        → k.get_object namespace name s' ≡ value observed
        → IsAppliedBy s object observed s'

  pub apply-IsAppliedBy :
      (s s' : k.Objects) (object observed : Fields)
      → IsAppliedBy s object observed s'
      → apply k namespace name object s ≡ (ok observed, s')
  unfolding apply
  apply-IsAppliedBy s s' object observed (reported p) = rw p refl
  apply-IsAppliedBy s s' object observed (unreported p g) = rw (p, g) refl

  -- When the registry holds the requested version at the time it is asked, the resources are
  -- valid, and server-side apply succeeds, with the object reported by the client or only
  -- readable afterwards, in which the server keeps the name, the namespace and the entries of
  -- the spec that were sent and fills in a generation, a resource version, a creation time and
  -- a status that validates: put_deployment replies with the requested name, namespace, model,
  -- version, replicas, port and resources, with the image of the registered version, and with
  -- the generation, resource version, creation time and status that the server filled in.
  pub put_deployment_applied :
      (others : Others d) (w : World d) (v : ModelVersion) (f : Filled) (s s' : k.Objects)
      (observed : Fields)
      → d.tables.select body.model body.version (seen d others w) ≡ some v
      → c.IsValid body.resources
      → IsAppliedBy s (desired v) observed s'
      → IsStored c (desired v) f observed
      → (put_deployment d k c namespace name body others w s).0
        ≡ (ok (filled_read c namespace name body v.runtime_image f), s')
  unfolding put_deployment
  put_deployment_applied others w v f s s' observed registered valid applied stored =
      rw registered (
        ap
          (λ (x : Result DeploymentGatewayError Fields × k.Objects).
            (reply d k c namespace name x.0, x.1))
          (apply-IsAppliedBy s s' (desired v) observed applied)
        ∙ ap (λ r. (read_or_502 r, s'))
            (resource_to_read-stored c namespace name body v.runtime_image v.artifact_digest none f
              observed stored valid))
