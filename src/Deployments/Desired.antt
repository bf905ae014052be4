-- ===== src/Deployments/Desired.antt =====
-- What is sent to Kubernetes is what is read back, and which errors a client sees.
use kernexys.Prelude.{
  ℕ, String, false, Option, none, some, ◌≡◌, ◌≢◌, ◌⊎◌, inl, inr, refl, sym, ap, ◌∙◌, ◌==◌,
  Bool-cases, arith, pos, eq_iff,
}
use kernexys.Json.{Json, member, obj, str, end, Fields}
use kernexys.Kubernetes.{DeploymentGatewayError}
use kernexys.Deployments.{deployment_error}
use kernexys.Deployments.Resources.{
  Schemas, DeploymentUpsert, DeploymentRead, DeploymentStatus, desired_resource, resource_to_read,
  optional, metadata_of, default, is_true, as_json,
}

-- resource_version if it is a text that is not empty
abbrev pub text_or_empty : Option String → String
text_or_empty none = ""
text_or_empty (some s) = s

member-optional :
    (j k : String) (o : Option Json) (f : Json → Json) (d : Fields)
    → (k == j) ≡ false
    → member j (optional k o f d) ≡ member j d
member-optional j k none f d h = refl
member-optional j k (some v) f d h = elim (Bool-cases (is_true v)) [
  | inl e ↦ rw (e, h) refl
  | inr e ↦ rw e refl
]

member-metadata_of :
    (j namespace name : String) (digest : Option String) (resource_version : Option Json)
    → ("name" == j) ≡ false
    → ("namespace" == j) ≡ false
    → ("labels" == j) ≡ false
    → ("annotations" == j) ≡ false
    → ("resourceVersion" == j) ≡ false
    → member j (metadata_of namespace name digest resource_version) ≡ none
member-metadata_of j namespace name digest resource_version a b c d e =
    rw (a, b, c)
      (member-optional j "annotations" (as_json digest) _
          (optional "resourceVersion" resource_version (λ v. v) end) d
        ∙ member-optional j "resourceVersion" resource_version (λ v. v) end e)

member-resource_version :
    (namespace name : String) (digest : Option String) (resource_version : Option Json)
    → member "resourceVersion" (metadata_of namespace name digest resource_version)
      ≡ member "resourceVersion" (optional "resourceVersion" resource_version (λ v. v) end)
member-resource_version namespace name digest resource_version =
    member-optional "resourceVersion" "annotations" (as_json digest) _
      (optional "resourceVersion" resource_version (λ v. v) end) refl

sent_resource_version :
    (o : Option String)
    → default
        (str "")
        (member "resourceVersion" (optional "resourceVersion" (as_json o) (λ v. v) end))
      ≡ str (text_or_empty o)
sent_resource_version none = refl
sent_resource_version (some s) = elim (Bool-cases (s == "")) [
  | inl e ↦ rw e (ap str (sym ((eq_iff s "").0 e)))
  | inr e ↦ rw e refl
]

resource_version_read :
    (namespace name : String) (digest resource_version : Option String)
    → default
        (str "")
        (member "resourceVersion" (metadata_of namespace name digest (as_json resource_version)))
      ≡ str (text_or_empty resource_version)
resource_version_read namespace name digest resource_version =
    ap (default (str "")) (member-resource_version namespace name digest (as_json resource_version))
    ∙ sent_resource_version resource_version

module _ (c : Schemas) where
  -- The read of an object that nobody has filled in yet.
  abbrev pub expected :
      String
      → String
      → DeploymentUpsert
      → String
      → Option String
      → DeploymentStatus
      → DeploymentRead
  expected namespace name body image resource_version status = record {
    name = name;
    namespace = namespace;
    generation = pos 0;
    resource_version = text_or_empty resource_version;
    created_at = none;
    spec = record {
      model = body.model;
      version = body.version;
      runtime_image = image;
      replicas = pos body.replicas;
      port = pos body.port;
      resources = body.resources;
    };
    status = status;
  }

  -- For valid resources and validators that accept an empty status, reading the desired object
  -- gives back the name, namespace, model, version, image, replicas, port and resources it was
  -- built from, and the resource version if one was given, with the digest and the resource
  -- version present or not.
  pub resource_to_read-desired_resource :
      (namespace name : String) (body : DeploymentUpsert) (image : String)
      (digest resource_version : Option String) (status : DeploymentStatus)
      → c.IsValid body.resources
      → c.status (obj end) ≡ some status
      → resource_to_read c
          (desired_resource namespace name body image digest (as_json resource_version))
        ≡ some (expected namespace name body image resource_version status)
  unfolding resource_to_read desired_resource
  resource_to_read-desired_resource namespace name body image digest resource_version status valid
        s =
      rw
        (
          member-metadata_of "generation" namespace name digest (as_json resource_version) refl refl
              refl refl refl,
          member-metadata_of "creationTimestamp" namespace name digest (as_json resource_version)
              refl refl refl refl refl,
          resource_version_read namespace name digest resource_version,
          s,
          c.text-str name,
          c.text-str namespace,
          c.text-str (text_or_empty resource_version),
          c.text-str body.model,
          c.text-str body.version,
          c.text-str image,
          c.integer-int 0,
          c.integer-int body.replicas,
          c.integer-int body.port,
          c.time-null,
          c.resources-dump body.resources valid,
        )
        refl

-- The status shown for a gateway error is the error's own for 404, 409 and 422, and 503 for
-- every other one.
pub deployment_error_status :
    (error : DeploymentGatewayError) (namespace name : String)
    → let status : ℕ = (deployment_error error namespace name).status_code in
      ((status ≡ error.status) × ((status ≡ 404) ⊎ ((status ≡ 409) ⊎ (status ≡ 422))))
      ⊎ ((status ≡ 503) × (error.status ≢ 404) × (error.status ≢ 409) × (error.status ≢ 422))
unfolding deployment_error
deployment_error_status error namespace name = ground arith
