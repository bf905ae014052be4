-- ===== src/Deployments/Resources.antt =====
-- The ModelDeployment object: _desired_resource builds it, _resource_to_read reads one.
use kernexys.Prelude.{
  ℕ, String, Bool, true, false, not, ◌&&◌, ◌||◌, Option, none, some, List, [], ◌∷◌, ◌≡◌, ◌==◌,
  if◌then◌else◌, ℤ, pos, eqb, leb, ltb,
}
use Prim.Native.String.{◌∷◌ as char, [] as blank}
use Prim.Native.Char.{code}
use kernexys.Prelude.Dict.{Dict}
use kernexys.Json.{
  Json, str, int, negative, real, bool, obj, arr, nil, cons, null, Fields, field, end, member,
}

pub record DeploymentResources : Type 0 where
  pub requests : Dict String
  pub limits : Dict String

-- validated by pydantic: names and bounds hold
pub record DeploymentUpsert : Type 0 where
  pub model : String
  pub version : String
  pub replicas : ℕ
  pub port : ℕ
  pub resources : DeploymentResources

pub record DeploymentCondition : Type 0 where
  pub kind : String
  pub status : String
  pub observed_generation : ℤ
  pub reason : String
  pub message : String
  pub last_transition_time : Option String

pub record DeploymentStatus : Type 0 where
  pub observed_generation : ℤ
  pub desired_replicas : ℤ
  pub ready_replicas : ℤ
  pub active_model : String
  pub active_version : String
  pub endpoint : String
  pub conditions : List DeploymentCondition

pub record DeploymentSpecRead : Type 0 where
  pub model : String
  pub version : String
  pub runtime_image : String
  pub replicas : ℤ
  pub port : ℤ
  pub resources : DeploymentResources

pub record DeploymentRead : Type 0 where
  pub name : String
  pub namespace : String
  pub generation : ℤ
  pub resource_version : String
  pub created_at : Option String
  pub spec : DeploymentSpecRead
  pub status : DeploymentStatus

abbrev pub texts : Dict String → Fields
texts [] = end
texts ((k, v) ∷ d) = field k (str v) (texts d)

-- model_dump
abbrev pub dump : DeploymentResources → Json
dump r = obj (field "requests" (obj (texts r.requests)) (field "limits" (obj (texts r.limits)) end))

-- The validators of pydantic, `none` for a ValidationError.
pub record Schemas : Type 1 where
  pub text : Json → Option String
  pub integer : Json → Option ℤ
  pub time : Json → Option (Option String)
  pub status : Json → Option DeploymentStatus
  pub resources : Json → Option DeploymentResources
  -- the quantities are stripped and well formed
  pub IsValid : DeploymentResources → Type 0
  pub text-str : (s : String) → text (str s) ≡ some s
  pub integer-int : (n : ℕ) → integer (int n) ≡ some (pos n)
  pub time-null : time null ≡ some none
  pub resources-dump : (r : DeploymentResources) → IsValid r → resources (dump r) ≡ some r
  -- DeploymentUpsert(model=…, version=…, replicas=…, port=…, resources=…)
  pub upsert : String → String → Json → Json → Json → Option DeploymentUpsert
  -- names, bounds and resources hold already
  pub IsUpsert : DeploymentUpsert → Type 0
  pub upsert-dump :
      (u : DeploymentUpsert)
      → IsUpsert u
      → upsert u.model u.version (int u.replicas) (int u.port) (dump u.resources) ≡ some u

-- whether a float is not zero: its mantissa has another digit, or it is Infinity or NaN
unfoldable pub is_nonzero : String → Bool
is_nonzero blank = false
is_nonzero (char c s) =
    let rest : Bool = is_nonzero s in
    if eqb (code c) b'e' || eqb (code c) b'E'
    then false
    else if (leb b'1' (code c) && leb (code c) b'9') || eqb (code c) b'I' || eqb (code c) b'N'
    then true
    else rest

-- the truth value of a Python value
abbrev pub is_true : Json → Bool
is_true null = false
is_true (bool b) = b
is_true (int n) = ltb 0 n
is_true (negative n) = true
is_true (real t) = is_nonzero t
is_true (str s) = not (s == "")
is_true (arr nil) = false
is_true (arr (cons v items)) = true
is_true (obj end) = false
is_true (obj (field k v d)) = true

-- a key that is there only for a true value
abbrev pub optional : String → Option Json → (Json → Json) → Fields → Fields
optional k none f d = d
optional k (some v) f d = if is_true v then field k (f v) d else d

abbrev pub as_json : Option String → Option Json
as_json none = none
as_json (some s) = some (str s)

abbrev pub labels : Json
labels = obj (
    field "app.kubernetes.io/managed-by" (str "kernexys-control-api")
      (field "app.kubernetes.io/part-of" (str "kernexys") end))

abbrev pub metadata_of : String → String → Option String → Option Json → Fields
metadata_of namespace name artifact_digest resource_version = field "name" (str name) (
    field "namespace" (str namespace) (
      field "labels" labels (
        optional "annotations" (as_json artifact_digest)
          (λ digest. obj (field "platform.kernexys.io/artifact-digest" digest end))
          (optional "resourceVersion" resource_version (λ v. v) end))))

-- _desired_resource
unfoldable pub desired_resource :
    String → String → DeploymentUpsert → String → Option String → Option Json → Fields
desired_resource namespace name desired runtime_image artifact_digest resource_version =
    field "apiVersion" (str "platform.kernexys.io/v1alpha1") (
      field "kind" (str "ModelDeployment") (
        field "metadata" (obj (metadata_of namespace name artifact_digest resource_version)) (
          field "spec"
            (obj (
              field "model"
                (obj (field "name" (str desired.model) (field "version" (str desired.version) end)))
                (field "runtime"
                  (obj (field "image" (str runtime_image) (field "port" (int desired.port) end)))
                  (field "replicas" (int desired.replicas)
                    (field "resources" (dump desired.resources) end)))))
            end)))

infixl 10 ◌>>=◌
abbrev ◌>>=◌ : {A B : Type 0} → Option A → (A → Option B) → Option B
none >>= f = none
some a >>= f = f a

-- x[key] of a value that should be a dict
abbrev pub as_dict : Json → Option Fields
as_dict (obj d) = some d
as_dict other = none

abbrev pub item : String → Fields → Option Fields
item k d = member k d >>= as_dict

-- d.get(key, default)
abbrev pub default : Json → Option Json → Json
default v none = v
default v (some w) = w

module _ (c : Schemas) where
  -- DeploymentSpecRead(...)
  abbrev pub read_spec : Fields → Fields → Fields → Option DeploymentSpecRead
  read_spec spec model runtime = do
    model_name ← member "name" model >>= c.text
    version ← member "version" model >>= c.text
    image ← member "image" runtime >>= c.text
    replicas ← c.integer (default (int 1) (member "replicas" spec))
    port ← c.integer (default (int 8080) (member "port" runtime))
    resources ← c.resources (default (obj end) (member "resources" spec))
    some (record {
      model = model_name;
      version = version;
      runtime_image = image;
      replicas = replicas;
      port = port;
      resources = resources;
    })

  -- _resource_to_read; `none` is its 502
  unfoldable pub resource_to_read : Fields → Option DeploymentRead
  resource_to_read resource = do
    metadata ← item "metadata" resource
    spec ← item "spec" resource
    model ← item "model" spec
    runtime ← item "runtime" spec
    status ← c.status (default (obj end) (member "status" resource))
    name ← member "name" metadata >>= c.text
    namespace ← member "namespace" metadata >>= c.text
    generation ← c.integer (default (int 0) (member "generation" metadata))
    resource_version ← c.text (default (str "") (member "resourceVersion" metadata))
    created_at ← c.time (default null (member "creationTimestamp" metadata))
    read ← read_spec spec model runtime
    some (record {
      name = name;
      namespace = namespace;
      generation = generation;
      resource_version = resource_version;
      created_at = created_at;
      spec = read;
      status = status;
    })
