-- ===== src/Deployments/Tests.antt =====
-- The theorems at a cluster that holds one object, and a small version of the validators.
use kernexys.Prelude.{
  ℕ, ◌==◌, if◌then◌else◌, String, Option, none, some, [], ◌∷◌, ◌≡◌, ◌↔◌, refl, ap, ok, ℤ, pos,
}
use kernexys.Prelude.Dict.{Dict}
use kernexys.Json.{Json, str, int, obj, arr, nil, cons, null, Fields, field, end, member}
use kernexys.Kubernetes.{Cluster, Outcome, value, api_exception, DeploymentGatewayError}
use kernexys.Registry.Session.{ModelVersion, Others, World}
use kernexys.Registry.Memory.{memory, Memory, new_model, new_version}
use kernexys.Deployments.{put_deployment}
use kernexys.Deployments.Resources.{
  Schemas, DeploymentResources, DeploymentUpsert, DeploymentStatus, desired_resource,
  resource_to_read, texts, dump,
}
use kernexys.Deployments.Rollback.{rollback_deployment}
use kernexys.Deployments.Restored.{restored, rollback_deployment_applied}
use kernexys.Deployments.Ready.{ready_endpoint}
use kernexys.Deployments.Available.{IsReady, ready_endpoint-IsReady}
use kernexys.Deployments.Desired.{expected, resource_to_read-desired_resource}
use kernexys.Deployments.Observed.{Filled, IsStored, filled_read}
use kernexys.Deployments.Applied.{desired, unreported, put_deployment_applied}

abbrev text : Json → Option String
text (str s) = some s
text other = none

abbrev integer : Json → Option ℤ
integer (int n) = some (pos n)
integer other = none

abbrev time : Json → Option (Option String)
time null = some none
time (str s) = some (some s)
time other = none

abbrev and_entry : String → Json → Option (Dict String) → Option (Dict String)
and_entry k (str v) (some d) = some ((k, v) ∷ d)
and_entry k other d = none

abbrev entries : Fields → Option (Dict String)
entries end = some []
entries (field k v d) = let rest : Option (Dict String) = entries d in and_entry k v rest

abbrev pair : Option (Dict String) → Option (Dict String) → Option DeploymentResources
pair (some r) (some l) = some (record { requests = r; limits = l })
pair r l = none

abbrev resources : Json → Option DeploymentResources
resources (obj (field a (obj r) (field b (obj l) end))) = pair (entries r) (entries l)
resources other = none

entries-texts : (d : Dict String) → entries (texts d) ≡ some d
entries-texts [] = refl
entries-texts ((k, v) ∷ d) = ap (and_entry k (str v)) (entries-texts d)

resources-dump : (r : DeploymentResources) → Unit {0} → resources (dump r) ≡ some r
resources-dump r u = rw (entries-texts r.requests, entries-texts r.limits) refl

abbrev upsert_of :
    String → String → Option DeploymentResources → Json → Json → Option DeploymentUpsert
upsert_of model version (some r) (int replicas) (int port) =
    some
      (record { model = model; version = version; replicas = replicas; port = port; resources = r })
upsert_of model version r replicas port = none

abbrev upsert : String → String → Json → Json → Json → Option DeploymentUpsert
upsert model version replicas port r = upsert_of model version (resources r) replicas port

upsert-dump :
    (u : DeploymentUpsert)
    → Unit {0}
    → upsert u.model u.version (int u.replicas) (int u.port) (dump u.resources) ≡ some u
upsert-dump u h = rw (resources-dump u.resources h) refl

abbrev initial : DeploymentStatus
initial = record {
  observed_generation = pos 0;
  desired_replicas = pos 0;
  ready_replicas = pos 0;
  active_model = "";
  active_version = "";
  endpoint = "";
  conditions = [];
}

abbrev schemas : Schemas
schemas = record {
  text = text;
  integer = integer;
  time = time;
  status = λ j. some initial;
  resources = resources;
  IsValid = λ r. Unit {0};
  text-str = λ s. refl;
  integer-int = λ n. refl;
  time-null = refl;
  resources-dump = resources-dump;
  upsert = upsert;
  IsUpsert = λ u. Unit {0};
  upsert-dump = upsert-dump;
}

abbrev without : String → Fields → Fields
without k end = end
without k (field j v d) = let rest : Fields = without k d in if j == k then rest else field j v rest

-- what the server makes of an object: the sent resource version gives way to its own
abbrev filled_metadata : ℕ → String → Fields → Fields
filled_metadata generation version metadata = field "generation" (int generation) (
    field "resourceVersion" (str version)
      (field "creationTimestamp" (str "2024-05-01T08:00:00Z") (without "resourceVersion" metadata)))

abbrev filled_object : ℕ → String → Fields → Fields
filled_object generation version end = field "status" (obj end) end
filled_object generation version (field k (obj d) rest) =
    let rest' : Fields = filled_object generation version rest in
    if k == "metadata"
    then field k (obj (filled_metadata generation version d)) rest'
    else field k (obj d) rest'
filled_object generation version (field k v rest) =
    field k v (filled_object generation version rest)

abbrev written : Fields → Option Fields → Fields
written object none = filled_object 1 "1" object
written object (some old) = filled_object 2 "2" object

abbrev stored_object : Option Fields → Outcome Fields
stored_object none = api_exception (some 404) none
stored_object (some object) = value object

-- one object, and a client that never reports what it created
abbrev cluster : Cluster
cluster = record {
  Objects = Option Fields;
  get_api_resources = λ s. value tt;
  patch = λ namespace name object s. (value none, some (written object s));
  get_object = λ namespace name s. stored_object s;
  delete_object = λ namespace name s. (value tt, none);
}

-- what the server filled in after its n-th write
abbrev filled : ℕ → String → Filled
filled generation version = record {
  generation = generation;
  resource_version = version;
  timestamp = "2024-05-01T08:00:00Z";
  created_at = "2024-05-01T08:00:00Z";
  status = initial;
}

abbrev body : DeploymentUpsert
body = record {
  model = "iris";
  version = "v1";
  replicas = 2;
  port = 8080;
  resources = record { requests = ("cpu", "100m") ∷ []; limits = [] };
}

abbrev registered : ModelVersion
registered = new_version "iris" "v1" "image:1" (some "sha256:0") (str "meta") 0

abbrev registry : Memory
registry = record { models = ("iris", new_model "iris" none) ∷ []; versions = registered ∷ [] }

abbrev alone : Others memory
alone time rows = rows

abbrev start : World memory
start = record { rows = registry; time = 0 }

abbrev sent : Fields
sent = desired memory cluster schemas "prod" "iris" body registered

-- what the cluster holds after the put of `body`
abbrev held : Fields
held = written sent none

filled_object-IsStored :
    (u : DeploymentUpsert) (image : String) (digest : Option String) (sent_version : Option Json)
    (generation : ℕ) (version : String)
    → IsStored schemas
        (desired_resource "prod" "iris" u image digest sent_version)
        (filled generation version)
        (filled_object generation version
          (desired_resource "prod" "iris" u image digest sent_version))
unfolding desired_resource
filled_object-IsStored u image digest sent_version generation version = record {
  metadata = _;
  spec = _;
  model = _;
  runtime = _;
  has_metadata = refl;
  has_spec = refl;
  has_model = refl;
  has_runtime = refl;
  name_kept = refl;
  namespace_kept = refl;
  replicas_kept = refl;
  resources_kept = refl;
  model_kept = refl;
  version_kept = refl;
  image_kept = refl;
  port_kept = refl;
  generation_filled = refl;
  version_filled = refl;
  created_filled = refl;
  created_is = refl;
  status_is = refl;
}

held-IsStored : IsStored schemas sent (filled 1 "1") held
held-IsStored = filled_object-IsStored body "image:1" (some "sha256:0") none 1 "1"

put_deployment_applied_example :
    (put_deployment memory cluster schemas "prod" "iris" body alone start none).0
    ≡ (ok (filled_read schemas "prod" "iris" body "image:1" (filled 1 "1")), some held)
put_deployment_applied_example =
    put_deployment_applied memory cluster schemas "prod" "iris" body alone start registered
      (filled 1 "1") none (some held) held refl tt (unreported refl refl) held-IsStored

resource_to_read-desired_resource_example :
    resource_to_read schemas (desired_resource "prod" "iris" body "image:1" none (some (str "7")))
    ≡ some (expected schemas "prod" "iris" body "image:1" (some "7") initial)
resource_to_read-desired_resource_example =
    resource_to_read-desired_resource schemas "prod" "iris" body "image:1" none (some "7") initial
      tt refl

abbrev forbidden : DeploymentGatewayError
forbidden = record { status = 403; reason = "forbidden" }

abbrev condition : String → Json
condition status = obj (field "type" (str "Available") (field "status" (str status) end))

abbrev served : Fields
served =
    field "status"
      (obj (
        field "endpoint" (str "http://iris")
          (field "conditions" (arr (cons (condition "False") (cons (condition "True") nil))) end)))
      end

ready_endpoint-IsReady_example :
    (ready_endpoint served ≡ ok "http://iris") ↔ IsReady (member "status" served) "http://iris"
ready_endpoint-IsReady_example = ready_endpoint-IsReady served "http://iris"

abbrev next_version : ModelVersion
next_version = new_version "iris" "v2" "image:2" none (str "meta") 1

abbrev grown : Memory
grown = record registry { versions = next_version ∷ registered ∷ [] }

abbrev digest : Option String
digest = some "sha256:0"

abbrev sent_back : Fields
sent_back =
    restored schemas "prod" "iris" body "image:1" digest (filled 1 "1") held held-IsStored "v2"
      next_version

abbrev held_back : Fields
held_back = written sent_back (some held)

held_back-IsStored : IsStored schemas sent_back (filled 2 "2") held_back
held_back-IsStored =
    filled_object-IsStored (record body { version = "v2" }) "image:2" none (some (str "1")) 2 "2"

rollback_deployment_applied_example :
    (rollback_deployment memory cluster schemas "prod" "iris" "v2" alone
      (record { rows = grown; time = 0 })
      (some held)).0
    ≡ (
      ok (
          filled_read schemas "prod" "iris"
            (record body { version = "v2" })
            "image:2"
            (filled 2 "2")),
      some held_back,
    )
rollback_deployment_applied_example =
    rollback_deployment_applied schemas "prod" "iris" body "image:1" digest (filled 1 "1") held
      held-IsStored memory cluster "v2" alone (record { rows = grown; time = 0 }) next_version
      (filled 2 "2") (some held) (some held_back) held_back refl refl tt tt (unreported refl refl)
      held_back-IsStored
