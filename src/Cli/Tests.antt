-- ===== src/Cli/Tests.antt =====
-- The theorems at concrete commands, and the requests of the command line.
use kernexys.Prelude.{arith, ℕ, String, false, none, some, List, [], ◌∷◌, ◌≡◌, refl, ok, err, eqb}
use kernexys.Prelude.Dict.{Dict, lookup}
use kernexys.Json.{Json, str, obj, field, end}
use kernexys.Errors.{error_response}
use kernexys.Cli.Quote.{quote, codes}
use kernexys.Cli.Paths.{deployment_path-inj}
use kernexys.Cli.Run.{
  Arguments, Command, Request, Opened, Ending, Printing, run, build_request, key_values,
}
use kernexys.Cli.Reports.{run-error_response, given, HasNoEquals, AreGiven, key_values-given}

-- "é" is two bytes
quoted : quote "a b/é" ≡ codes "a%20b%2F%C3%A9"
unfolding quote
quoted = refl

abbrev team : String
team = "team a"

abbrev web : String
web = "web/1"

deployment_path-inj_example : (team ≡ team) × (web ≡ web)
deployment_path-inj_example = deployment_path-inj team web team web refl

abbrev arguments : Arguments ℕ
arguments = record {
  api_url = "http://api.example/";
  timeout = 4;
  name = "web";
  namespace = "demo";
  command = Command.rollback "v1";
}

abbrev request : Request
request = record {
  url = codes "http://api.example/v1/deployments/demo/web/rollback";
  data_json = some (obj (field "version" (str "v1") end));
  headers =
      ("Accept", "application/json")
      ∷ ("Content-Type", "application/json")
      ∷ ("X-Request-ID", "kernexysctl-7")
      ∷ [];
  method = "POST";
}

built : build_request arguments "7" ≡ ok request
unfolding build_request
built = refl

-- bodies that are JSON values
abbrev printing : Printing Json
printing = record {
  is_empty = λ j. false;
  loads = λ j. some j;
  pretty = λ j. "{}";
  dumps = λ j. "{}";
  text_of = λ j. "";
}

abbrev refusal : Json
refusal =
    (error_response (some "r-1") 404 "model_version_not_found" "Model version 'm:v1' was not found."
      none).content

run-error_response_example :
    run printing arguments (λ t. eqb t 0) "7" (λ r. Opened.http_error 404 refusal)
    ≡ (Ending.reported 1 "Model version 'm:v1' was not found.", request ∷ [])
run-error_response_example =
    run-error_response printing arguments (λ t. eqb t 0) "7" (λ r. Opened.http_error 404 refusal)
      request 404 refusal (some "r-1") "model_version_not_found"
      "Model version 'm:v1' was not found." none refl built refl refl

no_time :
    run printing (record arguments { timeout = 0 }) (λ t. eqb t 0) "7" (λ r. Opened.raised)
    ≡ (Ending.usage_error "--timeout must be greater than zero", [])
unfolding run
no_time = refl

refused : key_values ("cpu=1" ∷ "memory" ∷ []) ≡ err "resource value must be NAME=QUANTITY: memory"
unfolding key_values
refused = refl

abbrev values : List (String × String)
values = ("cpu", "100m") ∷ ("memory", "1Gi") ∷ ("cpu", "a=b") ∷ []

cpu-HasNoEquals : HasNoEquals "cpu"
cpu-HasNoEquals = (omega arith, (omega arith, (omega arith, tt)))

memory-HasNoEquals : HasNoEquals "memory"
memory-HasNoEquals =
    (omega arith, (omega arith, (omega arith, (omega arith, (omega arith, (omega arith, tt))))))

values-AreGiven : AreGiven values
values-AreGiven = (
  λ h. cc,
  cpu-HasNoEquals,
  λ h. cc,
  (λ h. cc, memory-HasNoEquals, λ h. cc, (λ h. cc, cpu-HasNoEquals, λ h. cc, tt)),
)

key_values-given_example :
    (d : Dict String) × (key_values ("cpu=100m" ∷ "memory=1Gi" ∷ "cpu=a=b" ∷ []) ≡ ok d)
    × ((k : String) → lookup k d ≡ given k values)
key_values-given_example = key_values-given values values-AreGiven

last_wins : given "cpu" values ≡ some "a=b"
last_wins = refl
