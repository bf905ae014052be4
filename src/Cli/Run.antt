-- ===== src/Cli/Run.antt =====
-- run of app/cli.py once argparse has parsed the arguments: the request that is sent, and what is printed.
use Prim.Native.String.{◌∷◌ as char, [] as blank, ◌++◌ as append}
use Prim.Native.Char.{code}
use kernexys.Prelude.{
  ℕ, String, Bool, true, false, not, ◌&&◌, Option, none, some, List, [], ◌∷◌, ◌++◌, Result, ok, err,
  ◌>>=◌, ◌==◌, eqb, if◌then◌else◌, ℤ, pos, negsuc,
}
use kernexys.Prelude.Dict.{Dict}
use kernexys.Json.{Json, str, int, negative, obj, bool, Fields, field, end, member}
use kernexys.Metrics.Format.{str as decimal}
use kernexys.Cli.Quote.{codes, deployment_path}

pub record Deploy : Type 0 where
  pub model : String
  pub version : String
  pub replicas : ℤ
  pub port : ℤ
  pub request : List String
  pub limit : List String

pub data Command : Type 0 where
  deploy : Deploy → Command
  status : Command
  delete : Command
  rollback : String → Command

-- parser.parse_args
pub record Arguments (Double : Type 0) : Type 0 where
  pub api_url : String
  pub timeout : Double
  pub name : String
  pub namespace : String
  pub command : Command

-- value.partition("="): before, whether there is one, and after
unfoldable pub partition : String → String × Bool × String
partition blank = ("", false, "")
partition (char c s) =
    let (before, found, after) = partition s in
    if eqb (code c) b'=' then ("", true, s) else (char c before, found, after)

-- result[name] = quantity
unfoldable pub assign : String → String → Dict String → Dict String
assign name quantity [] = (name, quantity) ∷ []
assign name quantity ((k, v) ∷ d) =
    let rest : Dict String = assign name quantity d in
    if k == name then (k, quantity) ∷ d else (k, v) ∷ rest

abbrev pub is_key_value : String × Bool × String → Bool
is_key_value (name, separator, quantity) = separator && not (name == "") && not (quantity == "")

abbrev pub with_value : String → String × Bool × String → Dict String → Result String (Dict String)
with_value value (name, separator, quantity) result =
    if is_key_value (name, separator, quantity)
    then ok (assign name quantity result)
    else err (append "resource value must be NAME=QUANTITY: " value)

-- the loop of _key_values; an error is the message of parser.error
unfoldable pub key_values_from : Dict String → List String → Result String (Dict String)
unfolding partition assign
key_values_from result [] = ok result
key_values_from result (value ∷ values) = do
  result' ← with_value value (partition value) result
  key_values_from result' values

unfoldable pub key_values : List String → Result String (Dict String)
unfolding key_values_from
key_values values = key_values_from [] values

abbrev number : ℤ → Json
number (pos n) = int n
number (negsuc n) = negative n

abbrev texts : Dict String → Fields
texts [] = end
texts ((k, v) ∷ d) = field k (str v) (texts d)

-- the payload of `deploy`
unfoldable pub deploy_payload : Deploy → Result String Json
unfolding key_values
deploy_payload d = do
  requests ← key_values d.request
  limits ← key_values d.limit
  ok (
      obj (
        field "model" (str d.model) (
          field "version" (str d.version) (
            field "replicas" (number d.replicas) (
              field "port" (number d.port) (
                field "resources"
                  (obj (
                    field "requests" (obj (texts requests))
                      (field "limits" (obj (texts limits)) end)))
                  end))))))

-- the URL and the texts of the headers by code points
pub record Request : Type 0 where
  pub url : List ℕ
  pub data_json : Option Json
  pub headers : Dict String
  pub method : String

-- api_url.rstrip("/")
unfoldable pub strip_slashes : List ℕ → List ℕ
strip_slashes [] = []
strip_slashes (c ∷ s) = keep (strip_slashes s)
  where
    keep : List ℕ → List ℕ
    keep [] = if eqb c b'/' then [] else c ∷ []
    keep (d ∷ rest) = c ∷ d ∷ rest

module _ {Double : Type 0} (a : Arguments Double) (token : String) where
  abbrev pub request_with : String → List ℕ → Option Json → Request
  request_with method path payload = record {
    url = strip_slashes (codes a.api_url) ++ path;
    data_json = payload;
    headers =
        ("Accept", "application/json")
        ∷ ("Content-Type", "application/json")
        ∷ ("X-Request-ID", append "kernexysctl-" token)
        ∷ [];
    method = method;
  }

  abbrev path : List ℕ
  path = deployment_path a.namespace a.name

  abbrev pub request_for : Command → Result String Request
  request_for (Command.deploy d) = do
    payload ← deploy_payload d
    ok (request_with "PUT" path (some payload))
  request_for Command.status = ok (request_with "GET" path none)
  request_for Command.delete = ok (request_with "DELETE" path none)
  request_for (Command.rollback version) = ok (
      request_with "POST" (path ++ codes "/rollback")
        (some (obj (field "version" (str version) end))))

  -- the method, path and payload of the command
  unfoldable pub build_request : Result String Request
  unfolding deploy_payload strip_slashes deployment_path
  build_request = request_for a.command

-- What opener(request) and response.read() come to; `raised` is any exception but the two that are caught.
pub data Opened (Content : Type 0) : Type 0 where
  responded : Content → Opened Content
  http_error : ℕ → Content → Opened Content
  url_error : String → Opened Content
  raised : Opened Content

pub data Ending : Type 0 where
  -- the exit code with what was printed on stdout or on stderr
  printed : ℕ → String → Ending
  reported : ℕ → String → Ending
  -- parser.error: the usage and the message on stderr, exit code 2
  usage_error : String → Ending
  traceback : Ending

-- What the CLI does with JSON: json.loads of the bytes of a response, none for a JSONDecodeError or a
-- UnicodeDecodeError; json.dumps(value, indent=2, sort_keys=True); str of a value that is no text.
pub record Printing (Content : Type 0) : Type 0 where
  pub is_empty : Content → Bool
  pub loads : Content → Option Json
  pub pretty : Json → String
  pub dumps : Json → String
  pub text_of : Json → String

module _ {Content : Type 0} (p : Printing Content) where
  abbrev shown : Json → String
  shown (str s) = s
  shown other = p.text_of other

  abbrev message_or : String → Option Json → String
  message_or fallback none = fallback
  message_or fallback (some j) = shown j

  -- parsed.get("error", {}).get("message", fallback), the fallback for an AttributeError
  abbrev message_of : String → Option Json → String
  message_of fallback none = fallback
  message_of fallback (some (obj d)) = message_or fallback (member "message" d)
  message_of fallback (some other) = fallback

  abbrev pub parsed_message : String → Option Json → String
  parsed_message fallback (some (obj d)) = message_of fallback (member "error" d)
  parsed_message fallback other = fallback

  -- the message that _print_error prints
  unfoldable pub error_message : Content → String → String
  error_message content fallback = parsed_message fallback (p.loads content)

  module _ {Double : Type 0} (a : Arguments Double) where
    abbrev pub print_parsed : Option Json → Ending
    print_parsed none = traceback
    print_parsed (some j) = printed 0 (p.pretty j)

    unfoldable pub print_response : Content → Ending
    print_response content =
        if p.is_empty content
        then printed 0 (
            p.dumps (
              obj (
                field "deleted" (bool true)
                  (field "name" (str a.name) (field "namespace" (str a.namespace) end)))))
        else print_parsed (p.loads content)

    abbrev pub ending_of : Opened Content → Ending
    ending_of (responded content) = print_response content
    ending_of (http_error status_code content) =
        reported 1
          (error_message content (append "control API returned HTTP " (decimal status_code)))
    ending_of (url_error reason) = reported 1 (append "control API request failed: " reason)
    ending_of raised = traceback

    abbrev pub sent : (Request → Opened Content) → Result String Request → Ending × List Request
    sent opener (err message) = (usage_error message, [])
    sent opener (ok request) = (ending_of (opener request), request ∷ [])

    -- with the requests that were sent; `token` is uuid4()
    unfoldable pub run :
        (Double → Bool) → String → (Request → Opened Content) → Ending × List Request
    unfolding build_request print_response error_message
    run at_most_zero token opener =
        if at_most_zero a.timeout
        then (usage_error "--timeout must be greater than zero", [])
        else sent opener (build_request a token)
