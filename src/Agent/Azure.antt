-- ===== src/Agent/Azure.antt =====
-- The live client of src/runtime/agent/azure_openai.py and its smoke probe. `urllib` and the
-- environment are parameters.
use qaestro.Prelude.{
  ℤ, pos, String, Bool, Option, none, some, List, [], ◌∷◌, Dict, ◌++◌, Result, ok, err, Exception,
  if◌then◌else◌, ◌⋈◌, int_text, is_set, join, rstrip_chars,
}
use qaestro.Prelude.Exec.{Exec, lift, ◌>>=◌}
use qaestro.Json.{
  Json, null, float, str, arr, obj, Items, nil, cons, Fields, field, end, get, get_default,
}
use qaestro.Tools.{validator}
use qaestro.Sessions.{AgentRunInput, RunRequest}
use qaestro.GitHub.Http.{Library, loads_body}
use qaestro.GitHub.Payload.{text_of}
use qaestro.Config.{AgentRuntimeConfig}
use qaestro.Agent.Health.{LiveSmokeProbeStatus, not_requested, succeeded, failed}
use qaestro.Agent.Runner.{ClientResponse, ChatClient, credential_of, redact_secret, azure_request}

abbrev pub text_and : Json → List String → List String
text_and (str s) rest = s ∷ rest
text_and v rest = rest

-- The texts of the objects in a content list, and of the contents of an output.
unfoldable pub content_texts : Items → List String
content_texts nil = []
content_texts (cons (obj fs) xs) = text_and (get_default "text" null fs) (content_texts xs)
content_texts (cons x xs) = content_texts xs

abbrev pub texts_of_content : Json → List String
texts_of_content (arr xs) = content_texts xs
texts_of_content v = []

unfoldable pub output_texts : Items → List String
unfolding content_texts
output_texts nil = []
output_texts (cons (obj fs) xs) =
    texts_of_content (get_default "content" null fs) ++ output_texts xs
output_texts (cons x xs) = output_texts xs

abbrev pub output_or_texts : Json → Json → String
output_or_texts (str s) output = s
output_or_texts v (arr xs) = join "" (output_texts xs)
output_or_texts v output = ""

-- `_extract_output_text`
unfoldable pub extract_output_text : Json → String
extract_output_text (obj fs) =
    output_or_texts (get_default "output_text" null fs) (get_default "output" null fs)
extract_output_text v = ""

-- What opening an address raises: `HTTPError` with its code and body, `URLError` and its kin by
-- their text, or any other exception.
pub data UrlFault (B : Type 0) : Type 0 where
  http_error : ℤ → B → UrlFault B
  os_error : String → UrlFault B
  other : Exception → UrlFault B

-- `urlopen` of a POST request, read to its end: address, headers, body and timeout.
abbrev pub Urlopen : Type 0 → Type 0 → Type 0
Urlopen B W = String → Dict String String → B → Json → Exec (UrlFault B) W B

abbrev pub required : String → Fields → Result Exception Json
required key fs = elim (get key fs) [
  | none ↦ err (record { class_name = "KeyError"; message = key })
  | some v ↦ ok v
]

module _ {B W : Type 0} (lib : Library B) (float_of : Json → Result Exception Json)
    (urlopen : Urlopen B W) where
  -- The timeout is a number or a text, or else a minute.
  abbrev pub timeout_of : Json → Result Exception Json
  timeout_of null = ok (float (pos 60) 0)
  timeout_of (arr xs) = ok (float (pos 60) 0)
  timeout_of (obj fs) = ok (float (pos 60) 0)
  timeout_of v = float_of v

  abbrev pub reply_of : Result Exception Json → Result Exception ClientResponse
  reply_of (err e) = err e
  reply_of (ok payload) = ok (record { output_text = extract_output_text payload; error = "" })

  abbrev pub response_of : Result (UrlFault B) B → Result Exception ClientResponse
  response_of (ok body) = reply_of (loads_body lib body)
  response_of (err (http_error code body)) = ok (record {
    output_text = "";
    error = "Azure OpenAI HTTP " ⋈ int_text code ⋈ ": " ⋈ lib.decode_replace body;
  })
  response_of (err (os_error text)) = ok (record { output_text = ""; error = text })
  response_of (err (other e)) = err e

  abbrev pub post : String → Dict String String → B → Json → Exec Exception W ClientResponse
  post url headers body timeout w =
      let (r, w') = urlopen url headers body timeout w in (response_of r, w')

  -- `AzureOpenAIHTTPClient.complete`, of the client with this credential.
  unfoldable pub complete : String → ChatClient W
  complete credential request = do
    endpoint ← lift (required "endpoint" request)
    deployment ← lift (required "deployment" request)
    prompt ← lift (required "prompt" request)
    temperature ← lift (required "temperature" request)
    timeout_value ← lift (required "timeout_seconds" request)
    timeout ← lift (timeout_of timeout_value)
    post (rstrip_chars "/" (text_of lib endpoint) ⋈ "/responses")
        (("Content-Type", "application/json") ∷ ("api-key", credential) ∷ [])
        (lib.dumps (
          obj (
            field "model" (str (text_of lib deployment))
              (field "input" (str (text_of lib prompt)) (field "temperature" temperature end)))))
        timeout

  pub record LiveSmokeResult : Type 0 where
    pub status : LiveSmokeProbeStatus
    pub output_text : String
    pub error : String

  -- The probe's request has the timeout of the configuration, as a request without one.
  abbrev pub smoke_input : AgentRunInput RunRequest
  smoke_input = record {
    stage = validator;
    rest = record {
      prompt = "Respond with exactly: qaestro-live-smoke-ok";
      context = none;
      allowed_tools = [];
      max_turns = some (pos 1);
      max_tool_calls = some (pos 0);
      timeout_seconds = none;
    };
    correlation_id = "azure-openai-live-smoke";
    allowed_tool_names = [];
  }

  abbrev pub smoke_result : String → Result Exception ClientResponse → LiveSmokeResult
  smoke_result credential (err e) = record {
    status = failed;
    output_text = "";
    error = redact_secret e.message credential;
  }
  smoke_result credential (ok r) =
      if is_set r.error
      then record { status = failed; output_text = ""; error = redact_secret r.error credential }
      else record { status = succeeded; output_text = r.output_text; error = "" }

  abbrev pub client_or_live : Option (ChatClient W) → String → ChatClient W
  client_or_live none credential = complete credential
  client_or_live (some client) credential = client

  -- `run_azure_openai_live_smoke`
  unfoldable pub run_live_smoke :
      AgentRuntimeConfig
      → (String → Option String)
      → Option (ChatClient W)
      → Bool
      → W
      → LiveSmokeResult × W
  unfolding complete
  run_live_smoke config environ client opt_in w =
      if opt_in
      then (let credential = credential_of config environ in
          let (r, w') =
            client_or_live client credential (azure_request config smoke_input credential) w in
          (smoke_result credential r, w'))
      else (record { status = not_requested; output_text = ""; error = "" }, w)
