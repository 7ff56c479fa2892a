-- ===== src/Gateway/Handler.antt =====
-- `GitHubWebhookGateway.handle` of src/app/gateway/github.py. The standard library's digest, JSON
-- reader and clock are parameters, as are a fresh event id and correlation id.
use qaestro.Prelude.{
  ℕ, ℤ, String, Bool, true, false, Option, none, some, [], ◌∷◌, ◌||◌, Result, ok, err,
  if◌then◌else◌, ◌==◌, string_eq, lower, Dict, lookup, insert, text_or,
}
use qaestro.Prelude.Exec.{Exec}
use qaestro.Json.{Json, Fields, str, obj, get_default}
use qaestro.Contracts.{Timestamp}
use qaestro.Jobs.{QueueError}
use qaestro.Gateway.{Fault}
use qaestro.Gateway.Signature.{verify_signature}
use qaestro.Gateway.Raw.{RawEvent, RawJob}
use qaestro.Gateway.Values.{Read}
use qaestro.Gateway.Parsers.{
  Delivery, parse_github_pr_event, parse_github_ci_event, parse_github_pr_review_event,
  parse_github_comment_event,
}

pub record WebhookRequest (Body : Type 0) : Type 0 where
  pub headers : Dict String String
  pub body : Body

pub record WebhookResponse : Type 0 where
  pub status : ℕ
  pub message : String
  pub correlation_id : String

pub data GatewayError : Type 0 where
  fault : Fault → GatewayError
  queue_error : QueueError → GatewayError

-- `EnqueueQueue`, with the standard library as the gateway uses it. `loads` is
-- `json.loads(body.decode("utf-8"))`, `none` where one of the two raises.
pub record Gateway (Body Q : Type 0) : Type 0 where
  pub secret : String
  pub enqueue : RawJob → Exec QueueError Q (Unit {0})
  pub hexdigest : String → Body → String
  pub loads : Body → Option Json
  pub int_of_text : String → Option ℤ

-- What a delivery finds in its surroundings: the clock and two fresh identifiers.
pub record Surroundings : Type 0 where
  pub now : Timestamp
  pub event_id : String
  pub new_correlation_id : String

-- The queue, and the correlation id of the current context (src/shared/tracing.py).
pub record GatewayState (Q : Type 0) : Type 0 where
  pub queue : Q
  pub correlation_id : String

unfoldable pub normalise_headers : Dict String String → Dict String String → Dict String String
normalise_headers done [] = done
normalise_headers done ((key, value) ∷ rest) =
    normalise_headers (insert (lower key) value done) rest

abbrev pub default_text : String → Option String → String
default_text d none = d
default_text d (some s) = s

-- `headers.get("x-github-delivery") or new_correlation_id()`
unfoldable pub correlation_id_of : Dict String String → String → String
correlation_id_of headers new_id =
    text_or (default_text "" (lookup "x-github-delivery" headers)) new_id

-- `str(payload.get("action", ""))`; of a value that is no text, `str` makes the name of no action.
unfoldable pub action_of : Json → String
action_of (str s) = s
action_of value = ""

unfoldable pub parse_event :
    (String → Option ℤ) → Delivery → String → Fields → Read (Option RawEvent)
parse_event int_of_text d event_name payload =
    if event_name == "pull_request"
    then parse_github_pr_event int_of_text d payload
        (action_of (get_default "action" (str "") payload))
    else if event_name == "workflow_run"
    then parse_github_ci_event int_of_text d payload
    else if event_name == "pull_request_review"
    then parse_github_pr_review_event int_of_text d payload
    else if event_name == "issue_comment" || event_name == "pull_request_review_comment"
    then parse_github_comment_event int_of_text d payload
    else ok none

abbrev pub response : ℕ → String → String → WebhookResponse
response status message correlation_id = record {
  status = status;
  message = message;
  correlation_id = correlation_id;
}

abbrev pub new_job : RawEvent → String → RawJob
new_job event correlation_id = record {
  event = event;
  correlation_id = correlation_id;
  delivery_id = "";
}

module _ {Body Q : Type 0} (g : Gateway Body Q) (around : Surroundings) where
  abbrev pub queued :
      String
      → Result QueueError (Unit {0}) × Q
      → Result GatewayError WebhookResponse × GatewayState Q
  queued id (err e, q) = (err (queue_error e), record { queue = q; correlation_id = id })
  queued id (ok done, q) =
      (ok (response 202 "enqueued" id), record { queue = q; correlation_id = id })

  unfoldable pub after_parse :
      String → Read (Option RawEvent) → Exec GatewayError (GatewayState Q) WebhookResponse
  after_parse id (err e) s = (err (fault e), s)
  after_parse id (ok none) s = (ok (response 204 "" id), s)
  after_parse id (ok (some event)) s = queued id (g.enqueue (new_job event id) s.queue)

  abbrev pub delivery : String → Delivery
  delivery id = record { event_id = around.event_id; now = around.now; correlation_id = id }

  unfoldable pub after_loads :
      String → String → Option Json → Exec GatewayError (GatewayState Q) WebhookResponse
  after_loads id event_name none s = (ok (response 400 "invalid json" id), s)
  after_loads id event_name (some (obj payload)) s =
      after_parse id (parse_event g.int_of_text (delivery id) event_name payload) s
  after_loads id event_name (some value) s =
      (ok (response 400 "payload must be a JSON object" id), s)

  unfoldable pub after_verify :
      Dict String String
      → Body
      → Result Fault Bool
      → Exec GatewayError (GatewayState Q) WebhookResponse
  after_verify headers body (err e) s = (err (fault e), s)
  after_verify headers body (ok false) s = (ok (response 401 "invalid signature" ""), s)
  after_verify headers body (ok true) s =
      let id = correlation_id_of headers around.new_correlation_id in
      after_loads id (default_text "" (lookup "x-github-event" headers)) (g.loads body)
        (record s { correlation_id = id })

  unfoldable pub handle : WebhookRequest Body → Exec GatewayError (GatewayState Q) WebhookResponse
  handle request s =
      let headers = normalise_headers [] request.headers in
      after_verify headers request.body
        (verify_signature g.hexdigest g.secret request.body (lookup "x-hub-signature-256" headers))
        s
