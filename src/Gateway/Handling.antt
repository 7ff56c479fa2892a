-- ===== src/Gateway/Handling.antt =====
-- What a delivery does to the queue, and that its job survives the queue's encoding.
use qaestro.Prelude.{
  ℤ, String, ◌≡◌, refl, Bool, true, false, Option, none, some, [], Result, ok, err, Ensures, lookup,
  string_eq, ap, subst, sym, ◌∙◌,
}
use qaestro.Json.{Json, Fields, obj, null, bool, int, float, not_finite, str, arr}
use qaestro.Contracts.{
  Timestamp, Event, opened, updated, commented, reviewed, completed, mentioned, event_meta,
  class_type,
}
use qaestro.Jobs.{EventJob}
use qaestro.Jobs.Encode.{serialize_job}
use qaestro.Jobs.Read.{deserialize_job}
use qaestro.Jobs.RoundTrip.{deserialize-serialize_job}
use qaestro.Gateway.{Fault}
use qaestro.Gateway.Raw.{RawEvent, RawJob, raw_of, raw_meta, raw_type}
use qaestro.Gateway.Signature.{verify_signature}
use qaestro.Gateway.Values.{Read}
use qaestro.Gateway.Parsers.{Delivery, new_meta}
use qaestro.Gateway.Origin.{IsFrom, IsFromIfAny, parse_event-IsFrom}
use qaestro.Gateway.Handler.{
  WebhookRequest, WebhookResponse, response, new_job, GatewayError, fault, Gateway, Surroundings,
  GatewayState, normalise_headers, correlation_id_of, default_text, parse_event, delivery,
  after_parse, queued, after_loads, after_verify, handle,
}

module _ {Body Q : Type 0} (g : Gateway Body Q) (around : Surroundings) where
  module _ (request : WebhookRequest Body) where
    -- The outcome of the signature check of a request.
    abbrev pub verdict : Result Fault Bool
    verdict =
        verify_signature g.hexdigest g.secret request.body
          (lookup "x-hub-signature-256" (normalise_headers [] request.headers))

    abbrev pub id_of : String
    id_of = correlation_id_of (normalise_headers [] request.headers) around.new_correlation_id

    abbrev pub event_name_of : String
    event_name_of = default_text "" (lookup "x-github-event" (normalise_headers [] request.headers))

    abbrev pub job_of : RawEvent → RawJob
    job_of e = new_job e id_of

  -- What a request does, by its answer `a` and the state `s'` after it. Only an authentic request
  -- whose payload is an object that is parsed to an event reaches the queue, which then gets one job.
  pub data Handled (request : WebhookRequest Body) (s : GatewayState Q)
      (a : Result GatewayError WebhookResponse) (s' : GatewayState Q) : Type 0 where
    check_raised :
        (e : Fault) → verdict request ≡ err e → a ≡ err (fault e) → s' ≡ s → Handled request s a s'
    forged :
        verdict request ≡ ok false
        → a ≡ ok (response 401 "invalid signature" "")
        → s' ≡ s
        → Handled request s a s'
    refused :
        (message : String)
        → verdict request ≡ ok true
        → a ≡ ok (response 400 message (id_of request))
        → s'.queue ≡ s.queue
        → Handled request s a s'
    parser_raised :
        (payload : Fields) (e : Fault)
        → verdict request ≡ ok true
        → g.loads request.body ≡ some (obj payload)
        → parse_event g.int_of_text
            (delivery g around (id_of request))
            (event_name_of request)
            payload
          ≡ err e
        → a ≡ err (fault e)
        → s'.queue ≡ s.queue
        → Handled request s a s'
    ignored :
        (payload : Fields)
        → verdict request ≡ ok true
        → g.loads request.body ≡ some (obj payload)
        → parse_event g.int_of_text
            (delivery g around (id_of request))
            (event_name_of request)
            payload
          ≡ ok none
        → a ≡ ok (response 204 "" (id_of request))
        → s'.queue ≡ s.queue
        → Handled request s a s'
    accepted :
        (payload : Fields) (e : RawEvent)
        → verdict request ≡ ok true
        → g.loads request.body ≡ some (obj payload)
        → parse_event g.int_of_text
            (delivery g around (id_of request))
            (event_name_of request)
            payload
          ≡ ok (some e)
        → IsFrom (delivery g around (id_of request)) e
        → (a, s') ≡ queued g around (id_of request) (g.enqueue (job_of request e) s.queue)
        → Handled request s a s'

  module _ (request : WebhookRequest Body) (s : GatewayState Q) where
    IsHandled : Result GatewayError WebhookResponse × GatewayState Q → Type 0
    IsHandled p = Handled request s p.0 p.1

    -- The parser's outcome for the request's payload.
    parsed_of : Fields → Read (Option RawEvent)
    parsed_of payload =
        parse_event g.int_of_text (delivery g around (id_of request)) (event_name_of request)
          payload

    named_state : GatewayState Q
    named_state = record s { correlation_id = id_of request }

    after_parse-Handled :
        (payload : Fields)
        → verdict request ≡ ok true
        → g.loads request.body ≡ some (obj payload)
        → (r : Read (Option RawEvent)) → parsed_of payload ≡ r
        → Ensures (IsFromIfAny (delivery g around (id_of request))) r
        → IsHandled (after_parse g around (id_of request) r named_state)
    unfolding IsHandled parsed_of named_state after_parse
    after_parse-Handled payload v l (err e) p from = parser_raised payload e v l p refl refl
    after_parse-Handled payload v l (ok none) p from = ignored payload v l p refl refl
    after_parse-Handled payload v l (ok (some e)) p from =
        accepted payload e v l p (from.at (some e) refl) refl

    after_loads-Handled :
        verdict request ≡ ok true
        → (value : Option Json) → g.loads request.body ≡ value
        → IsHandled (after_loads g around (id_of request) (event_name_of request) value named_state)
    unfolding IsHandled parsed_of named_state after_loads
    after_loads-Handled v none l = refused "invalid json" v refl refl
    after_loads-Handled v (some (obj payload)) l =
        after_parse-Handled payload v l (parsed_of payload) refl (
          parse_event-IsFrom g.int_of_text (delivery g around (id_of request))
            (event_name_of request) payload)
    after_loads-Handled v (some null) l = refused "payload must be a JSON object" v refl refl
    after_loads-Handled v (some (bool b)) l = refused "payload must be a JSON object" v refl refl
    after_loads-Handled v (some (int n)) l = refused "payload must be a JSON object" v refl refl
    after_loads-Handled v (some (float m k)) l = refused "payload must be a JSON object" v refl refl
    after_loads-Handled v (some not_finite) l = refused "payload must be a JSON object" v refl refl
    after_loads-Handled v (some (str t)) l = refused "payload must be a JSON object" v refl refl
    after_loads-Handled v (some (arr xs)) l = refused "payload must be a JSON object" v refl refl

    after_verify-Handled :
        (r : Result Fault Bool)
        → verdict request ≡ r
        → IsHandled (after_verify g around (normalise_headers [] request.headers) request.body r s)
    unfolding IsHandled named_state after_verify
    after_verify-Handled (err e) v = check_raised e v refl refl
    after_verify-Handled (ok false) v = forged v refl refl
    after_verify-Handled (ok true) v = after_loads-Handled v (g.loads request.body) refl

    -- A request is refused without a trace where its signature is not accepted. Otherwise it is
    -- refused or ignored, or its parser raises, and the queue is left as it is; or its payload is
    -- parsed to an event with the delivery's metadata, whatever values its text attributes have, and
    -- one job with this event is enqueued.
    pub handle-Handled :
        Handled request s (handle g around request s).0 (handle g around request s).1
    unfolding handle IsHandled
    handle-Handled = after_verify-Handled (verdict request) refl

raw_meta-raw_of : (e : Event) → raw_meta (raw_of e) ≡ event_meta e
raw_meta-raw_of (opened e) = refl
raw_meta-raw_of (updated e) = refl
raw_meta-raw_of (commented e) = refl
raw_meta-raw_of (reviewed e) = refl
raw_meta-raw_of (completed e) = refl
raw_meta-raw_of (mentioned e) = refl

raw_type-raw_of : (e : Event) → raw_type (raw_of e) ≡ class_type e
raw_type-raw_of (opened e) = refl
raw_type-raw_of (updated e) = refl
raw_type-raw_of (commented e) = refl
raw_type-raw_of (reviewed e) = refl
raw_type-raw_of (completed e) = refl
raw_type-raw_of (mentioned e) = refl

-- The gateway's job of an event whose attributes have their annotated types.
abbrev pub typed_job : Event → String → EventJob
typed_job event correlation_id = record {
  event = event;
  correlation_id = correlation_id;
  delivery_id = "";
}

-- Where a payload is parsed to an event whose attributes have their annotated types, the job of this
-- event is decoded by the worker to the same job, under its message's id, if the clock's time is
-- read back by `fromisoformat`. Of a payload that puts another value into a text attribute nothing
-- is said.
pub deserialize-parse_event :
    (int_of_text : String → Option ℤ) (d : Delivery) (fromisoformat : String → Option Timestamp)
    (name : String) (payload : Fields) (delivery_id : String) {e : Event}
    → fromisoformat d.now.iso ≡ some d.now
    → parse_event int_of_text d name payload ≡ ok (some (raw_of e))
    → deserialize_job fromisoformat (serialize_job (typed_job e d.correlation_id)) delivery_id
      ≡ ok (record (typed_job e d.correlation_id) { delivery_id = delivery_id })
deserialize-parse_event int_of_text d fromisoformat name payload id {e} time p =
    let from : event_meta e ≡ new_meta d (class_type e) =
      sym (raw_meta-raw_of e)
      ∙ (parse_event-IsFrom int_of_text d name payload).at (some (raw_of e)) p
      ∙ ap (new_meta d) (raw_type-raw_of e) in
    deserialize-serialize_job fromisoformat (typed_job e d.correlation_id) id
      (ap (λ m. m.event_type) from)
      (subst (λ t. fromisoformat t.iso ≡ some t) (sym (ap (λ m. m.timestamp) from)) time)
