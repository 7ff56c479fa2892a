-- ===== src/Examples/Gateway.antt =====
-- Deliveries to a gateway with a fixed digest and a queue that is a list.
use qaestro.Prelude.{
  ℤ, pos, String, ◌≡◌, ◌↔◌, refl, true, false, Option, none, some, List, [], ◌∷◌, ◌++◌, ok, err,
  strip, is_set, lower, ◌⋈◌,
}
use qaestro.Json.{Fields, int, str, obj, end, field, get, null}
use qaestro.Contracts.{Event, reviewed, pr_reviewed}
use qaestro.Jobs.Encode.{serialize_job}
use qaestro.Jobs.Read.{deserialize_job}
use qaestro.Gateway.{type_error}
use qaestro.Gateway.Signature.{
  verify_signature, verify_prefixed, remove_prefix, compare_digest, is_ascii,
}
use qaestro.Gateway.Authenticity.{verify_signature_iff, verify_signature_raises_iff}
use qaestro.Gateway.Raw.{RawJob, raw_of}
use qaestro.Gateway.Values.{as_mapping, truthy, or_empty, get_nested, to_int, lower_of}
use qaestro.Gateway.Parsers.{
  Delivery, new_meta, parse_github_pr_review_event, read_stated, read_review_event,
}
use qaestro.Gateway.Handler.{
  WebhookRequest, Gateway, Surroundings, GatewayState, parse_event, handle,
}
use qaestro.Gateway.Handling.{Handled, handle-Handled, typed_job, deserialize-parse_event}
use qaestro.Examples.{noon, read_iso}

-- A digest that depends on the secret alone.
abbrev digest : String → String → String
digest secret body = "0a1b"

is_ascii_digest : is_ascii "0a1b" ≡ true
unfolding is_ascii
is_ascii_digest = refl

verify_signature_iff_example :
    (verify_signature digest "key" "body" (some "sha256=0a1b") ≡ ok true) ↔ (
      (is_set "key" ≡ true)
      × ((provided : String) × (some "sha256=0a1b" ≡ some ("sha256=" ⋈ provided))
          × (strip provided ≡ "0a1b")))
verify_signature_iff_example =
    verify_signature_iff digest "key" "body" (some "sha256=0a1b") is_ascii_digest

verify_signature_raises_iff_example :
    (verify_signature digest "key" "body" (some "sha256=é") ≡ err type_error) ↔ (
      (is_set "key" ≡ true)
      × ((provided : String) × (some "sha256=é" ≡ some ("sha256=" ⋈ provided))
          × (is_ascii (strip provided) ≡ false)))
verify_signature_raises_iff_example =
    verify_signature_raises_iff digest "key" "body" (some "sha256=é") is_ascii_digest

-- The check does raise on this header.
verify_signature_raises : verify_signature digest "key" "body" (some "sha256=é") ≡ err type_error
unfolding verify_signature is_set verify_prefixed remove_prefix compare_digest is_ascii strip
verify_signature_raises = refl

abbrev no_int : String → Option ℤ
no_int s = none

abbrev delivery_1 : Delivery
delivery_1 = record { event_id = "e9"; now = noon; correlation_id = "d1" }

abbrev review_payload : Fields
review_payload =
    field "review"
      (obj (
        field "state" (str "APPROVED")
          (field "body" null (field "user" (obj (field "login" (str "bob") end)) end))))
      (field "pull_request" (obj (field "number" (int (pos 7)) end))
        (field "repository" (obj (field "full_name" (str "o/r") end)) end))

abbrev approval : Event
approval = reviewed (record {
  meta = new_meta delivery_1 pr_reviewed;
  repo_full_name = "o/r";
  pr_number = pos 7;
  reviewer = "bob";
  state = "approved";
  body = "";
})

review_parsed :
    parse_event no_int delivery_1 "pull_request_review" review_payload ≡ ok (some (raw_of approval))
unfolding parse_event get parse_github_pr_review_event as_mapping read_stated truthy is_set
    read_review_event to_int get_nested lower_of or_empty lower
review_parsed = refl

deserialize-parse_event_example :
    deserialize_job read_iso (serialize_job (typed_job approval "d1")) "3-0"
    ≡ ok (record (typed_job approval "d1") { delivery_id = "3-0" })
deserialize-parse_event_example =
    deserialize-parse_event no_int delivery_1 read_iso "pull_request_review" review_payload "3-0"
      refl review_parsed

abbrev gateway : Gateway String (List RawJob)
gateway = record {
  secret = "key";
  enqueue = λ j q. (ok tt, q ++ j ∷ []);
  hexdigest = digest;
  loads = λ body. some (obj review_payload);
  int_of_text = no_int;
}

abbrev around : Surroundings
around = record { now = noon; event_id = "e9"; new_correlation_id = "fresh" }

abbrev request : WebhookRequest String
request = record {
  headers =
      ("X-Hub-Signature-256", "sha256=0a1b")
      ∷ ("X-GitHub-Event", "pull_request_review")
      ∷ ("X-GitHub-Delivery", "d1")
      ∷ [];
  body = "body";
}

abbrev before : GatewayState (List RawJob)
before = record { queue = []; correlation_id = "" }

handle-Handled_example :
    Handled gateway around request before
      (handle gateway around request before).0
      (handle gateway around request before).1
handle-Handled_example = handle-Handled gateway around request before
