-- ===== src/Gateway/Origin.antt =====
-- The metadata of the events that the parsers make.
use qaestro.Prelude.{
  ℤ, String, ◌≡◌, refl, Bool, true, false, Option, none, some, [], ◌∷◌, ok, err, Ensures,
  Ensures-bind, Ensures-ok, if◌then◌else◌, string_eq, ◌==◌, ◌||◌, contains,
}
use qaestro.Json.{Json, Fields}
use qaestro.Contracts.{EventType, pr_opened, pr_updated}
use qaestro.Gateway.Raw.{RawEvent, raw_meta, raw_type}
use qaestro.Gateway.{Fault}
use qaestro.Gateway.Values.{Read, truthy, as_comment}
use qaestro.Gateway.Parsers.{
  Delivery, new_meta, pr_action, map_ok, parse_github_pr_event, parse_github_ci_event,
  parse_github_pr_review_event, parse_github_comment_event, read_pr_event, read_action,
  read_ci_event, read_concluded, read_review_event, read_stated, read_comment_event,
  read_numbered_comment,
}
use qaestro.Gateway.Handler.{parse_event}

-- The metadata that the delivery and the class of an event give it.
abbrev pub IsFrom : Delivery → RawEvent → Type 0
IsFrom d e = raw_meta e ≡ new_meta d (raw_type e)

abbrev pub IsFromIfAny : Delivery → Option RawEvent → Type 0
IsFromIfAny d none = Unit
IsFromIfAny d (some e) = IsFrom d e

either : {A : Type 0} (P : A → Type 0) (b : Bool) {x y : A} → P x → P y → P (if b then x else y)
either P true p q = p
either P false p q = q

module _ (int_of_text : String → Option ℤ) (d : Delivery) where
  some-Ensures :
      (m : Read RawEvent) → Ensures (IsFrom d) m → Ensures (IsFromIfAny d) (map_ok some m)
  some-Ensures (ok e) h = Ensures-ok (IsFromIfAny d) (some e) (h.at e refl)
  some-Ensures (err e) h = record { at = λ b p. cc }

  none-Ensures : Ensures {E = Fault} (IsFromIfAny d) (ok none)
  none-Ensures = Ensures-ok (IsFromIfAny d) none tt

  ok-Ensures : (e : RawEvent) → IsFrom d e → Ensures {E = Fault} (IsFrom d) (ok e)
  ok-Ensures e h = Ensures-ok (IsFrom d) e h

  opened-Ensures :
      (payload : Fields) → Ensures (IsFrom d) (read_pr_event int_of_text d pr_opened payload)
  unfolding read_pr_event
  opened-Ensures payload = search (Ensures-bind, ok-Ensures) depth 20

  updated-Ensures :
      (payload : Fields) → Ensures (IsFrom d) (read_pr_event int_of_text d pr_updated payload)
  unfolding read_pr_event
  updated-Ensures payload = search (Ensures-bind, ok-Ensures) depth 20

  ci-Ensures :
      (c : Json) (wf payload : Fields)
      → Ensures (IsFrom d) (read_ci_event int_of_text d c wf payload)
  unfolding read_ci_event
  ci-Ensures c wf payload = search (Ensures-bind, ok-Ensures) depth 20

  review-Ensures :
      (c : Json) (r payload : Fields)
      → Ensures (IsFrom d) (read_review_event int_of_text d c r payload)
  unfolding read_review_event
  review-Ensures c r payload = search (Ensures-bind, ok-Ensures) depth 20

  comment-Ensures :
      (n : ℤ) (c payload : Fields)
      → Ensures (IsFrom d) (read_comment_event int_of_text d n c payload)
  unfolding read_comment_event
  comment-Ensures n c payload = search (Ensures-bind, ok-Ensures) depth 20

  pr_event-Ensures :
      (payload : Fields) (action : String)
      → Ensures (IsFromIfAny d) (parse_github_pr_event int_of_text d payload action)
  unfolding parse_github_pr_event pr_action
  pr_event-Ensures payload action =
      let Good =
        λ (t : Option EventType). Ensures (IsFromIfAny d) (read_action int_of_text d t payload) in
      either Good (action == "opened") (some-Ensures _ (opened-Ensures payload)) (
        either Good (contains ("synchronize" ∷ "edited" ∷ "reopened" ∷ []) action)
          (some-Ensures _ (updated-Ensures payload)) none-Ensures)

  concluded-Ensures :
      (c : Json) (wf payload : Fields)
      → Ensures (IsFromIfAny d) (read_concluded int_of_text d c wf payload)
  unfolding read_concluded
  concluded-Ensures c wf payload =
      either (Ensures (IsFromIfAny d)) (truthy c) (some-Ensures _ (ci-Ensures c wf payload))
        none-Ensures

  stated-Ensures :
      (c : Json) (r payload : Fields)
      → Ensures (IsFromIfAny d) (read_stated int_of_text d c r payload)
  unfolding read_stated
  stated-Ensures c r payload =
      either (Ensures (IsFromIfAny d)) (truthy c) (some-Ensures _ (review-Ensures c r payload))
        none-Ensures

  numbered-Ensures :
      (n : Option ℤ) (c : Json) (payload : Fields)
      → Ensures (IsFromIfAny d) (read_numbered_comment int_of_text d n c payload)
  unfolding read_numbered_comment
  numbered-Ensures none c payload = none-Ensures
  numbered-Ensures (some n) c payload =
      either (Ensures (IsFromIfAny d)) (truthy c)
        (some-Ensures _ (Ensures-bind (as_comment c) _ (λ r. comment-Ensures n r payload)))
        none-Ensures

  ci_event-Ensures :
      (payload : Fields) → Ensures (IsFromIfAny d) (parse_github_ci_event int_of_text d payload)
  unfolding parse_github_ci_event
  ci_event-Ensures payload = search (Ensures-bind, concluded-Ensures) depth 4

  review_event-Ensures :
      (payload : Fields)
      → Ensures (IsFromIfAny d) (parse_github_pr_review_event int_of_text d payload)
  unfolding parse_github_pr_review_event
  review_event-Ensures payload = search (Ensures-bind, stated-Ensures) depth 4

  comment_event-Ensures :
      (payload : Fields)
      → Ensures (IsFromIfAny d) (parse_github_comment_event int_of_text d payload)
  unfolding parse_github_comment_event
  comment_event-Ensures payload = search (Ensures-bind, numbered-Ensures) depth 4

  -- Every event that a delivery is parsed to has the delivery's identifiers and time as its
  -- metadata, GitHub as its source, and the event type of its own class.
  pub parse_event-IsFrom :
      (name : String) (payload : Fields)
      → Ensures (IsFromIfAny d) (parse_event int_of_text d name payload)
  unfolding parse_event
  parse_event-IsFrom name payload =
      let Good = Ensures (IsFromIfAny d) in
      either Good (name == "pull_request") (pr_event-Ensures payload _) (
        either Good (name == "workflow_run") (ci_event-Ensures payload) (
          either Good (name == "pull_request_review") (review_event-Ensures payload) (
            either Good (name == "issue_comment" || name == "pull_request_review_comment")
              (comment_event-Ensures payload) none-Ensures)))
