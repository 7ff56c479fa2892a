-- ===== src/Outputs/Prepare.antt =====
-- `prepared_for_submission` and `with_correlation_id` of src/adapters/renderers/pr_comment.py.
use qaestro.Prelude.{
  ℤ, pos, String, Bool, not, ◌&&◌, Option, none, some, List, [], ◌∷◌, ◌++◌, Result, ok, err, ◌>>=◌,
  if◌then◌else◌, ltb_ℤ, ◌==◌, string_eq, strip, is_set, text_or, is_some, is_nonempty, filter, join,
  ◌⋈◌, occurs,
}
use qaestro.Review.{PrReviewComment, PrReviewPayload}

abbrev pub attribution : String
attribution = "---\n🤖 *Generated by Qaestro*"

unfoldable pub with_attribution_text : String → String
with_attribution_text body =
    let clean_body = strip body in
    if occurs "Generated by Qaestro" clean_body
    then clean_body
    else if not (is_set clean_body)
    then attribution
    else clean_body ⋈ "\n\n" ⋈ attribution

unfoldable pub with_attribution : PrReviewComment → PrReviewComment
with_attribution c = record c { body = with_attribution_text c.body }

unfoldable pub is_mapped : PrReviewComment → Bool
is_mapped c = is_set (strip c.path) && is_some c.line

-- The line, or the message of the ValueError.
unfoldable pub positive_line : Option ℤ → Result String ℤ
positive_line none = err "review comment line must be a positive integer"
positive_line (some line) =
    if ltb_ℤ (pos 0) line then ok line else err "review comment line must be a positive integer"

unfoldable pub check_start : ℤ → String → Option ℤ → Result String (Unit {0})
check_start line start_side none = ok tt
check_start line start_side (some start) =
    if not (ltb_ℤ (pos 0) start)
    then err "review comment start_line must be a positive integer"
    else if ltb_ℤ line start
    then err "review comment start_line must be less than or equal to line"
    else if is_set start_side && not (start_side == "RIGHT")
    then err "review comment start_side must be RIGHT for qaestro output"
    else ok tt

unfoldable pub check_side : String → Result String (Unit {0})
check_side side =
    if side == "RIGHT" then ok tt else err "review comment side must be RIGHT for qaestro output"

unfoldable pub validated_review_comment : PrReviewComment → Result String PrReviewComment
validated_review_comment c = do
  line ← positive_line c.line
  done ← check_side c.side
  fits ← check_start line c.start_side c.start_line
  ok c

unfoldable pub mapped_comments : List PrReviewComment → Result String (List PrReviewComment)
mapped_comments [] = ok []
mapped_comments (c ∷ cs) = do
  d ← validated_review_comment c
  ds ← mapped_comments cs
  ok (with_attribution d ∷ ds)

abbrev pub finding_lines : List PrReviewComment → List String
finding_lines [] = []
finding_lines (c ∷ cs) =
    ("- `" ⋈ text_or (strip c.path) "unknown path" ⋈ "`: " ⋈ strip c.body) ∷ finding_lines cs

unfoldable pub append_unmapped_findings : String → List PrReviewComment → String
append_unmapped_findings body comments = join "\n" (
    (if is_set (strip body)
      then strip body ∷ "" ∷ "### Unmapped inline findings" ∷ []
      else "### Unmapped inline findings" ∷ [])
    ++ finding_lines comments)

unfoldable pub prepared_for_submission : PrReviewPayload → Result String PrReviewPayload
prepared_for_submission p = do
  mapped ← mapped_comments (filter is_mapped p.comments)
  let unmapped = filter (λ c. not (is_mapped c)) p.comments
  let body = if is_nonempty unmapped then append_unmapped_findings p.body unmapped else p.body
  ok (record p { body = with_attribution_text body; event = "COMMENT"; comments = mapped })

unfoldable pub with_correlation_id : String → PrReviewPayload → PrReviewPayload
with_correlation_id correlation_id p =
    let marker = "Correlation ID: `" ⋈ correlation_id ⋈ "`" in
    if occurs marker p.body then p else record p {
      body = if is_set (strip p.body) then strip p.body ⋈ "\n\n" ⋈ marker else marker;
    }

-- `_prepare_review`
unfoldable pub prepare_review : PrReviewPayload → String → Result String PrReviewPayload
prepare_review p correlation_id = do
  prepared ← prepared_for_submission p
  ok (with_correlation_id correlation_id prepared)
