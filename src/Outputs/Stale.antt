-- ===== src/Outputs/Stale.antt =====
-- A review of a commit that is no longer the head, and a review that is already there.
use qaestro.Prelude.{
  ok_inj, occurs, String, true, false, ◌&&◌, ◌≡◌, subst, Option, none, some, List, [], ◌∷◌, ok, err,
  ◌==◌, string_eq, eq_iff, Bool-cases, inl, inr, arith,
}
use mathlib.Core.Option.{some-injective}
use qaestro.Review.{PrCommentPayload, PrReviewPayload}
use qaestro.Tools.Runtime.{ToolRuntime}
use qaestro.Outputs.{ReviewResult, OutputInput, view_input, OutputValue, with_head, stale_head}
use qaestro.Outputs.Prepare.{prepare_review}
use qaestro.Outputs.Poster.{
  run_tool, head_sha_from_output, check_head, ensure_current_head, preflight_review, post_outputs,
  find_review,
}

module _ {W : Type 0} (review p : PrReviewPayload) (id current : String)
    (t t₁ : ToolRuntime OutputInput OutputValue W) where
  stale_check :
      run_tool "github.pr.view" (view_input p.repo_full_name p.pr_number) id t
        ≡ (ok (with_head current), t₁)
      → (current == p.head_sha) ≡ false
      → ensure_current_head p id t ≡ (err (stale_head current p.head_sha), t₁)
  unfolding ensure_current_head head_sha_from_output check_head
  stale_check view old = rw view (rw old)

  -- If the look-up of a prepared review's pull request reports another head, the posting raises with
  -- both commits and ends in the state that the look-up left: no comment and no review is written.
  pub post_outputs_stale :
      (comment : PrCommentPayload)
      → prepare_review review id ≡ ok p
      → run_tool "github.pr.view" (view_input p.repo_full_name p.pr_number) id t
        ≡ (ok (with_head current), t₁)
      → (current == p.head_sha) ≡ false
      → post_outputs comment (some review) id t ≡ (err (stale_head current p.head_sha), t₁)
  unfolding post_outputs preflight_review
  post_outputs_stale comment prepared view old = rw prepared (rw (stale_check view old))

-- A review that is taken for an earlier posting is of the same commit and names the correlation id.
find_review_sound :
    (head_sha id : String) (rs : List (Option ReviewResult)) {r : ReviewResult}
    → find_review head_sha id rs ≡ ok (some r)
    → (r.commit_id ≡ head_sha) × (occurs id r.body ≡ true)
unfolding find_review
find_review_sound head_sha id [] h = cc
find_review_sound head_sha id (none ∷ rs) h = cc
find_review_sound head_sha id (some q ∷ rs) {r} h =
    elim (Bool-cases (q.commit_id == head_sha && occurs id q.body)) [
      | inr other ↦ find_review_sound head_sha id rs {r = r} (rw other at h)
      | inl same ↦
          subst (λ x. (x.commit_id ≡ head_sha) × (occurs id x.body ≡ true))
            (some-injective q r (ok_inj (rw same at h)))
            (ground (arith, eq_iff q.commit_id head_sha))
    ]
