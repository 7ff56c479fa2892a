-- ===== src/Outputs/Order.antt =====
-- The order in which the tools of one posting run, as the audit log shows it.
use qaestro.Prelude.{
  String, true, ◌≡◌, refl, sym, ap, ◌∙◌, ◌⊎◌, inl, inr, Option, none, some, List, [], ◌∷◌, ◌++◌,
  append-nil, Result, ok, err,
}
use qaestro.Prelude.Exec.{pure, lift, continue, ◌>>=◌}
use qaestro.Review.{PrCommentPayload, PrReviewPayload}
use qaestro.Tools.{ToolCall, ToolResult, ToolAuditEntry}
use qaestro.Tools.Runtime.{ToolRuntime, ToolError, audit_entry}
use qaestro.Tools.Runtime
use qaestro.Tools.Guarantees.{Executed, refused, ran, execute-Executed}
use qaestro.Outputs.{
  ReviewResult, CommentResult, OutputInput, OutputValue, OutputError, PrOutputPostResult,
}
use qaestro.Outputs.Poster.{
  Posting, output_call, wrap_error, output_of, run_tool, ensure_current_head, find_existing_review,
  preflight_review, create_review, post_comment, existing_or_created, prepare_or_invalid,
  post_outputs,
}
use qaestro.Outputs.Sequence.{
  Log, names_of, IsStart, is_ok, RunsAtMost, RunsAll, bind-AtMost, bind-All,
}

-- The tools of a posting, with a review or without one.
abbrev pub tools_of : Option PrReviewPayload → List String
tools_of none = "github.pr.comment.create_or_update" ∷ []
tools_of (some review) =
    "github.pr.view" ∷ "github.pr.review.list" ∷ "github.pr.comment.create_or_update"
    ∷ "github.pr.review.create" ∷ []

module _ {W : Type 0} where
  lift-All : {A : Type 0} (r : Result OutputError A) → RunsAll {W = W} [] (lift r)
  lift-All r t = ([], sym (append-nil t.audit_log), ([], refl), λ h. refl)

  -- One call of a tool.
  called-All :
      (name : String) (t : ToolRuntime OutputInput OutputValue W)
      (p : Result ToolError (ToolResult OutputInput OutputValue)
        × ToolRuntime OutputInput OutputValue W)
      → ((e : ToolError) × (p ≡ (err e, t)))
        ⊎ ((x : ToolAuditEntry) × (x.name ≡ name) × (p.1.audit_log ≡ t.audit_log ++ x ∷ []))
      → let q = continue (wrap_error p.0) (λ result. lift (output_of name result)) p.1 in
        (added : Log) × (q.1.audit_log ≡ t.audit_log ++ added)
        × IsStart added (name ∷ [])
        × (is_ok q.0 ≡ true → names_of added ≡ name ∷ [])
  called-All name t (err e, t') (inl (e', same)) = (
    [],
    ap (λ p. p.1.audit_log) same ∙ sym (append-nil t.audit_log),
    (name ∷ [], refl),
    λ h. cc h,
  )
  called-All name t (ok r, t') (inl (e', same)) = cc (ap (λ p. p.0) same)
  called-All name t (err e, t') (inr (x, own, logged)) =
      (x ∷ [], logged, ([], ap (λ n. n ∷ []) (sym own)), λ h. ap (λ n. n ∷ []) own)
  called-All name t (ok r, t') (inr (x, own, logged)) =
      (x ∷ [], logged, ([], ap (λ n. n ∷ []) (sym own)), λ h. ap (λ n. n ∷ []) own)

  logged_call :
      (call : ToolCall OutputInput) (t : ToolRuntime OutputInput OutputValue W)
      → Executed call t
      → ((e : ToolError) × (Runtime.execute call t ≡ (err e, t)))
        ⊎ ((x : ToolAuditEntry) × (x.name ≡ call.name)
            × ((Runtime.execute call t).1.audit_log ≡ t.audit_log ++ x ∷ []))
  logged_call call t (refused e same) = inl (e, same)
  logged_call call t (ran d r found allowed outcome same) =
      inr (audit_entry call r.ok r.error, refl, ap (λ p. p.1.audit_log) same)

  run_tool-All :
      (name : String) (input : OutputInput) (id : String)
      → RunsAll {W = W} (name ∷ []) (run_tool name input id)
  unfolding run_tool
  run_tool-All name input id t =
      let call = output_call name input id in
      called-All name t (Runtime.execute call t) (logged_call call t (execute-Executed call t))

  head-All :
      (p : PrReviewPayload) (id : String)
      → RunsAll {W = W} ("github.pr.view" ∷ []) (ensure_current_head p id)
  unfolding ensure_current_head
  head-All p id =
      bind-All _ _ (run_tool-All "github.pr.view" _ id)
        (λ v. bind-All _ _ (lift-All _) (λ h. lift-All _))

  find-All :
      (p : PrReviewPayload) (id : String)
      → RunsAll {W = W} ("github.pr.review.list" ∷ []) (find_existing_review p id)
  unfolding find_existing_review
  find-All p id = bind-All _ _ (run_tool-All "github.pr.review.list" _ id) (λ v. lift-All _)

  preflight-All :
      (p : PrReviewPayload) (id : String)
      → RunsAll {W = W} ("github.pr.view" ∷ "github.pr.review.list" ∷ []) (preflight_review p id)
  unfolding preflight_review
  preflight-All p id = bind-All _ _ (head-All p id) (λ u. find-All p id)

  comment-All :
      (p : PrCommentPayload) (id : String)
      → RunsAll {W = W} ("github.pr.comment.create_or_update" ∷ []) (post_comment p id)
  unfolding post_comment
  comment-All p id =
      bind-All _ _ (run_tool-All "github.pr.comment.create_or_update" _ id) (λ v. lift-All _)

  weaken :
      {A : Type 0} {names : List String} (m : Posting W A) → RunsAll names m → RunsAtMost names m
  weaken m h t = let (added, logged, begun, full) = h t in (added, logged, begun)

  create-All :
      (p : PrReviewPayload) (id : String)
      → RunsAll {W = W} ("github.pr.review.create" ∷ []) (create_review p id)
  unfolding create_review
  create-All p id = bind-All _ _ (run_tool-All "github.pr.review.create" _ id) (λ v. lift-All _)

  review-AtMost :
      (p : PrReviewPayload) (id : String) (o : Option ReviewResult)
      → RunsAtMost {W = W} ("github.pr.review.create" ∷ []) (existing_or_created p id o)
  unfolding existing_or_created
  review-AtMost p id (some r) t =
      ([], sym (append-nil t.audit_log), ("github.pr.review.create" ∷ [], refl))
  review-AtMost p id none t = weaken (create_review p id) (create-All p id) t

  pure-AtMost : {A : Type 0} (a : A) → RunsAtMost {W = W} [] (pure a)
  pure-AtMost a t = ([], sym (append-nil t.audit_log), ([], refl))

  last_state :
      {A B : Type 0} (q : Result OutputError A × ToolRuntime OutputInput OutputValue W) (f : A → B)
      → (continue q.0 (λ a. pure (f a)) q.1).1.audit_log ≡ q.1.audit_log
  last_state (ok a, t) f = refl
  last_state (err e, t) f = refl

  review_then_pure :
      (p : PrReviewPayload) (o : Option ReviewResult) (c : CommentResult) (id : String)
      → RunsAtMost {W = W} {A = PrOutputPostResult}
          ("github.pr.review.create" ∷ [])
          (existing_or_created p id o >>= λ r. pure (record { comment = c; review = some r }))
  review_then_pure p o c id t =
      let (added, logged, begun) = review-AtMost p id o t in
      (
        added,
        last_state (existing_or_created p id o t) (λ r. record { comment = c; review = some r })
            ∙ logged,
        begun,
      )

  -- Whether it returns or raises, a posting runs the first of its tools, each at most once and in this
  -- order: with a review the head is looked up and then the reviews are listed before the comment is
  -- written, and the review is created last.
  pub post_outputs-RunsAtMost :
      (comment : PrCommentPayload) (review : Option PrReviewPayload) (id : String)
      → RunsAtMost {W = W} (tools_of review) (post_outputs comment review id)
  unfolding post_outputs
  post_outputs-RunsAtMost comment none id =
      bind-AtMost _ _ (comment-All comment id) (λ (c : CommentResult).
        pure-AtMost {A = PrOutputPostResult} (record { comment = c; review = none }))
  post_outputs-RunsAtMost comment (some review) id =
      bind-AtMost _ _ (lift-All (prepare_or_invalid review id)) (λ prepared.
        bind-AtMost _ _ (preflight-All prepared id) (λ existing.
          bind-AtMost _ _ (comment-All comment id) (λ c. review_then_pure prepared existing c id)))
