-- ===== src/Examples/GitHub.antt =====
-- A client whose world is the comments of one pull request.
use qaestro.Prelude.{
  ℤ, pos, String, ◌≡◌, refl, List, [], ◌∷◌, ◌++◌, Result, ok, err, Exception, length, is_set, strip,
  split_at_chars, true, false,
}
use qaestro.Json.{Json, str, int, Fields, field, end, get}
use qaestro.Outputs.{CommentResult}
use qaestro.GitHub.{GitHubClient, PrMeta}
use qaestro.GitHub.Input.{Python, repo_pr_input}
use qaestro.GitHub.Handlers.{
  persisted_comment_body, body_input, marker_input, create_or_update_comment,
}
use qaestro.GitHub.Upsert.{
  with_body, KeepsComments, IsUpserted, create_or_update_comment-IsUpserted,
}

abbrev int_of : Json → Result Exception ℤ
int_of (int n) = ok n
int_of value = err (record { class_name = "TypeError"; message = "int() argument" })

abbrev pub python : Python
python = record { str_of = λ value. "None"; int_of = int_of; repr = λ s. s }

abbrev comment_of : ℤ → String → CommentResult
comment_of id body = record { id = id; html_url = ""; body = body }

abbrev pull_request : PrMeta
pull_request = record {
  number = pos 7;
  title = "Add a cache";
  state = "open";
  head_sha = "aaa";
  base_ref = "main";
  head_ref = "cache";
  author = "ann";
  draft = false;
  html_url = "";
  body = "";
}

abbrev client : GitHubClient (List CommentResult)
client = record {
  get_pull_request = λ owner repo n w. (ok pull_request, w);
  list_pull_request_files = λ owner repo n w. (ok [], w);
  get_pull_request_diff = λ owner repo n w. (ok "", w);
  list_workflow_run_jobs = λ owner repo n w. (ok [], w);
  list_check_runs_for_ref = λ owner repo ref w. (ok [], w);
  create_issue_comment = λ owner repo n body w.
      (ok (comment_of (pos (length w)) body), w ++ comment_of (pos (length w)) body ∷ []);
  list_issue_comments = λ owner repo n w. (ok w, w);
  update_issue_comment = λ owner repo id body w. (ok (comment_of id body), with_body id body w);
  list_pull_request_reviews = λ owner repo n w. (ok [], w);
  create_pull_request_review = λ owner repo n sha body event comments w.
      (err (record { class_name = "GitHubApiError"; message = "422" }), w);
}

keeps : KeepsComments client (λ w. w) (λ w. Unit) "o" "r" (pos 7)
keeps = record {
  lists = λ w ready. (w, refl, refl, tt);
  creates = λ body w full ready. (
    comment_of (pos (length w)) body,
    w ++ comment_of (pos (length w)) body ∷ [],
    refl,
    refl,
    refl,
  );
  updates = λ id body w full known ready. (comment_of id body, with_body id body w, refl, refl);
}

abbrev pub input : Fields
input = field "repo_full_name" (str "o/r") (
    field "pr_number" (int (pos 7))
      (field "body" (str "Report") (field "marker" (str "<!-- qaestro -->") end)))

abbrev comments : List CommentResult
comments = comment_of (pos 0) "Thanks" ∷ comment_of (pos 1) "Old <!-- qaestro -->" ∷ []

pub input_named : repo_pr_input python input ≡ ok ("o", "r", pos 7)
unfolding repo_pr_input split_at_chars get is_set
input_named = refl

pub input_marked : is_set (marker_input client python input) ≡ true
unfolding is_set get strip
input_marked = refl

create_or_update_comment-IsUpserted_example :
    IsUpserted client python
      (λ w. w)
      (λ w. Unit)
      "o"
      "r"
      (pos 7)
      keeps
      (marker_input client python input)
      (persisted_comment_body (body_input client python input) (marker_input client python input))
      comments
      (create_or_update_comment client python input comments)
create_or_update_comment-IsUpserted_example =
    create_or_update_comment-IsUpserted client python (λ w. w) (λ w. Unit) "o" "r" (pos 7) keeps
      input comments input_named input_marked tt
