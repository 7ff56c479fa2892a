-- ===== src/GitHub/Payload.antt =====
-- How the GitHub client reads and writes JSON (src/adapters/connectors/github/client.py).
use qaestro.Prelude.{
  ℤ, pos, String, false, not, Option, none, some, List, [], ◌∷◌, Result, ok, err, ◌>>=◌,
  if◌then◌else◌, is_set, strip, text_or,
}
use qaestro.Json.{
  Json, null, bool, int, str, obj, Items, nil, cons, Fields, field, end, get_default,
}
use qaestro.Gateway.Values.{truthy, or_empty}
use qaestro.Outputs.{CommentResult, ReviewResult}
use qaestro.Aggregate.Checks.{CheckRunResult}
use qaestro.GitHub.{PrMeta, FileDiff, ReviewCommentInput, ActionsJobResult}
use qaestro.GitHub.Http.{Library, GitHubFault, other, faulted, value_fault}

abbrev pub no_get : {A : Type 0} → Result GitHubFault A
no_get = err (other (record { class_name = "AttributeError"; message = "no attribute 'get'" }))

-- `data.get(key) or {}`, whose value is then asked with `get`.
unfoldable pub mapping_or_empty : Json → Result GitHubFault Fields
mapping_or_empty (obj fs) = ok fs
mapping_or_empty value = if truthy value then no_get else ok end

module _ {B : Type 0} (lib : Library B) where
  -- `str(value)`
  abbrev pub text_of : Json → String
  text_of (str s) = s
  text_of value = lib.str_of value

  -- `str(data.get(key, ""))`
  abbrev pub text_at : String → Fields → String
  text_at key fs = text_of (get_default key (str "") fs)

  -- `str(data.get(key, "") or "")`
  abbrev pub text_or_empty_at : String → Fields → String
  text_or_empty_at key fs = text_of (or_empty (get_default key (str "") fs))

  -- `int(data.get(key, 0))`
  abbrev pub int_at : String → Fields → Result GitHubFault ℤ
  int_at key fs = faulted (lib.int_of (get_default key (int (pos 0)) fs))

  unfoldable pub pr_meta_from_payload : Fields → Result GitHubFault PrMeta
  unfolding mapping_or_empty
  pr_meta_from_payload fs = do
    head ← mapping_or_empty (get_default "head" null fs)
    base ← mapping_or_empty (get_default "base" null fs)
    user ← mapping_or_empty (get_default "user" null fs)
    number ← int_at "number" fs
    ok (record {
      number = number;
      title = text_at "title" fs;
      state = text_at "state" fs;
      head_sha = text_at "sha" head;
      base_ref = text_at "ref" base;
      head_ref = text_at "ref" head;
      author = text_at "login" user;
      draft = truthy (get_default "draft" (bool false) fs);
      html_url = text_at "html_url" fs;
      body = text_or_empty_at "body" fs;
    })

  unfoldable pub comment_result_from_payload : Fields → Result GitHubFault CommentResult
  comment_result_from_payload fs = do
    id ← int_at "id" fs
    ok (record { id = id; html_url = text_at "html_url" fs; body = text_at "body" fs })

  unfoldable pub review_result_from_payload : Fields → Result GitHubFault ReviewResult
  review_result_from_payload fs = do
    id ← int_at "id" fs
    ok (record {
      id = id;
      html_url = text_at "html_url" fs;
      state = text_at "state" fs;
      body = text_at "body" fs;
      commit_id = text_at "commit_id" fs;
    })

  abbrev pub patch_text : Json → Option String
  patch_text (str s) = some s
  patch_text value = none

  unfoldable pub file_diff_from_payload : Fields → Result GitHubFault FileDiff
  file_diff_from_payload fs = do
    additions ← int_at "additions" fs
    deletions ← int_at "deletions" fs
    changes ← int_at "changes" fs
    ok (record {
      filename = text_at "filename" fs;
      status = text_at "status" fs;
      additions = additions;
      deletions = deletions;
      changes = changes;
      patch = patch_text (get_default "patch" null fs);
      previous_filename = text_or_empty_at "previous_filename" fs;
    })

  unfoldable pub actions_job_from_payload : Fields → Result GitHubFault ActionsJobResult
  actions_job_from_payload fs = ok (record {
    name = text_at "name" fs;
    conclusion = text_or_empty_at "conclusion" fs;
    html_url = text_at "html_url" fs;
  })

  unfoldable pub check_run_from_payload : String → Fields → Result GitHubFault CheckRunResult
  check_run_from_payload default_head_sha fs =
      let head_sha = get_default "head_sha" (str "") fs in
      ok (record {
        name = text_at "name" fs;
        status = text_or_empty_at "status" fs;
        conclusion = text_or_empty_at "conclusion" fs;
        html_url = text_at "html_url" fs;
        head_sha = if truthy head_sha then text_of head_sha else default_head_sha;
      })

abbrev pub start_fields : ReviewCommentInput → Fields
start_fields c = elim c.start_line [
  | none ↦ end
  | some n ↦
      field "start_line" (int n)
        (field "start_side" (str (text_or c.start_side (text_or c.side "RIGHT"))) end)
]

abbrev pub comment_fields : ReviewCommentInput → Option ℤ → Result GitHubFault Json
comment_fields c none = value_fault "review comment line is required"
comment_fields c (some line) = ok (
    obj (
      field "path" (str c.path) (
        field "body" (str c.body) (
          field "line" (int line) (field "side" (str (text_or c.side "RIGHT")) (start_fields c))))))

-- `_review_comment_payload`
unfoldable pub review_comment_payload : ReviewCommentInput → Result GitHubFault Json
review_comment_payload c =
    if not (is_set (strip c.path))
    then value_fault "review comment path must not be empty"
    else if not (is_set (strip c.body))
    then value_fault "review comment body must not be empty"
    else comment_fields c c.line

unfoldable pub review_comment_payloads : List ReviewCommentInput → Result GitHubFault Items
unfolding review_comment_payload
review_comment_payloads [] = ok nil
review_comment_payloads (c ∷ cs) = do
  payload ← review_comment_payload c
  payloads ← review_comment_payloads cs
  ok (cons payload payloads)

-- The elements of a page that is a list, read one by one; `not_object` is what an element that is no
-- object raises.
unfoldable pub read_items :
    {A : Type 0}
    → Result GitHubFault A
    → (Fields → Result GitHubFault A)
    → Items
    → Result GitHubFault (List A)
read_items not_object reading nil = ok []
read_items not_object reading (cons (obj fs) xs) = do
  a ← reading fs
  rest ← read_items not_object reading xs
  ok (a ∷ rest)
read_items not_object reading (cons x xs) = do
  a ← not_object
  rest ← read_items not_object reading xs
  ok (a ∷ rest)
