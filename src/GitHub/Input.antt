-- ===== src/GitHub/Input.antt =====
-- How the GitHub tools read their input (src/runtime/tools/github.py), and how a review is read
-- back from it (src/adapters/renderers/pr_comment.py). `int_of` is Python's `int` on a value.
use qaestro.Prelude.{
  ℤ, pos, String, Bool, true, false, not, ◌&&◌, ◌||◌, Option, none, some, List, [], ◌∷◌, Result, ok,
  err, ◌>>=◌, Exception, if◌then◌else◌, ltb_ℤ, ◌==◌, string_eq, ◌⋈◌, is_set, text_or,
  split_at_chars,
}
use qaestro.Json.{Json, null, int, str, arr, obj, Items, nil, cons, Fields, end, field, get_default}
use qaestro.Review.{PrReviewComment, PrReviewPayload}
use qaestro.Outputs.Prepare.{is_mapped, with_attribution_text}
use qaestro.GitHub.{ReviewCommentInput}

abbrev pub value_error : {A : Type 0} → String → Result Exception A
value_error text = err (record { class_name = "ValueError"; message = text })

abbrev pub type_error : {A : Type 0} → String → Result Exception A
type_error text = err (record { class_name = "TypeError"; message = text })

-- Python's library: `str` on a value that is no text, `int` on a value, and `repr` of a text.
pub record Python : Type 0 where
  pub str_of : Json → String
  pub int_of : Json → Result Exception ℤ
  pub repr : String → String

abbrev pub bad_repository : (String → String) → String → Result Exception (String × String)
bad_repository repr name = value_error ("repo_full_name must be 'owner/repo', got " ⋈ repr name)

abbrev pub repository_of_parts :
    (String → String) → String → List String → Result Exception (String × String)
repository_of_parts repr name (owner ∷ (repo ∷ [])) =
    if is_set owner && is_set repo then ok (owner, repo) else bad_repository repr name
repository_of_parts repr name _ = bad_repository repr name

unfoldable pub split_repo : (String → String) → String → Result Exception (String × String)
split_repo repr name = repository_of_parts repr name (split_at_chars "/" name)

-- `raw is None or raw == ""`
abbrev pub is_missing : Json → Bool
is_missing null = true
is_missing (str s) = not (is_set s)
is_missing value = false

-- The number that `int` gives, or what the handler raises for its TypeError or ValueError; another
-- exception of `int`, as the OverflowError of an infinite float, goes on.
abbrev pub reraised : String → Result Exception ℤ → Result Exception ℤ
reraised text (ok n) = ok n
reraised text (err e) =
    if e.class_name == "TypeError" || e.class_name == "ValueError" then value_error text else err e

module _ (python : Python) where
  -- `str(value)`
  abbrev pub text_of : Json → String
  text_of (str s) = s
  text_of value = python.str_of value

  -- A key whose value is to be a positive integer.
  unfoldable pub positive_input : String → Fields → Result Exception ℤ
  positive_input key fields =
      let raw = get_default key null fields in
      if is_missing raw
      then value_error (key ⋈ " is required and must be a positive integer")
      else (do
        n ← reraised (key ⋈ " must be a positive integer") (python.int_of raw)
        if ltb_ℤ (pos 0) n then ok n else value_error (key ⋈ " must be greater than 0"))

  unfoldable pub repo_input : Fields → Result Exception (String × String)
  unfolding split_repo
  repo_input fields =
      split_repo python.repr (text_of (get_default "repo_full_name" (str "") fields))

  unfoldable pub repo_pr_input : Fields → Result Exception (String × String × ℤ)
  unfolding repo_input positive_input
  repo_pr_input fields = do
    (owner, repo) ← repo_input fields
    n ← positive_input "pr_number" fields
    ok (owner, repo, n)

  -- `_optional_int`
  unfoldable pub optional_int : Json → Result Exception (Option ℤ)
  optional_int value =
      if is_missing value
      then ok none
      else (do n ← python.int_of (str (text_of value)); ok (some n))

  unfoldable pub review_comment_from_raw : Json → Result Exception PrReviewComment
  unfolding optional_int
  review_comment_from_raw (obj raw) = do
    line ← optional_int (get_default "line" null raw)
    start_line ← optional_int (get_default "start_line" null raw)
    ok (record {
      path = text_of (get_default "path" (str "") raw);
      body = text_of (get_default "body" (str "") raw);
      line = line;
      side = text_or (text_of (get_default "side" (str "RIGHT") raw)) "RIGHT";
      start_line = start_line;
      start_side = text_of (get_default "start_side" (str "") raw);
    })
  review_comment_from_raw value = value_error "review comment must be an object"

  unfoldable pub comments_from : Items → Result Exception (List PrReviewComment)
  comments_from nil = ok []
  comments_from (cons x xs) = do c ← review_comment_from_raw x; cs ← comments_from xs; ok (c ∷ cs)

  -- What a `for` over the comments goes over; the keys of an object and the characters of a text
  -- are texts, which the first turn of the loop refuses.
  abbrev pub comment_items : Json → Result Exception Items
  comment_items (arr xs) = ok xs
  comment_items (str s) = ok (if is_set s then cons (str s) nil else nil)
  comment_items (obj end) = ok nil
  comment_items (obj (field k v fs)) = ok (cons (str k) nil)
  comment_items value = type_error "object is not iterable"

  -- `PRReviewPayload.from_tool_input`
  unfoldable pub from_tool_input : Fields → Result Exception PrReviewPayload
  unfolding comments_from
  from_tool_input raw = do
    items ← comment_items (get_default "comments" (arr nil) raw)
    comments ← comments_from items
    n ← python.int_of (get_default "pr_number" (int (pos 0)) raw)
    ok (record {
      repo_full_name = text_of (get_default "repo_full_name" (str "") raw);
      pr_number = n;
      head_sha = text_of (get_default "head_sha" (str "") raw);
      body = text_of (get_default "body" (str "") raw);
      event = text_or (text_of (get_default "event" (str "COMMENT") raw)) "COMMENT";
      comments = comments;
    })

-- `PRReviewComment.to_client_input`
unfoldable pub to_client_input : PrReviewComment → Result Exception ReviewCommentInput
to_client_input c =
    if not (is_mapped c)
    then value_error "review comment requires path and line"
    else ok (record {
      path = c.path;
      body = with_attribution_text c.body;
      line = c.line;
      side = text_or c.side "RIGHT";
      start_line = c.start_line;
      start_side = text_or (text_or c.start_side c.side) "RIGHT";
    })

-- `PRReviewPayload.to_client_comments`
unfoldable pub to_client_comments :
    List PrReviewComment → Result Exception (List ReviewCommentInput)
to_client_comments [] = ok []
to_client_comments (c ∷ cs) = do i ← to_client_input c; rest ← to_client_comments cs; ok (i ∷ rest)
