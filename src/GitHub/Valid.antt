-- ===== src/GitHub/Valid.antt =====
-- What the GitHub tools accept as a repository, and that they call nothing on another one.
use Prim.Native.Char.{Char, code}
use qaestro.Prelude.{
  String, true, ◌&&◌, ◌≡◌, refl, sym, ap, ◌∙◌, subst, List, [], ◌∷◌, ok, err, Exception, Bool-cases,
  inl, inr, arith, All, is_set, join, split_at_chars, push_char, is_among, ◌⋈◌, eqb_iff,
  is_nonempty,
}
use text.Mathlib.TextEquality.{Char-path}
use text.Mathlib.TextLemmas.{nil-append, cons-append}
use qaestro.Json.{Fields}
use qaestro.Tools.{ToolCall, ToolDefinition}
use qaestro.GitHub.{GitHubClient, GitHubValue}
use qaestro.GitHub.Input.{Python, repository_of_parts, split_repo, repo_input, repo_pr_input}
use qaestro.GitHub.Handlers.{
  get_pull_request, list_pull_request_files, get_pull_request_diff, list_workflow_run_jobs,
  list_check_runs_for_ref, create_or_update_comment, list_pull_request_reviews,
  create_pull_request_review, build_github_pr_tools,
}

abbrev slash : Char
slash = "/"

slash_only : (c : Char) → is_among c "/" ≡ true → c ≡ slash
unfolding is_among
slash_only c h = Char-path c slash ((eqb_iff (code c) (code slash)).0 (ground arith))

join-push_char :
    (c : Char) (ws : List String) → join "/" (push_char c ws) ≡ String.◌∷◌ c (join "/" ws)
unfolding join push_char
join-push_char c [] = refl
join-push_char c (w ∷ []) = refl
join-push_char c (w ∷ (v ∷ ws)) = cons-append c w ("/" ⋈ join "/" (v ∷ ws))

split-nonempty : (s : String) → is_nonempty (split_at_chars "/" s) ≡ true
unfolding split_at_chars push_char
split-nonempty String.[] = refl
split-nonempty (String.◌∷◌ c s) = elim (Bool-cases (is_among c "/")) [
  | inl h ↦ rw h refl
  | inr h ↦ rw h (push-nonempty c (split_at_chars "/" s))
]
  where
    push-nonempty : (c : Char) (ws : List String) → is_nonempty (push_char c ws) ≡ true
    push-nonempty c [] = refl
    push-nonempty c (w ∷ ws) = refl

join_empty :
    (ws : List String) → is_nonempty ws ≡ true → join "/" ("" ∷ ws) ≡ String.◌∷◌ slash (join "/" ws)
unfolding join
join_empty [] h = cc
join_empty (w ∷ ws) h =
    nil-append ("/" ⋈ join "/" (w ∷ ws))
    ∙ cons-append slash "" (join "/" (w ∷ ws))
    ∙ ap (String.◌∷◌ slash) (nil-append (join "/" (w ∷ ws)))

join-split_at_chars : (s : String) → join "/" (split_at_chars "/" s) ≡ s
unfolding split_at_chars join
join-split_at_chars String.[] = refl
join-split_at_chars (String.◌∷◌ c s) = elim (Bool-cases (is_among c "/")) [
  | inr h ↦
      rw h (join-push_char c (split_at_chars "/" s) ∙ ap (String.◌∷◌ c) (join-split_at_chars s))
  | inl h ↦
      rw (h, slash_only c h)
        (join_empty (split_at_chars "/" s) (split-nonempty s)
          ∙ ap (String.◌∷◌ slash) (join-split_at_chars s))
]

-- The name is an owner and a repository, neither of them empty.
abbrev pub IsRepository : String → String × String → Type 0
IsRepository name (owner, repo) =
    (name ≡ owner ⋈ ("/" ⋈ repo)) × ((is_set owner ≡ true) × (is_set repo ≡ true))

parts-IsRepository :
    (repr : String → String) (name : String) (parts : List String) (p : String × String)
    → join "/" parts ≡ name
    → repository_of_parts repr name parts ≡ ok p
    → IsRepository name p
unfolding join
parts-IsRepository repr name [] p h k = cc
parts-IsRepository repr name (owner ∷ []) p h k = cc
parts-IsRepository repr name (owner ∷ (repo ∷ (x ∷ xs))) p h k = cc
parts-IsRepository repr name (owner ∷ (repo ∷ [])) p h k =
    elim (Bool-cases (is_set owner && is_set repo)) [
      | inr l ↦ cc (rw l at k)
      | inl l ↦
          let e : (owner, repo) ≡ p = cc (rw l at k) in
          subst (IsRepository name) e (sym h, (ground arith, ground arith))
    ]

-- What is accepted as a repository is an owner and a repository name with one slash between.
split_repo-IsRepository :
    (repr : String → String) (name : String) (p : String × String)
    → split_repo repr name ≡ ok p
    → IsRepository name p
unfolding split_repo
split_repo-IsRepository repr name p h =
    parts-IsRepository repr name (split_at_chars "/" name) p (join-split_at_chars name) h

module _ {W : Type 0} (client : GitHubClient W) (python : Python) where
  -- The handler raises the exception of the input and leaves the world as it is.
  abbrev pub Refuses :
      Exception → ToolCall Fields → W → ToolDefinition Fields GitHubValue W → Type 0
  Refuses e call w t = t.handler call w ≡ (err e.message, w)

  repo_pr_input-err :
      (input : Fields) (e : Exception)
      → repo_input python input ≡ err e
      → repo_pr_input python input ≡ err e
  unfolding repo_pr_input
  repo_pr_input-err input e h = rw h refl

  -- Where the input names no repository, every GitHub tool raises and calls nothing of the client.
  build_github_pr_tools-Refuses :
      (call : ToolCall Fields) (w : W) (e : Exception)
      → repo_input python call.input ≡ err e
      → All (Refuses e call w) (build_github_pr_tools client python)
  unfolding build_github_pr_tools get_pull_request list_pull_request_files get_pull_request_diff
      list_workflow_run_jobs list_check_runs_for_ref create_or_update_comment
      list_pull_request_reviews create_pull_request_review
  build_github_pr_tools-Refuses call w e h =
      let p = repo_pr_input-err call.input e h in
      (
        rw p refl,
        (
          rw p refl,
          (rw p refl, (rw h refl, (rw h refl, (rw p refl, (rw p refl, (rw p refl, tt)))))),
        ),
      )
