-- ===== src/GitHub/Service.antt =====
-- The client of src/adapters/connectors/github/client.py over a service that keeps the comments of a
-- pull request, and with it the tool that writes a managed comment
-- (src/runtime/tools/github.py).
use qaestro.Prelude.{
  ◌*◌, ◌≤◌, ℤ, String, true, ◌≡◌, refl, sym, ap, ◌∙◌, some, List, [], ◌∷◌, ◌++◌, Dict, lookup,
  string_eq, Result, ok, Exception, ◌⋈◌, int_text, length, take_all, is_set, strip, arith, insert,
}
use qaestro.Prelude.Exec.{lift, ◌>>=◌}
use qaestro.Json.{Fields, str, obj, field, end}
use qaestro.Outputs.{CommentResult}
use qaestro.GitHub.Http.{HttpResponse, Library}
use qaestro.GitHub.Auth.{AppAuth, CachedToken, AuthParts, Connection}
use qaestro.GitHub.Payload.{text_of, comment_result_from_payload}
use qaestro.GitHub.Client.{
  ClientConfig, repo_path, token_headers, json_content, updated, request_object,
  create_issue_comment, update_issue_comment, list_issue_comments,
}
use qaestro.GitHub.Paging.{max_pages}
use qaestro.GitHub.Connected.{default_per_page, as_raised, github_client}
use qaestro.GitHub.Served.{
  Holds, comment_payload, comments_path, Serves, request_json_answered, read_comment,
  list_issue_comments-IsReady,
}
use qaestro.GitHub.Input.{Python, repo_pr_input}
use qaestro.GitHub.Handlers.{
  persisted_comment_body, body_input, marker_input, create_or_update_comment,
}
use qaestro.GitHub.Upsert.{
  HasId, with_body, KeepsComments, IsUpserted, create_or_update_comment-IsUpserted,
}

module _ {B W D : Type 0} (lib : Library B) (no_body : B) (cfg : ClientConfig) (auth : AppAuth)
    (parts : AuthParts B W D) (t : CachedToken) (owner repo : String) (number : ℤ)
    (comments_of : W → List CommentResult) (cs : List CommentResult) where
  -- The request was answered with a comment of this body, and left these comments.
  pub record IsWritten (body : String) (after : CommentResult → List CommentResult)
      (p : Result Exception (HttpResponse B) × W) : Type 0 where
    pub written : CommentResult
    pub response : HttpResponse B
    pub answered : p.0 ≡ ok response
    pub holds : Holds lib no_body cfg auth parts t response (comment_payload written)
    pub with_text : written.body ≡ body
    pub left : comments_of p.1 ≡ after written

  abbrev pub body_bytes : String → B
  body_bytes body = lib.dumps (obj (field "body" (str body) end))

  abbrev pub comment_path : ℤ → String
  comment_path id =
      repo_path lib no_body cfg auth parts owner repo ⋈ "/issues/comments/" ⋈ int_text id

  -- While these are the comments, a request with the token and a body that is not blank creates a
  -- comment at the end, or updates those with an id that one of them has.
  pub record Writes : Type 0 where
    pub creates :
        (body : String) (headers : Dict String String) (w : W)
        → comments_of w ≡ cs
        → is_set (strip body) ≡ true
        → lookup "Authorization" headers ≡ some ("Bearer " ⋈ text_of lib t.token)
        → IsWritten body
            (λ c. cs ++ c ∷ [])
            (parts.request "POST"
              (cfg.base_url
                ⋈ comments_path lib no_body cfg auth parts t owner repo number comments_of)
              headers
              (some (body_bytes body))
              w)
    pub updates :
        (id : ℤ) (body : String) (headers : Dict String String) (w : W)
        → comments_of w ≡ cs
        → is_set (strip body) ≡ true
        → HasId id cs
        → lookup "Authorization" headers ≡ some ("Bearer " ⋈ text_of lib t.token)
        → IsWritten body
            (λ c. with_body id body cs)
            (parts.request "PATCH"
              (cfg.base_url ⋈ comment_path id)
              headers
              (some (body_bytes body))
              w)

  -- The connection has the token, and the service the comments.
  abbrev pub IsConnected : Connection W → Type 0
  IsConnected c = (c.cached ≡ some t) × (comments_of c.world ≡ cs)

  -- The headers of a write, and the world when it is sent.
  abbrev write_headers : Dict String String
  write_headers =
      updated (json_content lib no_body cfg auth parts)
        (token_headers lib no_body cfg auth parts t.token)

  abbrev after_clock : Connection W → W
  after_clock c = (parts.now c.world).1

  abbrev write : String → String → String → Connection W → Result Exception (HttpResponse B) × W
  write method path body c =
      parts.request method (cfg.base_url ⋈ path) write_headers (some (body_bytes body))
        (after_clock c)

  write_answered :
      (text method path body : String) (after : CommentResult → List CommentResult)
      (c : Connection W)
      → Serves lib no_body cfg auth parts t owner repo number comments_of default_per_page cs
      → c.cached ≡ some t
      → (done : IsWritten body after (write method path body c))
      → (request_object lib no_body cfg auth parts text method path
              (some (body_bytes body))
              (json_content lib no_body cfg auth parts)
            >>= λ fs. lift (comment_result_from_payload lib fs))
          c
        ≡ (ok done.written, record c { world = (write method path body c).1 })
  write_answered text method path body after c serves cached done =
      rw
        (
          request_json_answered lib no_body cfg auth parts t method path (some (body_bytes body))
              (json_content lib no_body cfg auth parts) c done.response _ serves.fresh cached
              done.answered done.holds,
          read_comment lib no_body cfg auth parts t owner repo number comments_of serves.reads_int
              done.written,
        )
        refl

  pub github_client-KeepsComments :
      Serves lib no_body cfg auth parts t owner repo number comments_of default_per_page cs
      → Writes
      → length cs ≤ max_pages * default_per_page
      → KeepsComments
          (github_client lib no_body cfg auth parts)
          (λ c. comments_of c.world)
          IsConnected
          owner
          repo
          number
  unfolding github_client create_issue_comment update_issue_comment updated lookup insert
  github_client-KeepsComments serves writes few = record {
    lists = λ c (cached, same).
        let (listed, ready) =
          list_issue_comments-IsReady lib no_body cfg auth parts t owner repo number comments_of
            default_per_page (omega arith) (omega arith) cs serves c (cached, same) in
        let c' =
          (list_issue_comments lib no_body cfg auth parts owner repo number default_per_page c).1 in
        (
          c',
          ap (λ r. (as_raised r, c')) (listed ∙ ap ok (take_all _ cs few ∙ sym same)),
          ready.1 ∙ sym same,
          ready,
        );
    creates = λ body c full (cached, same).
        let kept = serves.keeps_comments c.world ∙ same in
        let done = writes.creates body write_headers (after_clock c) kept full refl in
        let path = comments_path lib no_body cfg auth parts t owner repo number comments_of in
        let answered = write_answered _ "POST" path body _ c serves cached done in
        (
          done.written,
          record c { world = (write "POST" path body c).1 },
          rw full (ap (λ p. (as_raised p.0, p.1)) answered),
          done.with_text,
          done.left ∙ ap (λ ds. ds ++ done.written ∷ []) (sym same),
        );
    updates = λ id body c full known (cached, same).
        let kept = serves.keeps_comments c.world ∙ same in
        let done =
          writes.updates id body write_headers (after_clock c) kept full (rw same at known) refl in
        let answered = write_answered _ "PATCH" (comment_path id) body _ c serves cached done in
        (
          done.written,
          record c { world = (write "PATCH" (comment_path id) body c).1 },
          rw full (ap (λ p. (as_raised p.0, p.1)) answered),
          done.left ∙ ap (with_body id body) (sym same),
        );
  }

  -- Over a service that keeps the comments, a write of a managed comment through the client, on a
  -- pull request that the input names and whose comments a listing holds, leaves this comment with
  -- the new body, and adds a comment only if there was no managed one.
  pub github_client-IsUpserted :
      (python : Python)
      (serves : Serves lib no_body cfg auth parts t owner repo number comments_of default_per_page
        cs)
      (writes : Writes) (few : length cs ≤ max_pages * default_per_page) (input : Fields)
      (c : Connection W)
      → repo_pr_input python input ≡ ok (owner, repo, number)
      → is_set (marker_input (github_client lib no_body cfg auth parts) python input) ≡ true
      → IsConnected c
      → IsUpserted
          (github_client lib no_body cfg auth parts)
          python
          (λ c. comments_of c.world)
          IsConnected
          owner
          repo
          number
          (github_client-KeepsComments serves writes few)
          (marker_input (github_client lib no_body cfg auth parts) python input)
          (persisted_comment_body
            (body_input (github_client lib no_body cfg auth parts) python input)
            (marker_input (github_client lib no_body cfg auth parts) python input))
          c
          (create_or_update_comment (github_client lib no_body cfg auth parts) python input c)
  github_client-IsUpserted python serves writes few input c named marked connected =
      create_or_update_comment-IsUpserted (github_client lib no_body cfg auth parts) python
        (λ c. comments_of c.world) IsConnected owner repo number
        (github_client-KeepsComments serves writes few) input c named marked connected
