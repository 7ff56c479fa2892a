-- ===== src/GitHub/Served.antt =====
-- What `GitHubClient.list_issue_comments` (src/adapters/connectors/github/client.py) returns from a
-- service that pages its comments the way GitHub's documentation says.
use qaestro.Prelude.{
  ℕ, suc, ◌*◌, ◌≤◌, ℤ, pos, String, true, ◌≡◌, refl, ◌∙◌, Option, none, some, List, [], ◌∷◌, map,
  Dict, lookup, string_eq, Result, ok, Exception, ltb_ℤ, ◌⋈◌, int_text, decimal, length, take, drop,
  arith, leb, ◌&&◌,
}
use qaestro.Json.{Json, int, str, arr, obj, Fields, field, end, get, items_of}
use qaestro.Outputs.{CommentResult}
use qaestro.GitHub.Http.{HttpResponse, Library, shape_fault, json_of, raise_for_status}
use qaestro.GitHub.Auth.{AppAuth, CachedToken, AuthParts, Connection, Connected, is_fresh}
use qaestro.GitHub.Auth.Issue.{installation_token}
use qaestro.GitHub.Payload.{text_of, comment_result_from_payload, read_items}
use qaestro.GitHub.Client.{
  ClientConfig, updated, repo_path, token_headers, request, request_json, list_page, fetch_page,
  list_issue_comments,
}
use qaestro.GitHub.Paging.{max_pages}
use qaestro.GitHub.Listing.{FetchesSlices, walk_pages-take}

-- A comment as the service writes it.
abbrev comment_record : CommentResult → Fields
comment_record c =
    field "id" (int c.id) (field "html_url" (str c.html_url) (field "body" (str c.body) end))

abbrev pub comment_payload : CommentResult → Json
comment_payload c = obj (comment_record c)

module _ {B W D : Type 0} (lib : Library B) (no_body : B) (cfg : ClientConfig) (auth : AppAuth)
    (parts : AuthParts B W D) (t : CachedToken) where
  -- The response is a success with this value.
  pub record Holds (r : HttpResponse B) (v : Json) : Type 0 where
    pub succeeded : ltb_ℤ r.status (pos 400) ≡ true
    pub parsed : json_of lib r ≡ ok v

  installation_token_fresh :
      ((w : W) → is_fresh (parts.now w).0 t ≡ true)
      → (c : Connection W) → c.cached ≡ some t
      → installation_token lib auth parts no_body c
        ≡ (ok t.token, record c { world = (parts.now c.world).1 })
  unfolding installation_token
  installation_token_fresh h c e = rw (e, h c.world) refl

  raise_for_status_succeeded :
      (r : HttpResponse B) → ltb_ℤ r.status (pos 400) ≡ true → raise_for_status lib r ≡ ok tt
  unfolding raise_for_status
  raise_for_status_succeeded r h = rw h refl

  -- A request with the token that is answered with a value.
  pub request_json_answered :
      (method path : String) (body : Option B) (extra : Dict String String) (c : Connection W)
      (r : HttpResponse B) (v : Json)
      → ((w : W) → is_fresh (parts.now w).0 t ≡ true)
      → c.cached ≡ some t
      → (parts.request method
          (cfg.base_url ⋈ path)
          (updated extra (token_headers lib no_body cfg auth parts t.token))
          body
          (parts.now c.world).1).0
        ≡ ok r
      → Holds r v
      → request_json lib no_body cfg auth parts method path body extra c ≡ (
        ok v,
        record c {
          world =
              (parts.request method
                (cfg.base_url ⋈ path)
                (updated extra (token_headers lib no_body cfg auth parts t.token))
                body
                (parts.now c.world).1).1;
        },
      )
  unfolding request_json request
  request_json_answered method path body extra c r v fresh cached answered h =
      rw
        (
          installation_token_fresh fresh c cached,
          answered,
          raise_for_status_succeeded r h.succeeded,
          h.parsed,
        )
        refl

module _ {B W D : Type 0} (lib : Library B) (no_body : B) (cfg : ClientConfig) (auth : AppAuth)
    (parts : AuthParts B W D) (t : CachedToken) (owner repo : String) (number : ℤ)
    (comments_of : W → List CommentResult) where
  abbrev pub comments_path : String
  comments_path =
      repo_path lib no_body cfg auth parts owner repo ⋈ "/issues/" ⋈ int_text number ⋈ "/comments"

  abbrev pub page_url : ℕ → ℕ → String
  page_url per_page page =
      cfg.base_url ⋈ (comments_path ⋈ "?per_page=" ⋈ decimal per_page ⋈ "&page=" ⋈ decimal page)

  -- The request was answered with these comments, and left them alone.
  pub record IsServed (cs : List CommentResult) (w : W) (p : Result Exception (HttpResponse B) × W)
      : Type 0 where
    pub response : HttpResponse B
    pub answered : p.0 ≡ ok response
    pub holds :
        Holds lib no_body cfg auth parts t response (arr (items_of (map comment_payload cs)))
    pub kept : comments_of p.1 ≡ comments_of w

  -- The token stays fresh, and while these are the comments, a request with it for a page up to the
  -- first that is not full is served that page of them; reading the clock or a page changes no
  -- comment, and `int` reads an integer.
  pub record Serves (per_page : ℕ) (cs : List CommentResult) : Type 0 where
    pub reads_int : (n : ℤ) → lib.int_of (int n) ≡ ok n
    pub fresh : (w : W) → is_fresh (parts.now w).0 t ≡ true
    pub keeps_comments : (w : W) → comments_of (parts.now w).1 ≡ comments_of w
    pub serves :
        (page : ℕ) (headers : Dict String String) (w : W)
        → comments_of w ≡ cs
        → page * per_page ≤ length cs
        → lookup "Authorization" headers ≡ some ("Bearer " ⋈ text_of lib t.token)
        → IsServed
            (take per_page (drop (page * per_page) cs))
            w
            (parts.request "GET" (page_url per_page (suc page)) headers none w)

  pub read_comment :
      ((n : ℤ) → lib.int_of (int n) ≡ ok n)
      → (c : CommentResult) → comment_result_from_payload lib (comment_record c) ≡ ok c
  unfolding comment_result_from_payload get
  read_comment h c = rw (h c.id) refl

  read_comments :
      ((n : ℤ) → lib.int_of (int n) ≡ ok n)
      → (cs : List CommentResult)
      → read_items
          (shape_fault "unexpected issue-comments payload shape")
          (comment_result_from_payload lib)
          (items_of (map comment_payload cs))
        ≡ ok cs
  unfolding read_items
  read_comments h [] = refl
  read_comments h (c ∷ cs) = rw (read_comment h c, read_comments h cs) refl

  -- The connection has the token, and the service these comments.
  abbrev pub IsReady : List CommentResult → Connection W → Type 0
  IsReady cs c = (c.cached ≡ some t) × (comments_of c.world ≡ cs)

  abbrev fetch_comments : ℕ → ℕ → Connected W (List CommentResult)
  fetch_comments per_page =
      fetch_page lib no_body cfg auth parts (list_page "unexpected issue-comments payload shape")
        (shape_fault "unexpected issue-comments payload shape") (comment_result_from_payload lib)
        comments_path per_page

  fetch_page-served :
      (per_page : ℕ) (cs : List CommentResult)
      → Serves per_page cs
      → FetchesSlices (fetch_comments per_page) per_page (IsReady cs) cs
  unfolding fetch_page updated lookup
  fetch_page-served per_page cs h = record {
    at = λ page c low (cached, same).
        let w = (parts.now c.world).1 in
        let same' = h.keeps_comments c.world ∙ same in
        let served =
          h.serves page (token_headers lib no_body cfg auth parts t.token) w same' low refl in
        rw
          (request_json_answered lib no_body cfg auth parts t "GET"
            (comments_path ⋈ "?per_page=" ⋈ decimal per_page ⋈ "&page=" ⋈ decimal (suc page)) none
            [] c served.response _ h.fresh cached served.answered served.holds)
          (read_comments h.reads_int _, (cached, served.kept ∙ same'));
  }

  -- The listing in a connection that is ready, which stays so.
  pub list_issue_comments-IsReady :
      (per_page : ℕ)
      → 1 ≤ per_page
      → per_page ≤ 100
      → (cs : List CommentResult) → Serves per_page cs
      → (c : Connection W) → IsReady cs c
      → ((list_issue_comments lib no_body cfg auth parts owner repo number per_page c).0
          ≡ ok (take (max_pages * per_page) cs))
        × IsReady cs (list_issue_comments lib no_body cfg auth parts owner repo number per_page c).1
  unfolding list_issue_comments
  list_issue_comments-IsReady per_page low high cs h c ready =
      let inside : (leb 1 per_page && leb per_page 100) ≡ true = ground arith in
      rw inside (
        walk_pages-take (fetch_comments per_page) per_page (IsReady cs) cs
          (fetch_page-served per_page cs h) c ready)

  -- From a service that serves the pages of its comments, the client with a fresh token lists the
  -- comments in their order, up to the 30 pages that it asks for.
  pub list_issue_comments-take :
      (per_page : ℕ)
      → 1 ≤ per_page
      → per_page ≤ 100
      → (w : W) → Serves per_page (comments_of w)
      → (list_issue_comments lib no_body cfg auth parts owner repo number per_page
          (record { cached = some t; world = w })).0
        ≡ ok (take (max_pages * per_page) (comments_of w))
  list_issue_comments-take per_page low high w h =
      (list_issue_comments-IsReady per_page low high (comments_of w) h
        (record { cached = some t; world = w }) (refl, refl)).0
