-- ===== src/Examples/Service.antt =====
-- A service with one managed comment, written through the client.
use qaestro.Prelude.{
  ℕ, zero, suc, ◌*◌, ◌≤◌, ℤ, pos, String, ◌≡◌, refl, ap, ◌∙◌, false≢true, true, Option, none, some,
  List, [], ◌∷◌, ◌++◌, ok, Dict, ◌==◌, string_eq, if◌then◌else◌, take, drop, ◌⋈◌, ◌+ℤ◌, is_set,
  strip, arith, inl, inr,
}
use qaestro.Json.{Json, str, arr, obj, cons, nil, field, get}
use qaestro.Outputs.{CommentResult}
use qaestro.GitHub.{GitHubClient}
use qaestro.GitHub.Http.{Library, json_of}
use qaestro.GitHub.Auth.{AuthParts, Connection, is_fresh}
use qaestro.GitHub.Served.{comment_payload, comments_path, page_url, Serves, IsServed}
use qaestro.GitHub.Connected.{github_client, default_per_page}
use qaestro.GitHub.Upsert.{HasId, with_body, IsUpserted}
use qaestro.GitHub.Handlers.{
  persisted_comment_body, marker_input, create_or_update_comment, body_input,
}
use qaestro.GitHub.Service.{
  IsWritten, Writes, comment_path, body_bytes, github_client-KeepsComments,
  github_client-IsUpserted,
}
use qaestro.Examples.Client.{int_of, seconds, auth, cfg, token}
use qaestro.Examples.GitHub.{python, input, input_named}

abbrev managed : CommentResult
managed = record { id = pos 1; html_url = ""; body = "Old <!-- qaestro -->" }

abbrev comment_of : String → CommentResult
comment_of text = record { id = pos 1; html_url = ""; body = text }

-- The empty text is the page, any other the comment of this body.
abbrev value_of : String → Json
value_of String.[] = arr (cons (comment_payload managed) nil)
value_of (String.◌∷◌ c s) = comment_payload (comment_of (String.◌∷◌ c s))

abbrev text_in : Json → String
text_in (obj (field k (str s) fs)) = s
text_in v = ""

abbrev library : Library String
library = record {
  has_bytes = λ b. true;
  decode = λ b. ok b;
  decode_replace = λ b. b;
  loads = λ text. ok (value_of text);
  dumps = text_in;
  int_of = int_of;
  str_of = λ value. "";
  int_of_text = λ text. none;
  quote = λ text. text;
  repr = λ text. text;
}

abbrev answer : Option String → String
answer none = ""
answer (some text) = text

abbrev left_by : String → Option String → List CommentResult → List CommentResult
left_by method none cs = cs
left_by method (some text) cs =
    if method == "POST" then cs ++ comment_of text ∷ [] else with_body (pos 1) text cs

abbrev parts : AuthParts String (List CommentResult) ℕ
parts = record {
  now = λ w. (seconds 1000, w);
  request = λ method url headers body w.
      (ok (record { status = pos 200; headers = []; body = answer body }), left_by method body w);
  encode = λ payload key. ok key;
  fromisoformat = λ text. none;
  has_zone = λ d. true;
  in_utc = λ d. d;
  timestamp = λ d. seconds d;
}

abbrev comments : List CommentResult
comments = managed ∷ []

first_page :
    (page : ℕ) (headers : Dict String String) (w : List CommentResult)
    → page * default_per_page ≤ 1
    → IsServed library "" cfg auth parts token "o" "r"
        (pos 7)
        (λ w. w)
        (take default_per_page (drop (page * default_per_page) comments))
        w
        (parts.request "GET"
          (page_url library "" cfg auth parts token "o" "r"
            (pos 7)
            (λ w. w)
            default_per_page
            (suc page))
          headers
          none
          w)
unfolding json_of
first_page zero headers w low = record {
  response = record { status = pos 200; headers = []; body = "" };
  answered = refl;
  holds = record { succeeded = refl; parsed = refl };
  kept = refl;
}
first_page (suc page) headers w low = let impossible : ⊥ = omega (arith, low) in elim impossible [ ]

serves : Serves library "" cfg auth parts token "o" "r" (pos 7) (λ w. w) default_per_page comments
unfolding is_fresh ◌+ℤ◌
serves = record {
  reads_int = λ n. refl;
  fresh = λ w. refl;
  keeps_comments = λ w. refl;
  serves = λ page headers w same low sent. first_page page headers w low;
}

created :
    (body : String) (headers : Dict String String) (w : List CommentResult)
    → w ≡ comments
    → is_set (strip body) ≡ true
    → IsWritten library "" cfg auth parts token "o" "r"
        (pos 7)
        (λ w. w)
        comments
        body
        (λ c. comments ++ c ∷ [])
        (parts.request "POST"
          (cfg.base_url ⋈ comments_path library "" cfg auth parts token "o" "r" (pos 7) (λ w. w))
          headers
          (some (body_bytes library "" cfg auth parts token "o" "r" (pos 7) (λ w. w) comments body))
          w)
unfolding json_of strip is_set
created String.[] headers w same full = elim (false≢true full) [ ]
created (String.◌∷◌ c s) headers w same full = record {
  written = comment_of (String.◌∷◌ c s);
  response = record { status = pos 200; headers = []; body = String.◌∷◌ c s };
  answered = refl;
  holds = record { succeeded = refl; parsed = refl };
  with_text = refl;
  left = ap (λ cs. cs ++ comment_of (String.◌∷◌ c s) ∷ []) same;
}

updated :
    (id : ℤ) (body : String) (headers : Dict String String) (w : List CommentResult)
    → w ≡ comments
    → is_set (strip body) ≡ true
    → HasId id comments
    → IsWritten library "" cfg auth parts token "o" "r"
        (pos 7)
        (λ w. w)
        comments
        body
        (λ c. with_body id body comments)
        (parts.request "PATCH"
          (cfg.base_url
            ⋈ comment_path library "" cfg auth parts token "o" "r" (pos 7) (λ w. w) comments id)
          headers
          (some (body_bytes library "" cfg auth parts token "o" "r" (pos 7) (λ w. w) comments body))
          w)
unfolding json_of strip is_set
updated id String.[] headers w same full known = elim (false≢true full) [ ]
updated id (String.◌∷◌ c s) headers w same full (inr none_left) = elim none_left [ ]
updated id (String.◌∷◌ c s) headers w same full (inl first) = record {
  written = comment_of (String.◌∷◌ c s);
  response = record { status = pos 200; headers = []; body = String.◌∷◌ c s };
  answered = refl;
  holds = record { succeeded = refl; parsed = refl };
  with_text = refl;
  left =
      ap (with_body (pos 1) (String.◌∷◌ c s)) same
      ∙ ap (λ i. with_body i (String.◌∷◌ c s) comments) first;
}

writes : Writes library "" cfg auth parts token "o" "r" (pos 7) (λ w. w) comments
writes = record {
  creates = λ body headers w same full sent. created body headers w same full;
  updates = λ id body headers w same full known sent. updated id body headers w same full known;
}

few : 1 ≤ 3000
few = omega arith

abbrev connection : Connection (List CommentResult)
connection = record { cached = some token; world = comments }

abbrev client : GitHubClient (Connection (List CommentResult))
client = github_client library "" cfg auth parts

marked : is_set (marker_input client python input) ≡ true
unfolding is_set get strip
marked = refl

github_client-IsUpserted_example :
    IsUpserted client python
      (λ c. c.world)
      (λ c. (c.cached ≡ some token) × (c.world ≡ comments))
      "o"
      "r"
      (pos 7)
      (github_client-KeepsComments library "" cfg auth parts token "o" "r"
        (pos 7)
        (λ w. w)
        comments
        serves
        writes
        few)
      (marker_input client python input)
      (persisted_comment_body (body_input client python input) (marker_input client python input))
      connection
      (create_or_update_comment client python input connection)
github_client-IsUpserted_example =
    github_client-IsUpserted library "" cfg auth parts token "o" "r" (pos 7) (λ w. w) comments
      python serves writes few input connection input_named marked (refl, refl)
