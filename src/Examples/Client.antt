-- ===== src/Examples/Client.antt =====
-- A service with three comments, asked for two at a time.
use qaestro.Prelude.{
  ℕ, zero, suc, ◌≤◌, ◌*◌, ◌+ℤ◌, drop, ℤ, pos, String, ◌≡◌, refl, true, none, some, List, [], ◌∷◌,
  Result, ok, err, Exception, Dict, ◌==◌, string_eq, if◌then◌else◌, decimal, int_text,
  decimal_digits, take, text_take, arith,
}
use qaestro.Contracts.{Float}
use qaestro.Json.{Json, str, int, arr, nil, cons}
use qaestro.Outputs.{CommentResult}
use qaestro.GitHub.Http.{Library, json_of}
use qaestro.GitHub.Auth.{AppAuth, CachedToken, AuthParts, is_fresh}
use qaestro.GitHub.Auth.Issued.{Issued, installation_token-Issued}
use qaestro.GitHub.Auth.Issue.{installation_token}
use qaestro.GitHub.Client.{ClientConfig, list_issue_comments}
use qaestro.GitHub.Served.{comment_payload, page_url, Serves, IsServed, list_issue_comments-take}

abbrev comment_of : ℤ → String → CommentResult
comment_of id body = record { id = id; html_url = ""; body = body }

abbrev first : CommentResult
first = comment_of (pos 1) "one"

abbrev second : CommentResult
second = comment_of (pos 2) "two"

abbrev third : CommentResult
third = comment_of (pos 3) "three"

-- The bodies are the numbers of the pages, and so are their texts.
abbrev page_of : String → Json
page_of text =
    if text == "1"
    then arr (cons (comment_payload first) (cons (comment_payload second) nil))
    else if text == "2"
    then arr (cons (comment_payload third) nil)
    else arr nil

abbrev pub int_of : Json → Result Exception ℤ
int_of (int n) = ok n
int_of value = err (record { class_name = "TypeError"; message = "int() argument" })

abbrev library : Library String
library = record {
  has_bytes = λ b. true;
  decode = λ b. ok b;
  decode_replace = λ b. b;
  loads = λ text. ok (page_of text);
  dumps = λ value. "{}";
  int_of = int_of;
  str_of = λ value. "";
  int_of_text = λ text. none;
  quote = λ text. text;
  repr = λ text. text;
}

abbrev listed : String
listed = "https://api.github.com/repos/o/r/issues/7/comments?per_page=2&page="

abbrev pub seconds : ℕ → Float
seconds n = record { numerator = pos n; exponent = 0 }

-- The world counts the requests.
abbrev parts : AuthParts String ℕ ℕ
parts = record {
  now = λ w. (seconds 1000, w);
  request = λ method url headers body w. (
    ok (record {
      status = pos 200;
      headers = [];
      body =
          if url == "https://api.github.com/repos/o/r/issues/7/comments?per_page=2&page=1"
          then "1"
          else if url == "https://api.github.com/repos/o/r/issues/7/comments?per_page=2&page=2"
          then "2"
          else "0";
    }),
    suc w,
  );
  encode = λ payload key. ok key;
  fromisoformat = λ text. none;
  has_zone = λ d. true;
  in_utc = λ d. d;
  timestamp = λ d. seconds d;
}

abbrev pub auth : AppAuth
auth = record {
  app_id = pos 5;
  private_key = "key";
  installation_id = pos 9;
  api_base = "https://api.github.com";
}

abbrev pub cfg : ClientConfig
cfg = record { base_url = "https://api.github.com"; user_agent = "qaestro" }

abbrev pub token : CachedToken
token = record { token = str "t"; expires_at = seconds 2000 }

abbrev comments : ℕ → List CommentResult
comments w = first ∷ second ∷ third ∷ []

serves_page :
    (page : ℕ) (headers : Dict String String) (w : ℕ)
    → page * 2 ≤ 3
    → IsServed library "{}" cfg auth parts token "o" "r"
        (pos 7)
        comments
        (take 2 (drop (page * 2) (comments w)))
        w
        (parts.request "GET"
          (page_url library "{}" cfg auth parts token "o" "r" (pos 7) comments 2 (suc page))
          headers
          none
          w)
unfolding decimal decimal_digits text_take int_text json_of
serves_page zero headers w low = record {
  response = record { status = pos 200; headers = []; body = "1" };
  answered = refl;
  holds = record { succeeded = refl; parsed = refl };
  kept = refl;
}
serves_page (suc zero) headers w low = record {
  response = record { status = pos 200; headers = []; body = "2" };
  answered = refl;
  holds = record { succeeded = refl; parsed = refl };
  kept = refl;
}
serves_page (suc (suc page)) headers w low =
    let impossible : ⊥ = omega (arith, low) in elim impossible [ ]

serves : Serves library "{}" cfg auth parts token "o" "r" (pos 7) comments 2 (comments 0)
unfolding is_fresh ◌+ℤ◌ text_take int_text decimal decimal_digits
serves = record {
  reads_int = λ n. refl;
  fresh = λ w. refl;
  keeps_comments = λ w. refl;
  serves = λ page headers w same low sent. serves_page page headers w low;
}

list_issue_comments-take_example :
    (list_issue_comments library "{}" cfg auth parts "o" "r"
      (pos 7)
      2
      (record { cached = some token; world = 0 })).0
    ≡ ok (first ∷ second ∷ third ∷ [])
list_issue_comments-take_example =
    list_issue_comments-take library "{}" cfg auth parts token "o" "r" (pos 7) comments 2
      (omega arith) (omega arith) 0 serves

installation_token-Issued_example :
    Issued library auth parts "{}"
      (record { cached = some token; world = 0 })
      (installation_token library auth parts "{}" (record { cached = some token; world = 0 }))
installation_token-Issued_example =
    installation_token-Issued library auth parts "{}" (record { cached = some token; world = 0 })
