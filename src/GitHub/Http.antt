-- ===== src/GitHub/Http.antt =====
-- HTTP as the GitHub connector sees it (src/adapters/connectors/github/transport.py, errors.py and
-- the helpers of client.py that read a response). `B` are the bytes of a body.
use qaestro.Prelude.{
  ℤ, pos, String, Bool, false, not, ◌&&◌, ◌||◌, Option, none, some, Dict, lookup, Result, ok, err,
  ◌>>=◌, Exception, if◌then◌else◌, ltb_ℤ, ◌==◌, int_eq, string_eq, ◌⋈◌, int_text, text_take, lower,
  occurs, is_some,
}
use qaestro.Prelude.Exec.{Exec}
use qaestro.Json.{Json, null}

pub record HttpResponse (B : Type 0) : Type 0 where
  pub status : ℤ
  pub headers : Dict String String
  pub body : B

-- `HTTPTransport.request`: method, address, headers and body.
abbrev pub Transport : Type 0 → Type 0 → Type 0
Transport B W = String → String → Dict String String → Option B → Exec Exception W (HttpResponse B)

-- Python's library as the connector uses it: `decode("utf-8")` with and without `errors="replace"`,
-- `json.loads`, `json.dumps(value).encode("utf-8")`, `int` and `str` on a value, `int` on a text,
-- `urllib.parse.quote(text, safe="")`, and `repr` of a text.
pub record Library (B : Type 0) : Type 0 where
  pub has_bytes : B → Bool
  pub decode : B → Result Exception String
  pub decode_replace : B → String
  pub loads : String → Result Exception Json
  pub dumps : Json → B
  pub int_of : Json → Result Exception ℤ
  pub str_of : Json → String
  pub int_of_text : String → Option ℤ
  pub quote : String → String
  pub repr : String → String

-- What the connector raises: `GitHubError` and its subclasses with their text and status, and any
-- other exception.
pub data GitHubFault : Type 0 where
  github_error auth_error not_found_error : String → ℤ → GitHubFault
  rate_limit_error : String → ℤ → Option ℤ → GitHubFault
  other : Exception → GitHubFault

abbrev pub exception_of : GitHubFault → Exception
exception_of (github_error text status) = record { class_name = "GitHubError"; message = text }
exception_of (auth_error text status) = record { class_name = "AuthError"; message = text }
exception_of (not_found_error text status) = record { class_name = "NotFoundError"; message = text }
exception_of (rate_limit_error text status reset_at) = record {
  class_name = "RateLimitError";
  message = text;
}
exception_of (other e) = e

abbrev pub faulted : {A : Type 0} → Result Exception A → Result GitHubFault A
faulted (ok a) = ok a
faulted (err e) = err (other e)

abbrev pub value_fault : {A : Type 0} → String → Result GitHubFault A
value_fault text = err (other (record { class_name = "ValueError"; message = text }))

-- `GitHubError(text)`
abbrev pub shape_fault : {A : Type 0} → String → Result GitHubFault A
shape_fault text = err (github_error text (pos 0))

-- `_header`; the keys of the headers are in lower case.
abbrev pub header : {B : Type 0} → HttpResponse B → String → Option String
header r name = lookup name r.headers

unfoldable pub is_rate_limited : {B : Type 0} → HttpResponse B → String → Bool
is_rate_limited r detail =
    is_zero (header r "x-ratelimit-remaining")
    || is_some (header r "retry-after")
    || occurs "rate limit" (lower detail)
    || occurs "abuse detection" (lower detail)
  where
    is_zero : Option String → Bool
    is_zero none = false
    is_zero (some s) = s == "0"

module _ {B : Type 0} (lib : Library B) where
  -- `json.loads(body.decode("utf-8"))`
  abbrev pub loads_body : B → Result Exception Json
  loads_body body = do text ← lib.decode body; lib.loads text

  -- `HTTPResponse.json`
  unfoldable pub json_of : HttpResponse B → Result Exception Json
  json_of r = if not (lib.has_bytes r.body) then ok null else loads_body r.body

  abbrev pub detail_of : HttpResponse B → String
  detail_of r = if lib.has_bytes r.body then text_take 200 (lib.decode_replace r.body) else ""

  -- `_int_header`
  abbrev pub int_header : Option String → Option ℤ
  int_header none = none
  int_header (some text) = lib.int_of_text text

  abbrev pub reset_at_of : HttpResponse B → Option ℤ
  reset_at_of r = int_header (header r "x-ratelimit-reset")

  -- `_raise_for_status` of client.py.
  unfoldable pub raise_for_status : HttpResponse B → Result GitHubFault (Unit {0})
  raise_for_status r =
      let detail = detail_of r in
      if ltb_ℤ r.status (pos 400)
      then ok tt
      else if r.status == pos 404
      then err (not_found_error ("not found: " ⋈ detail) (pos 404))
      else if r.status == pos 429
      then err (rate_limit_error ("rate limited: " ⋈ detail) (pos 429) (reset_at_of r))
      else if r.status == pos 403 && is_rate_limited r detail
      then err (rate_limit_error ("rate limit exhausted: " ⋈ detail) (pos 403) (reset_at_of r))
      else if r.status == pos 401 || r.status == pos 403
      then err (auth_error ("auth failed (status=" ⋈ int_text r.status ⋈ "): " ⋈ detail) r.status)
      else err
          (github_error ("github error (status=" ⋈ int_text r.status ⋈ "): " ⋈ detail) r.status)

  -- `_raise_for_status` of auth.py.
  unfoldable pub raise_for_exchange : HttpResponse B → Result GitHubFault (Unit {0})
  raise_for_exchange r =
      let detail = detail_of r in
      let shown = "(status=" ⋈ int_text r.status ⋈ "): " ⋈ detail in
      if ltb_ℤ r.status (pos 400)
      then ok tt
      else if r.status == pos 429 || is_rate_limited r detail
      then err (
          rate_limit_error ("installation token exchange rate limited " ⋈ shown) r.status
            (reset_at_of r))
      else if r.status == pos 401 || r.status == pos 403
      then err (auth_error ("GitHub App auth rejected " ⋈ shown) r.status)
      else err (github_error ("installation token exchange failed " ⋈ shown) r.status)
