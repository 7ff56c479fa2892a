-- ===== src/GitHub/Auth.antt =====
-- `GitHubAppAuth` of src/adapters/connectors/github/auth.py, with what it
-- reads of a response. `D` are the values of `datetime`.
pub mod Issue
pub mod Issued
use qaestro.Prelude.{
  ℕ, zero, suc, ◌+◌, ◌*◌, ◌^◌, ℤ, pos, negsuc, String, Bool, not, ◌||◌, Option, none, some, List,
  [], ◌∷◌, Dict, Result, ok, err, ◌>>=◌, Exception, if◌then◌else◌, ltb_ℤ, ◌+ℤ◌, ◌⋈◌, int_text,
  is_set, rstrip_chars, replace_from,
}
use Prim.Native.Nat.{◌/◌}
use qaestro.Prelude.Exec.{Exec}
use qaestro.Contracts.{Float}
use qaestro.Json.{Json, null, str, int, obj, Fields, field, end, get, get_default}
use qaestro.Gateway.Values.{truthy, minus}
use qaestro.GitHub.Http.{
  HttpResponse, Transport, Library, GitHubFault, github_error, other, loads_body,
}

pub record AppAuth : Type 0 where
  pub app_id : ℤ
  pub private_key : String
  pub installation_id : ℤ
  pub api_base : String

abbrev value_error : {A : Type 0} → String → Result Exception A
value_error text = err (record { class_name = "ValueError"; message = text })

-- `GitHubAppAuth(...)`
unfoldable pub make_auth : ℤ → String → ℤ → String → Result Exception AppAuth
make_auth app_id private_key installation_id api_base =
    if not (ltb_ℤ (pos 0) app_id)
    then value_error "app_id must be a positive integer"
    else if not (ltb_ℤ (pos 0) installation_id)
    then value_error "installation_id must be a positive integer"
    else if not (is_set private_key)
    then value_error "private_key must not be empty"
    else ok (record {
      app_id = app_id;
      private_key = private_key;
      installation_id = installation_id;
      api_base = rstrip_chars "/" api_base;
    })

pub record CachedToken : Type 0 where
  pub token : Json
  pub expires_at : Float

-- What the authentication is given beside its fields: the clock, the transport, PyJWT's `encode`,
-- and of `datetime` its reading from ISO format, its zone and its timestamp.
pub record AuthParts (B W D : Type 0) : Type 0 where
  pub now : W → Float × W
  pub request : Transport B W
  pub encode : Json → String → Result Exception String
  pub fromisoformat : String → Option D
  pub has_zone : D → Bool
  pub in_utc : D → D
  pub timestamp : D → Float

-- The token of the instance, and the world that the transport and the clock act on.
pub record Connection (W : Type 0) : Type 0 where
  pub cached : Option CachedToken
  pub world : W

abbrev pub Connected : Type 0 → Type 0 → Type 0
Connected W A = Exec GitHubFault (Connection W) A

abbrev pub times : ℕ → ℤ → ℤ
times k (pos n) = pos (k * n)
times k (negsuc n) = minus (k * suc n)

-- `expires_at - _TOKEN_SKEW_SECONDS > now`, both sides times the two denominators: for a time of
-- 60 seconds or more the difference of the floats is exact.
unfoldable pub is_fresh : Float → CachedToken → Bool
is_fresh now t =
    let d = 2 ^ t.expires_at.exponent in
    let e = 2 ^ now.exponent in
    ltb_ℤ (times d now.numerator +ℤ pos (60 * (d * e))) (times e t.expires_at.numerator)

-- `int(x)`
abbrev pub truncated : Float → ℤ
truncated x = truncate x.numerator (2 ^ x.exponent)
  where
    truncate : ℤ → ℕ → ℤ
    truncate (pos n) d = pos (n / d)
    truncate (negsuc n) d = minus (suc n / d)

module _ {B W D : Type 0} (lib : Library B) (parts : AuthParts B W D) where
  -- `_parse_iso8601_z` of a value; one that is no text has no `replace`.
  unfoldable pub parse_iso8601_z : Json → Result GitHubFault Float
  parse_iso8601_z (str text) = elim (parts.fromisoformat (replace_from zero "Z" "+00:00" text)) [
    | none ↦ err (github_error ("invalid expires_at timestamp: " ⋈ lib.repr text) (pos 0))
    | some d ↦ ok (parts.timestamp (if parts.has_zone d then d else parts.in_utc d))
  ]
  parse_iso8601_z value =
      err (other (record { class_name = "AttributeError"; message = "no attribute 'replace'" }))

  abbrev pub not_json : {A : Type 0} → ℤ → Result Exception A → Result GitHubFault A
  not_json status (ok a) = ok a
  not_json status (err e) =
      err (github_error ("installation token response was not valid JSON: " ⋈ e.message) status)

  -- The token of a response; a value that is no object has no `get`.
  unfoldable pub token_of : ℤ → Json → Result GitHubFault CachedToken
  unfolding parse_iso8601_z
  token_of status (obj fields) =
      let token = get_default "token" null fields in
      let expires_at_raw = get_default "expires_at" null fields in
      if not (truthy token) || not (truthy expires_at_raw)
      then err (github_error "installation token response missing 'token' or 'expires_at'" status)
      else (do
        expires_at ← parse_iso8601_z expires_at_raw
        ok (record { token = token; expires_at = expires_at }))
  token_of status value =
      err (other (record { class_name = "AttributeError"; message = "no attribute 'get'" }))

  unfoldable pub read_token : HttpResponse B → Result GitHubFault CachedToken
  unfolding token_of
  read_token r = do value ← not_json r.status (loads_body lib r.body); token_of r.status value
