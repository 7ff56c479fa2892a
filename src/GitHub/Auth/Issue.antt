-- ===== src/GitHub/Auth/Issue.antt =====
-- How `GitHubAppAuth` of src/adapters/connectors/github/auth.py issues tokens, in one thread: the
-- lock is taken and given back within `installation_token`.
use qaestro.Prelude.{
  pos, negsuc, String, Option, none, some, [], ◌∷◌, Dict, ok, ◌+ℤ◌, ◌⋈◌, int_text, if◌then◌else◌,
}
use qaestro.Prelude.Exec.{pure, lift, ◌>>=◌, ◌>>◌}
use qaestro.Contracts.{Float}
use qaestro.Json.{Json, str, int, obj, field, end}
use qaestro.GitHub.Http.{HttpResponse, Library, faulted, raise_for_exchange}
use qaestro.GitHub.Auth.{
  AppAuth, CachedToken, AuthParts, Connected, is_fresh, truncated, read_token,
}

module _ {B W D : Type 0} (lib : Library B) (auth : AppAuth) (parts : AuthParts B W D) where
  abbrev pub clock : Connected W Float
  clock c = let (t, w) = parts.now c.world in (ok t, record c { world = w })

  abbrev pub send : String → String → Dict String String → Option B → Connected W (HttpResponse B)
  send method url headers body c =
      let (r, w) = parts.request method url headers body c.world in
      (faulted r, record c { world = w })

  -- `app_jwt`
  unfoldable pub app_jwt : Connected W String
  app_jwt = do
    time ← clock
    let now = truncated time
    lift (
        faulted (
          parts.encode
            (obj (
              field "iat" (int (now +ℤ negsuc 59)) (
                field "exp" (int (now +ℤ pos 540)) (field "iss" (str (int_text auth.app_id)) end))))
            auth.private_key))

  abbrev pub token_request : B → String → Connected W (HttpResponse B)
  token_request no_body token =
      send "POST"
        (auth.api_base ⋈ "/app/installations/" ⋈ int_text auth.installation_id ⋈ "/access_tokens")
        (("Authorization", "Bearer " ⋈ token)
          ∷ ("Accept", "application/vnd.github+json")
          ∷ ("X-GitHub-Api-Version", "2022-11-28")
          ∷ ("User-Agent", "qaestro")
          ∷ [])
        (some no_body)

  -- `_exchange_for_installation_token`, with the empty body that is sent.
  unfoldable pub exchange : B → Connected W CachedToken
  unfolding app_jwt
  exchange no_body = do
    token ← app_jwt
    r ← token_request no_body token
    lift (raise_for_exchange lib r)
    lift (read_token lib parts r)

  -- The cached token, where it is still fresh.
  abbrev pub fresh_token : Float → Option CachedToken → Option Json
  fresh_token now none = none
  fresh_token now (some t) = if is_fresh now t then some t.token else none

  abbrev pub store_token : CachedToken → Connected W Json
  store_token t c = (ok t.token, record c { cached = some t })

  abbrev pub return_or : Option Json → Connected W Json → Connected W Json
  return_or (some token) otherwise = pure token
  return_or none otherwise = otherwise

  -- The part of `installation_token` under the lock.
  unfoldable pub refresh : B → Connected W Json
  unfolding exchange
  refresh no_body = do
    now ← clock
    λ c. return_or (fresh_token now c.cached) (exchange no_body >>= store_token) c

  unfoldable pub installation_token : B → Connected W Json
  installation_token no_body = do
    now ← clock
    λ c. return_or (fresh_token now c.cached) (refresh no_body) c
