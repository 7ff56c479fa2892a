-- ===== src/GitHub/Auth/Issued.antt =====
-- Every outcome of asking for a token.
use qaestro.Prelude.{
  pos, Bool, true, false, ◌≡◌, refl, sym, subst, ◌∙◌, ltb_ℤ, ◌+ℤ◌, ◌*◌, ◌^◌, Option, none, some,
  Result, ok, err, Bool-cases, inl, inr, ◌⊎◌, ap,
}
use qaestro.Prelude.Exec.{lift, continue, ◌>>=◌}
use qaestro.Contracts.{Float}
use qaestro.Json.{Json}
use qaestro.GitHub.Http.{Library, GitHubFault, raise_for_exchange}
use qaestro.GitHub.Auth.{AppAuth, CachedToken, AuthParts, Connection, Connected, is_fresh, times}
use qaestro.GitHub.Auth.Issue.{
  app_jwt, token_request, exchange, fresh_token, store_token, refresh, installation_token,
}

-- A minute after `now`, which is `numerator / 2 ^ exponent` seconds, the token has not expired.
abbrev pub lasts : Float → CachedToken → Bool
lasts now t =
    let d = 2 ^ t.expires_at.exponent in
    let e = 2 ^ now.exponent in
    ltb_ℤ (times d now.numerator +ℤ pos (60 * (d * e))) (times e t.expires_at.numerator)

is_fresh-eq-lasts : (now : Float) (t : CachedToken) → is_fresh now t ≡ lasts now t
unfolding is_fresh
is_fresh-eq-lasts now t = refl

-- The cached token, if there is one, does not last.
abbrev pub IsStale : Float → Option CachedToken → Type 0
IsStale now none = Unit
IsStale now (some t) = lasts now t ≡ false

-- `m` leaves the cached token alone.
record KeepsToken {W A : Type 0} (m : Connected W A) : Type 0 where
  at : (c : Connection W) → (m c).1.cached ≡ c.cached

continue-cached :
    {W A A' : Type 0} (r : Result GitHubFault A) (f : A → Connected W A') (c : Connection W)
    → ((a : A) → KeepsToken (f a))
    → (continue r f c).1.cached ≡ c.cached
continue-cached (ok a) f c rest = (rest a).at c
continue-cached (err e) f c rest = refl

KeepsToken-bind :
    {W A A' : Type 0} (m : Connected W A) (f : A → Connected W A')
    → KeepsToken m
    → ((a : A) → KeepsToken (f a))
    → KeepsToken (m >>= f)
KeepsToken-bind m f h rest = record { at = λ c. continue-cached (m c).0 f (m c).1 rest ∙ h.at c }

module _ {B W D : Type 0} (lib : Library B) (auth : AppAuth) (parts : AuthParts B W D)
    (no_body : B) where
  exchange-KeepsToken : KeepsToken (exchange lib auth parts no_body)
  unfolding exchange app_jwt
  exchange-KeepsToken =
      KeepsToken-bind (app_jwt lib auth parts) _ (record { at = λ c. refl })
        (λ token.
          KeepsToken-bind (token_request lib auth parts no_body token) _ (record { at = λ c. refl })
            (λ r.
              KeepsToken-bind (lift (raise_for_exchange lib r)) _ (record { at = λ c. refl })
                (λ u. record { at = λ c. refl })))

  -- The two readings of the clock, before the lock and under it: the time, and the world after.
  abbrev pub reading : Connection W → Float × W
  reading c = parts.now c.world

  abbrev pub reading_under_lock : Connection W → Float × W
  reading_under_lock c = parts.now (reading c).1

  -- The cached token lasts at neither reading.
  abbrev pub IsOutdated : Connection W → Type 0
  IsOutdated c = IsStale (reading c).0 c.cached × IsStale (reading_under_lock c).0 c.cached

  -- Every outcome of asking for a token in the connection `c`: the cached one, with no exchange,
  -- where it lasts at the first reading of the clock or else at the second; where it lasts at
  -- neither, the exchange runs in the world after both: a new token is kept for the next call, or
  -- the exception of the exchange leaves the cached token alone.
  pub data Issued (c : Connection W) (p : Result GitHubFault Json × Connection W) : Type 0 where
    kept :
        (t : CachedToken)
        → c.cached ≡ some t
        → lasts (reading c).0 t ≡ true
        → p ≡ (ok t.token, record c { world = (reading c).1 })
        → Issued c p
    kept_under_lock :
        (t : CachedToken)
        → c.cached ≡ some t
        → lasts (reading c).0 t ≡ false
        → lasts (reading_under_lock c).0 t ≡ true
        → p ≡ (ok t.token, record c { world = (reading_under_lock c).1 })
        → Issued c p
    renewed :
        (t : CachedToken) (w : W)
        → IsOutdated c
        → exchange lib auth parts no_body (record c { world = (reading_under_lock c).1 })
          ≡ (ok t, record c { world = w })
        → p ≡ (ok t.token, record { cached = some t; world = w })
        → Issued c p
    failed :
        (e : GitHubFault) (w : W)
        → IsOutdated c
        → exchange lib auth parts no_body (record c { world = (reading_under_lock c).1 })
          ≡ (err e, record c { world = w })
        → p ≡ (err e, record c { world = w })
        → Issued c p

  fresh_cases :
      (now : Float) (o : Option CachedToken)
      → ((t : CachedToken) × (o ≡ some t)
          × (lasts now t ≡ true)
          × (fresh_token lib auth parts now o ≡ some t.token))
        ⊎ (IsStale now o × (fresh_token lib auth parts now o ≡ none))
  fresh_cases now none = inr (tt, refl)
  fresh_cases now (some t) = elim (Bool-cases (is_fresh now t)) [
    | inl h ↦ inl (t, refl, sym (is_fresh-eq-lasts now t) ∙ h, rw h refl)
    | inr h ↦ inr (sym (is_fresh-eq-lasts now t) ∙ h, rw h refl)
  ]

  exchanged-Issued :
      (c : Connection W) (x : Result GitHubFault CachedToken × Connection W)
      → exchange lib auth parts no_body (record c { world = (reading_under_lock c).1 }) ≡ x
      → x.1.cached ≡ c.cached
      → IsOutdated c
      → Issued c (continue x.0 (store_token lib auth parts) x.1)
  exchanged-Issued c (ok t, c') e same outdated =
      let same' : c' ≡ record c { world = c'.world } = ap (λ o. record c' { cached = o }) same in
      renewed t c'.world outdated (e ∙ ap (λ d. (ok t, d)) same') refl
  exchanged-Issued c (err e', c') e same outdated =
      let same' : c' ≡ record c { world = c'.world } = ap (λ o. record c' { cached = o }) same in
      failed e' c'.world outdated (e ∙ ap (λ d. (err e', d)) same') (ap (λ d. (err e', d)) same')

  refresh-Issued :
      (c : Connection W)
      → IsStale (reading c).0 c.cached
      → Issued c (refresh lib auth parts no_body (record c { world = (reading c).1 }))
  unfolding refresh
  refresh-Issued c stale = elim (fresh_cases (reading_under_lock c).0 c.cached) [
    | inl (t, found, fresh, h) ↦
        rw h (kept_under_lock t found (subst (IsStale (reading c).0) found stale) fresh refl)
    | inr (stale', h) ↦ rw h (
        exchanged-Issued c _ refl
          (exchange-KeepsToken.at (record c { world = (reading_under_lock c).1 })) (stale, stale'))
  ]

  -- Asking for a token gives the cached one exactly as it is where it lasts a minute more at the
  -- clock's first reading, or else at the second; where it lasts at neither, it gives the token of an
  -- exchange, which is kept for the next call, or the exception of the exchange, which leaves the
  -- cached token alone.
  pub installation_token-Issued :
      (c : Connection W) → Issued c (installation_token lib auth parts no_body c)
  unfolding installation_token
  installation_token-Issued c = elim (fresh_cases (reading c).0 c.cached) [
    | inl (t, found, fresh, h) ↦ rw h (kept t found fresh refl)
    | inr (stale, h) ↦ rw h (refresh-Issued c stale)
  ]
