-- ===== src/Gateway/Authenticity.antt =====
-- When a signature is accepted.
use qaestro.Prelude.{
  String, ◌≡◌, refl, ◌↔◌, inl, inr, Bool, true, false, ◌&&◌, Option, none, some, Result, ok, err,
  Bool-cases, if◌then◌else◌, arith, eqb, eqb_iff, string_eq, eq_iff, strip, is_set, ◌⋈◌, ap, subst,
  ◌∙◌, ◌≢◌,
}
use mathlib.Core.Option.{some-injective}
use text.Mathlib.TextEquality.{Char-path}
use Prim.Native.Char.{Char, code}
use Prim.Native.String.append
use qaestro.Gateway.{Fault, type_error}
use qaestro.Gateway.Signature.{
  remove_prefix, is_ascii, compare_digest, verify_prefixed, verify_signature,
}

code-eqb : (c d : Char) → (eqb (code c) (code d) ≡ true) → c ≡ d
code-eqb c d h = Char-path c d ((eqb_iff (code c) (code d)).0 h)

eqb-code_self : (c : Char) → eqb (code c) (code c) ≡ true
eqb-code_self c = (eqb_iff (code c) (code c)).1 refl

remove_prefix_sound : (p s : String) {r : String} → remove_prefix p s ≡ some r → s ≡ p ⋈ r
unfolding remove_prefix
remove_prefix_sound String.[] s {r} h = cc (append.nil r)
remove_prefix_sound (String.◌∷◌ c p) String.[] h = cc
remove_prefix_sound (String.◌∷◌ c p) (String.◌∷◌ d s) {r} h =
    elim (Bool-cases (eqb (code c) (code d))) [
      | inl same ↦
          let e = code-eqb c d same in
          let ih =
            remove_prefix_sound p s {r = r}
              (subst (λ b. (if b then remove_prefix p s else none) ≡ some r) same h) in
          cc (append.cons c p r)
      | inr other ↦ cc (subst (λ b. (if b then remove_prefix p s else none) ≡ some r) other h)
    ]

remove_prefix-append : (p r : String) → remove_prefix p (p ⋈ r) ≡ some r
unfolding remove_prefix
remove_prefix-append String.[] r = ap some (append.nil r)
remove_prefix-append (String.◌∷◌ c p) r =
    rw (append.cons c p r, remove_prefix, eqb-code_self c) (remove_prefix-append p r)

-- A text that starts with a prefix is the prefix and what `remove_prefix` leaves.
remove_prefix_iff : (p s r : String) → (remove_prefix p s ≡ some r) ↔ (s ≡ p ⋈ r)
remove_prefix_iff p s r = (remove_prefix_sound p s, λ h. rw h (remove_prefix-append p r))

compare_digest_iff : (a b : String) → is_ascii b ≡ true → (compare_digest a b ≡ ok true) ↔ (a ≡ b)
unfolding compare_digest
compare_digest_iff a b h = ground (arith, eq_iff a b, ap is_ascii)

compare_digest_error_iff :
    (a b : String)
    → is_ascii b ≡ true
    → (compare_digest a b ≡ err type_error) ↔ (is_ascii a ≡ false)
unfolding compare_digest
compare_digest_error_iff a b h = ground arith

if-cases :
    (b : Bool) {m r : Result Fault Bool}
    → (if b then m else ok false) ≡ r
    → ok false ≢ r
    → (b ≡ true) × (m ≡ r)
if-cases true h k = (refl, h)
if-cases false h k = absurd (k h)

and-left : (a b : Bool) → (a && b) ≡ true → a ≡ true
and-left a b h = ground arith

is_set-remove_prefix :
    (s : String) {r : String} → remove_prefix "sha256=" s ≡ some r → is_set s ≡ true
unfolding is_set remove_prefix
is_set-remove_prefix String.[] h = cc
is_set-remove_prefix (String.◌∷◌ c s) h = refl

module _ {Body : Type 0} (hexdigest : String → Body → String) (secret : String) (body : Body) where
  verify_prefixed_iff :
      (o : Option String) {r : Result Fault Bool}
      → ok false ≢ r
      → (verify_prefixed hexdigest secret body o ≡ r) ↔ (
          (provided : String) × (o ≡ some provided)
          × (compare_digest (strip provided) (hexdigest secret body) ≡ r))
  unfolding verify_prefixed
  verify_prefixed_iff none other = (λ h. absurd (other h), λ (p, same, e). cc)
  verify_prefixed_iff (some p) other = (
    λ h. (p, refl, h),
    λ (q, same, e).
        ap (λ t. compare_digest (strip t) (hexdigest secret body)) (some-injective p q same) ∙ e,
  )

  -- An outcome other than `false` is that of the comparison, for a set secret and a header that has
  -- the prefix.
  compared_iff :
      (header : Option String) {r : Result Fault Bool}
      → ok false ≢ r
      → (verify_signature hexdigest secret body header ≡ r) ↔ (
          (is_set secret ≡ true)
          × ((provided : String) × (header ≡ some ("sha256=" ⋈ provided))
              × (compare_digest (strip provided) (hexdigest secret body) ≡ r)))
  unfolding verify_signature
  compared_iff none other = (λ h. absurd (other h), λ (set, (p, same, e)). cc)
  compared_iff (some header) other =
      let prefixed = verify_prefixed_iff (remove_prefix "sha256=" header) other in
      (
        λ h.
            let (both, rest) = if-cases (is_set secret && is_set header) h other in
            let (p, found, e) = prefixed.0 rest in
            (
              and-left (is_set secret) (is_set header) both,
              (p, ap some (remove_prefix_sound "sha256=" header found), e),
            ),
        λ (set, (p, same, e)).
            let found =
              (remove_prefix_iff "sha256=" header p).1
                (some-injective header ("sha256=" ⋈ p) same) in
            rw (set, is_set-remove_prefix header found) (prefixed.1 (p, found, e)),
      )

  -- A digest of ASCII characters is compared with what follows the prefix, less the white space
  -- around it: the signature is accepted exactly if the secret is not empty and the two are the same.
  pub verify_signature_iff :
      (header : Option String)
      → is_ascii (hexdigest secret body) ≡ true
      → (verify_signature hexdigest secret body header ≡ ok true) ↔ (
          (is_set secret ≡ true)
          × ((provided : String) × (header ≡ some ("sha256=" ⋈ provided))
              × (strip provided ≡ hexdigest secret body)))
  verify_signature_iff header ascii =
      let (there, back) = compared_iff header (λ h. cc h) in
      (
        λ h.
            let (set, (p, same, e)) = there h in
            (set, (p, same, (compare_digest_iff (strip p) (hexdigest secret body) ascii).0 e)),
        λ (set, (p, same, e)).
            back (set, (p, same, (compare_digest_iff (strip p) (hexdigest secret body) ascii).1 e)),
      )

  -- With a digest of ASCII characters the check raises, instead of answering, exactly if the secret
  -- is not empty and the header has the prefix and then a character that is not ASCII.
  pub verify_signature_raises_iff :
      (header : Option String)
      → is_ascii (hexdigest secret body) ≡ true
      → (verify_signature hexdigest secret body header ≡ err type_error) ↔ (
          (is_set secret ≡ true)
          × ((provided : String) × (header ≡ some ("sha256=" ⋈ provided))
              × (is_ascii (strip provided) ≡ false)))
  verify_signature_raises_iff header ascii =
      let (there, back) = compared_iff header (λ h. cc h) in
      (
        λ h.
            let (set, (p, same, e)) = there h in
            (
              set,
              (p, same, (compare_digest_error_iff (strip p) (hexdigest secret body) ascii).0 e),
            ),
        λ (set, (p, same, e)). back (
          set,
          (p, same, (compare_digest_error_iff (strip p) (hexdigest secret body) ascii).1 e),
        ),
      )
