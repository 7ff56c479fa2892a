-- ===== src/Gateway/Signature.antt =====
-- `verify_signature` of src/adapters/connectors/github/webhook.py. The digest of the standard
-- library's `hmac` is a parameter.
use Prim.Native.Char.{code}
use qaestro.Prelude.{
  String, Bool, true, false, ◌&&◌, Option, none, some, Result, ok, err, ltb, eqb, if◌then◌else◌,
  ◌==◌, string_eq, strip, is_set,
}
use qaestro.Gateway.{Fault, type_error}

-- `text[len(prefix):]`, where the text starts with the prefix.
unfoldable pub remove_prefix : String → String → Option String
remove_prefix String.[] s = some s
remove_prefix (String.◌∷◌ c p) String.[] = none
remove_prefix (String.◌∷◌ c p) (String.◌∷◌ d s) =
    let rest = remove_prefix p s in if eqb (code c) (code d) then rest else none

unfoldable pub is_ascii : String → Bool
is_ascii String.[] = true
is_ascii (String.◌∷◌ c s) = ltb (code c) 128 && is_ascii s

-- `hmac.compare_digest` on two texts: it raises where one of them is not ASCII.
unfoldable pub compare_digest : String → String → Result Fault Bool
compare_digest a b = if is_ascii a && is_ascii b then ok (a == b) else err type_error

module _ {Body : Type 0} (hexdigest : String → Body → String) where
  unfoldable pub verify_prefixed : String → Body → Option String → Result Fault Bool
  verify_prefixed secret body none = ok false
  verify_prefixed secret body (some provided_hex) =
      compare_digest (strip provided_hex) (hexdigest secret body)

  unfoldable pub verify_signature : String → Body → Option String → Result Fault Bool
  verify_signature secret body none = ok false
  verify_signature secret body (some header) =
      if is_set secret && is_set header
      then verify_prefixed secret body (remove_prefix "sha256=" header)
      else ok false
