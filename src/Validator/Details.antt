-- ===== src/Validator/Details.antt =====
-- The texts that a validation shows, with secrets and addresses taken out of them
-- (src/runtime/validator/agent_runtime.py). Letters are those of ASCII, as for `lower`.
use Prim.Native.Char.{Char}
use qaestro.Prelude.{
  ℕ, zero, suc, ◌+◌, String, Bool, false, not, ◌&&◌, ◌||◌, Option, none, some, List, [], ◌∷◌,
  if◌then◌else◌, ◌⋈◌, lower, starts_with, text_length, text_drop, is_among, is_space, eqb,
}
use qaestro.Sessions.{AgentRunStatus, succeeded, failed, timeout, cancelled}

-- `\w`
abbrev pub is_word : Char → Bool
is_word c = is_among c "abcdefghijklmnopqrstuvwxyzABCDEFGHIJKLMNOPQRSTUVWXYZ0123456789_"

-- How many characters a text begins with that are no white space and not among `ends`.
unfoldable pub run_length : String → String → ℕ
unfolding is_space
run_length ends String.[] = zero
run_length ends (String.◌∷◌ c s) =
    let rest = run_length ends s in if is_space c || is_among c ends then zero else suc rest

unfoldable pub space_length : String → ℕ
unfolding is_space
space_length String.[] = zero
space_length (String.◌∷◌ c s) = let rest = space_length s in if is_space c then suc rest else zero

abbrev pub secret_names : List String
secret_names =
    "token" ∷ "password" ∷ "secret" ∷ "api_key" ∷ "api-key" ∷ "apikey" ∷ "credential" ∷ []

unfoldable pub first_name : List String → String → Option String
first_name [] s = none
first_name (name ∷ names) s =
    let rest = first_name names s in if starts_with name (lower s) then some name else rest

-- How many characters of `s` the rest `\s*=\s*[^\s,;]+` of the pattern takes; 0 where it fails.
unfoldable pub assignment_length : String → ℕ
unfolding run_length space_length
assignment_length s =
    let before = space_length s in
    let after = text_drop (before + 1) s in
    let spaces = space_length after in
    let value = run_length ",;" (text_drop spaces after) in
    if starts_with "=" (text_drop before s) && not (eqb value zero)
    then before + (1 + (spaces + value))
    else zero

-- The length of a match of `_SECRET_ASSIGNMENT_PATTERN` at the start of `s`, and of its name.
unfoldable pub secret_match : String → Option (ℕ × ℕ)
unfolding first_name assignment_length
secret_match s = elim (first_name secret_names s) [
  | none ↦ none
  | some name ↦
      let n = text_length name in
      let rest = assignment_length (text_drop n s) in
      if eqb rest zero then none else some (n + rest, n)
]

unfoldable pub text_first : ℕ → String → String
text_first zero s = String.[]
text_first (suc n) String.[] = String.[]
text_first (suc n) (String.◌∷◌ c s) = String.◌∷◌ c (text_first n s)

-- `_SECRET_ASSIGNMENT_PATTERN.sub`: `after_word` says that a word character stands before, and
-- `skip` counts what is left of a match.
unfoldable pub redact_secrets : Bool → ℕ → String → String
unfolding secret_match
redact_secrets after_word skip String.[] = String.[]
redact_secrets after_word (suc skip) (String.◌∷◌ c s) = redact_secrets (is_word c) skip s
redact_secrets after_word zero (String.◌∷◌ c s) =
    let kept = redact_secrets (is_word c) zero s in
    let here = String.◌∷◌ c s in
    if after_word then String.◌∷◌ c kept else elim (secret_match here) [
      | none ↦ String.◌∷◌ c kept
      | some (zero, n) ↦ String.◌∷◌ c kept
      | some (suc length, n) ↦
          text_first n here ⋈ "=<redacted>" ⋈ redact_secrets (is_word c) length s
    ]

-- The length of a match of `_URL_PATTERN` at the start of `s`; 0 where there is none.
unfoldable pub url_length : String → ℕ
unfolding run_length
url_length s =
    let plain = run_length ",;)" (text_drop 7 s) in
    let secure = run_length ",;)" (text_drop 8 s) in
    if starts_with "http://" s && not (eqb plain zero)
    then 7 + plain
    else if starts_with "https://" s && not (eqb secure zero)
    then 8 + secure
    else zero

-- `_URL_PATTERN.sub`
unfoldable pub redact_urls : ℕ → String → String
unfolding url_length
redact_urls skip String.[] = String.[]
redact_urls (suc skip) (String.◌∷◌ c s) = redact_urls skip s
redact_urls zero (String.◌∷◌ c s) =
    let kept = redact_urls zero s in
    elim (url_length (String.◌∷◌ c s)) [
      | zero ↦ String.◌∷◌ c kept
      | suc n ↦ "<redacted-url>" ⋈ redact_urls n s
    ]

-- `_sanitize_pr_facing_details`
unfoldable pub sanitize_pr_facing_details : String → String
unfolding redact_secrets redact_urls
sanitize_pr_facing_details details = redact_urls zero (redact_secrets false zero details)

-- `_probe_error_details`
unfoldable pub probe_error_details : String → String → String
probe_error_details kind class_name =
    kind ⋈ ": " ⋈ class_name ⋈ " raised by API contract probe executor."

-- `_agent_runner_error_details`
unfoldable pub agent_runner_error_details : String → String → String
agent_runner_error_details kind class_name =
    kind ⋈ ": " ⋈ class_name ⋈ " raised during Agent Runtime validation."

-- `AgentRunStatus.name`
unfoldable pub run_status_name : AgentRunStatus → String
run_status_name succeeded = "SUCCEEDED"
run_status_name failed = "FAILED"
run_status_name timeout = "TIMEOUT"
run_status_name cancelled = "CANCELLED"

-- `_agent_runner_status_details`
unfoldable pub agent_runner_status_details : AgentRunStatus → String
unfolding run_status_name
agent_runner_status_details status =
    "agent_runner: Agent Runtime validation ended with status " ⋈ run_status_name status ⋈ "."
