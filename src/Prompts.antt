-- ===== src/Prompts.antt =====
-- The prompt catalogue (src/runtime/prompts/__init__.py). `read_text` reads a file below the
-- catalogue's directory, `none` where it is not found.
-- Of `str.format` the model has fields with a plain name and doubled braces, which is what the
-- catalogue uses.
use qaestro.Prelude.{
  String, Option, none, some, Result, ok, err, Exception, if◌then◌else◌, string_eq, strip, is_set,
  ◌⋈◌, Dict, lookup, is_among, ◌>>=◌, true, false,
}

pub data PromptId : Type 0 where
  pr_workflow_triage validation_api_contract_probe_selection : PromptId

-- `PromptId.value`
unfoldable pub prompt_id_value : PromptId → String
prompt_id_value pr_workflow_triage = "pr-workflow-triage"
prompt_id_value validation_api_contract_probe_selection = "validation-api-contract-probe-selection"

pub record PromptTemplate : Type 0 where
  pub identifier : PromptId
  pub path : String
  pub text : String

unfoldable pub prompt_file : PromptId → String
unfolding prompt_id_value
prompt_file id = prompt_id_value id ⋈ ".md"

abbrev pub prompt_error : {A : Type 0} → String → Result Exception A
prompt_error text = err (record { class_name = "PromptCatalogError"; message = text })

module _ (prompt_dir : String) (read_text : String → Option String) where
  unfoldable pub load_prompt : PromptId → Result Exception PromptTemplate
  unfolding prompt_file prompt_id_value
  load_prompt id =
      let path = prompt_dir ⋈ "/" ⋈ prompt_file id in
      elim (read_text path) [
        | none ↦ prompt_error ("prompt file not found for " ⋈ prompt_id_value id ⋈ ": " ⋈ path)
        | some content ↦
            if is_set (strip content)
            then ok (record { identifier = id; path = path; text = strip content })
            else prompt_error ("prompt file is empty for " ⋈ prompt_id_value id ⋈ ": " ⋈ path)
      ]

-- Where the reading of a template stands.
pub data FormatState : Type 0 where
  in_text : FormatState
  -- After a brace that opens, and after one that closes.
  opened closing : FormatState
  in_field : String → FormatState

abbrev pub format_error : {A : Type 0} → String → Result Exception A
format_error text = err (record { class_name = "ValueError"; message = text })

-- A missing variable is the KeyError that `render_prompt` turns into an error of its own.
abbrev pub field_value : PromptId → Dict String String → String → Result Exception String
field_value id variables name = elim (lookup name variables) [
  | none ↦ prompt_error ("missing template variable '" ⋈ name ⋈ "' for " ⋈ prompt_id_value id)
  | some value ↦ ok value
]

-- `template.text.format(**variables)`
unfoldable pub format_from :
    PromptId → Dict String String → FormatState → String → Result Exception String
format_from id variables in_text String.[] = ok ""
format_from id variables opened String.[] = format_error "Single '{' encountered in format string"
format_from id variables closing String.[] = format_error "Single '}' encountered in format string"
format_from id variables (in_field name) String.[] =
    format_error "expected '}' before end of string"
format_from id variables in_text (String.◌∷◌ c s) = elim (is_among c "{") [
  | true ↦ format_from id variables opened s
  | false ↦ elim (is_among c "}") [
    | true ↦ format_from id variables closing s
    | false ↦ format_from id variables in_text s >>= λ rest. ok (String.◌∷◌ c rest)
  ]
]
format_from id variables opened (String.◌∷◌ c s) = elim (is_among c "{") [
  | true ↦ format_from id variables in_text s >>= λ rest. ok ("{" ⋈ rest)
  | false ↦ format_from id variables (in_field (String.◌∷◌ c "")) s
]
format_from id variables closing (String.◌∷◌ c s) = elim (is_among c "}") [
  | true ↦ format_from id variables in_text s >>= λ rest. ok ("}" ⋈ rest)
  | false ↦ format_error "Single '}' encountered in format string"
]
format_from id variables (in_field name) (String.◌∷◌ c s) = elim (is_among c "}") [
  | true ↦ (do
    value ← field_value id variables name
    rest ← format_from id variables in_text s
    ok (value ⋈ rest))
  | false ↦ format_from id variables (in_field (name ⋈ String.◌∷◌ c "")) s
]

module _ (prompt_dir : String) (read_text : String → Option String) where
  unfoldable pub render_prompt : PromptId → Dict String String → Result Exception String
  unfolding load_prompt format_from
  render_prompt id variables = do
    template ← load_prompt prompt_dir read_text id
    format_from template.identifier variables in_text template.text
