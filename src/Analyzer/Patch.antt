-- ===== src/Analyzer/Patch.antt =====
-- The first added line of a patch (src/core/analyzer/rules.py). `int_of_text` is Python's `int` on
-- a text, `none` where it raises.
use qaestro.Prelude.{
  ℤ, pos, ◌+ℤ◌, String, Bool, not, ◌&&◌, Option, none, some, List, [], ◌∷◌, if◌then◌else◌, ltb_ℤ,
  is_set, starts_with, split_once, before_first, splitlines, text_drop,
}
use qaestro.Analyzer.{PrFileDiff}

-- `text.removeprefix("+")`
abbrev pub without_plus : String → String
without_plus s = if starts_with "+" s then text_drop 1 s else s

-- `raw_line.startswith("+") and not raw_line.startswith("+++")`
unfoldable pub is_added_line : String → Bool
is_added_line s = starts_with "+" s && not (starts_with "+++" s)

-- `raw_line.startswith("-") and not raw_line.startswith("---")`
unfoldable pub is_removed_line : String → Bool
is_removed_line s = starts_with "-" s && not (starts_with "---" s)

-- `if file.patch`
unfoldable pub patch_of : PrFileDiff → Option String
patch_of file = elim file.patch [ none ↦ none | some p ↦ if is_set p then some p else none ]

-- `file.first_added_line is not None and file.first_added_line > 0`
unfoldable pub positive : Option ℤ → Option ℤ
positive none = none
positive (some n) = if ltb_ℤ (pos 0) n then some n else none

module _ (int_of_text : String → Option ℤ) where
  unfoldable pub new_line_start_from_hunk : String → Option ℤ
  new_line_start_from_hunk header = elim (split_once " +" header) [
    | none ↦ none
    | some (before, after) ↦ int_of_text (without_plus (before_first "," (before_first " " after)))
  ]

  -- The loop over the lines; the number is that of the new file's line, if a hunk has begun.
  unfoldable pub first_added : Option ℤ → List String → Option ℤ
  first_added new_line [] = none
  first_added none (line ∷ rest) =
      let in_hunk = first_added (new_line_start_from_hunk line) rest in
      let outside = first_added none rest in if starts_with "@@" line then in_hunk else outside
  first_added (some n) (line ∷ rest) =
      let in_hunk = first_added (new_line_start_from_hunk line) rest in
      let same = first_added (some n) rest in
      let next = first_added (some (n +ℤ pos 1)) rest in
      if starts_with "@@" line
      then in_hunk
      else if is_added_line line
      then some n
      else if is_removed_line line
      then same
      else next

  unfoldable pub first_added_line_from_patch : String → Option ℤ
  unfolding first_added
  first_added_line_from_patch patch = first_added none (splitlines patch)

  -- The line of one file, if it has one.
  unfoldable pub added_line_of : PrFileDiff → Option ℤ
  added_line_of file = elim (positive file.first_added_line) [
    | some n ↦ some n
    | none ↦ elim (patch_of file) [ none ↦ none | some p ↦ first_added_line_from_patch p ]
  ]

  unfoldable pub primary_added_line : List PrFileDiff → Option ℤ
  primary_added_line [] = none
  primary_added_line (file ∷ files) = elim (added_line_of file) [
    | some n ↦ some n
    | none ↦ primary_added_line files
  ]

-- `_primary_changed_file`, with what follows its loop in the second argument.
abbrev pub first_path : List PrFileDiff → String
first_path [] = ""
first_path (file ∷ files) = file.path

unfoldable pub first_patched : List PrFileDiff → Option String
first_patched [] = none
first_patched (file ∷ files) = elim (patch_of file) [
  | some p ↦ some file.path
  | none ↦ first_patched files
]

unfoldable pub primary_changed_file : List PrFileDiff → String
primary_changed_file files = elim (first_patched files) [
  | some path ↦ path
  | none ↦ first_path files
]
