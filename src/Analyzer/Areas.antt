-- ===== src/Analyzer/Areas.antt =====
-- The impact areas of a change (src/core/analyzer/rules.py).
use qaestro.Prelude.{
  String, ◌||◌, Option, none, some, List, [], ◌∷◌, ◌++◌, map, Result, ok, err, ◌>>=◌, if◌then◌else◌,
  ◌==◌, string_eq, Dict, lookup, insert, is_set, join, ◌⋈◌, decimal, length, init, is_nonempty,
  filter, sum_ℤ, ◌+ℤ◌, int_text, strip_chars, split_at_chars, sorted_by, not, ◌&&◌, distinct,
}
use qaestro.Contracts.{ImpactArea, not_assessed}
use qaestro.Analyzer.{PrFileDiff, file_status_value}

-- The IndexError of `parts[0]`.
pub data AnalyzerError : Type 0 where
  index_error : AnalyzerError

-- `PurePosixPath(path).parts` of a relative path.
unfoldable pub path_parts : String → List String
path_parts path = filter (λ p. is_set p && not (p == ".")) (split_at_chars "/" path)

unfoldable pub group_of_parts : List String → Result AnalyzerError String
group_of_parts [] = err index_error
group_of_parts (p ∷ []) = ok p
group_of_parts (p ∷ (q ∷ rest)) =
    if p == "src" || p == "tests"
    then ok (if is_nonempty rest then join "/" (init (p ∷ (q ∷ rest))) else p)
    else if p == ".github"
    then ok (join "/" (p ∷ q ∷ []))
    else if is_nonempty rest
    then ok (join "/" (init (p ∷ (q ∷ rest))))
    else ok p

unfoldable pub path_group_for_file : String → Result AnalyzerError String
unfolding path_parts group_of_parts
path_group_for_file path =
    let clean_path = strip_chars "/" path in
    if not (is_set clean_path) then ok "unknown" else group_of_parts (path_parts clean_path)

-- `grouped.setdefault(group, []).append(file)`
abbrev pub or_empty_group : Option (List PrFileDiff) → List PrFileDiff
or_empty_group none = []
or_empty_group (some files) = files

unfoldable pub add_to_group :
    String → PrFileDiff → Dict String (List PrFileDiff) → Dict String (List PrFileDiff)
add_to_group group file grouped =
    insert group (or_empty_group (lookup group grouped) ++ file ∷ []) grouped

unfoldable pub group_files :
    List PrFileDiff
    → Dict String (List PrFileDiff)
    → Result AnalyzerError (Dict String (List PrFileDiff))
group_files [] grouped = ok grouped
group_files (file ∷ files) grouped = do
  group ← path_group_for_file file.path
  group_files files (add_to_group group file grouped)

unfoldable pub changed_lines_of : List PrFileDiff → String
changed_lines_of files = int_text (sum_ℤ (map (λ f. f.additions +ℤ f.deletions) files))

unfoldable pub area_description : String → List PrFileDiff → String
unfolding distinct changed_lines_of
area_description path_group files =
    join ", " (sorted_by (λ s. s) (distinct (map (λ f. file_status_value f.status) files)))
    ⋈ " "
    ⋈ decimal (length files)
    ⋈ " file(s) under "
    ⋈ path_group
    ⋈ ", "
    ⋈ changed_lines_of files
    ⋈ " changed line(s)"

abbrev pub area_of : String × List PrFileDiff → ImpactArea
area_of (path_group, files) = record {
  module_name = path_group;
  description = area_description path_group files;
  risk_level = not_assessed;
  affected_files = map (λ f. f.path) files;
}

unfoldable pub build_impact_areas : List PrFileDiff → Result AnalyzerError (List ImpactArea)
unfolding group_files
build_impact_areas files = do
  grouped ← group_files files []
  ok (map area_of (sorted_by (λ p. p.0) grouped))
