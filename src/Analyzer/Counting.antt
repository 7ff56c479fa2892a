-- ===== src/Analyzer/Counting.antt =====
-- The statistics count each changed file under one status.
use qaestro.Prelude.{
  ℕ, ◌+◌, ℤ, pos_part, String, Option, none, some, List, [], ◌∷◌, ◌≡◌, refl, arith, Dict, lookup,
  string_eq, length, count,
}
use qaestro.Contracts.{StatValue, number, text}
use qaestro.Analyzer.{PrFileDiff, added, removed, renamed, copied, unchanged, unknown}
use qaestro.Analyzer.Report.{diff_stats, of_status, of_modified}

-- A statistic that counts.
abbrev pub count_in : Option StatValue → ℕ
count_in (some (number n)) = pos_part n
count_in (some (text s)) = 0
count_in none = 0

unfoldable pub stat : String → Dict String StatValue → ℕ
stat key stats = count_in (lookup key stats)

counts_add :
    (files : List PrFileDiff)
    → count (of_status added) files
        + count of_modified files
        + count (of_status removed) files
        + count (of_status renamed) files
        + count (of_status copied) files
        + count (of_status unchanged) files
        + count (of_status unknown) files
      ≡ length files
counts_add [] = refl
counts_add (f ∷ files) = ground (arith, counts_add files)

-- The counts of the statuses add up to the number of changed files.
diff_stats_add :
    (int_of_text : String → Option ℤ) (files : List PrFileDiff)
    → let stats = diff_stats int_of_text files in
      stat "files_added" stats
        + stat "files_modified" stats
        + stat "files_removed" stats
        + stat "files_renamed" stats
        + stat "files_copied" stats
        + stat "files_unchanged" stats
        + stat "files_unknown" stats
      ≡ stat "files_changed" stats
unfolding stat diff_stats lookup
diff_stats_add int_of_text files = counts_add files
