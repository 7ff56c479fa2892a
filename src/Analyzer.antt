-- ===== src/Analyzer.antt =====
-- The inputs of the behaviour analyzer (src/core/analyzer/types.py).
pub mod Patch
pub mod Areas
pub mod Report
pub mod Grouping
pub mod Counting
pub mod Lines
use qaestro.Prelude.{
  ℤ, String, Bool, true, false, Option, List, if◌then◌else◌, ◌||◌, ◌==◌, string_eq, lower, strip,
  Eq, ◌↔◌, ◌≡◌, arith,
}

pub data PrFileStatus : Type 0 where
  added modified removed renamed copied changed unchanged unknown : PrFileStatus

abbrev pub status_beq : PrFileStatus → PrFileStatus → Bool
status_beq added added = true
status_beq modified modified = true
status_beq removed removed = true
status_beq renamed renamed = true
status_beq copied copied = true
status_beq changed changed = true
status_beq unchanged unchanged = true
status_beq unknown unknown = true
status_beq _ _ = false

pub status_beq_iff : (a b : PrFileStatus) → (status_beq a b ≡ true) ↔ (a ≡ b)
status_beq_iff a b = ground arith

instance abbrev pub status_eq : Eq PrFileStatus
status_eq = record { beq = status_beq; beq_iff = status_beq_iff }

-- `PRFileStatus.value`
unfoldable pub file_status_value : PrFileStatus → String
file_status_value added = "added"
file_status_value modified = "modified"
file_status_value removed = "removed"
file_status_value renamed = "renamed"
file_status_value copied = "copied"
file_status_value changed = "changed"
file_status_value unchanged = "unchanged"
file_status_value unknown = "unknown"

-- The aliases of `PRFileStatus.normalize`.
unfoldable pub status_of : String → PrFileStatus
status_of text =
    if text == "added" || text == "created"
    then added
    else if text == "modified"
    then modified
    else if text == "changed"
    then changed
    else if text == "removed" || text == "deleted"
    then removed
    else if text == "renamed"
    then renamed
    else if text == "copied"
    then copied
    else if text == "unchanged"
    then unchanged
    else unknown

-- `PRFileStatus.normalize` on a text.
unfoldable pub normalize : String → PrFileStatus
unfolding status_of
normalize value = status_of (lower (strip value))

pub record PrFileDiff : Type 0 where
  pub path : String
  pub status : PrFileStatus
  pub additions : ℤ
  pub deletions : ℤ
  pub patch : Option String
  pub previous_filename : String
  pub first_added_line : Option ℤ

pub record PrAnalysisContext : Type 0 where
  pub repo_full_name : String
  pub pr_number : ℤ
  pub title : String
  pub body : String
  pub base_branch : String
  pub head_branch : String
  pub files : List PrFileDiff
  pub unified_diff : String
