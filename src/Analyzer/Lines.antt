-- ===== src/Analyzer/Lines.antt =====
-- The line number that the first added line of a hunk gets.
use qaestro.Prelude.{
  ℤ, pos, ◌+ℤ◌, String, true, false, not, Option, some, List, [], ◌∷◌, ◌++◌, ◌≡◌, refl, All, count,
  starts_with, splitlines, ap, +ℤ_zero, +ℤ_suc, Bool-cases, inl, inr,
}
use qaestro.Analyzer.Patch.{
  is_added_line, is_removed_line, first_added, first_added_line_from_patch,
  new_line_start_from_hunk,
}

-- A line of a hunk that is not added: it stands in the new file unless it is removed.
abbrev pub IsKept : String → Type 0
IsKept line = (starts_with "@@" line ≡ false) × (is_added_line line ≡ false)

module _ (int_of_text : String → Option ℤ) where
  first_added-append :
      (n : ℤ) (kept : List String) (line : String) (rest : List String)
      → All IsKept kept
      → starts_with "@@" line ≡ false
      → is_added_line line ≡ true
      → first_added int_of_text (some n) (kept ++ line ∷ rest)
        ≡ some (n +ℤ pos (count (λ l. not (is_removed_line l)) kept))
  unfolding first_added
  first_added-append n [] line rest k h a = rw (h, a) (rw (+ℤ_zero n) refl)
  first_added-append n (l ∷ kept) line rest k h a = elim (Bool-cases (is_removed_line l)) [
    | inl r ↦ rw (k.0.0, k.0.1, r) (first_added-append n kept line rest k.1 h a)
    | inr r ↦
        rw (k.0.0, k.0.1, r, first_added-append (n +ℤ pos 1) kept line rest k.1 h a)
          (ap some (+ℤ_suc n (count (λ l. not (is_removed_line l)) kept)))
  ]

  -- In a patch that begins with a hunk, the first added line has the hunk's first number plus the
  -- lines between that the new file keeps.
  first_added_line_from_patch-count :
      (patch header : String) (kept : List String) (line : String) (rest : List String) (n : ℤ)
      → splitlines patch ≡ header ∷ (kept ++ line ∷ rest)
      → starts_with "@@" header ≡ true
      → new_line_start_from_hunk int_of_text header ≡ some n
      → All IsKept kept
      → starts_with "@@" line ≡ false
      → is_added_line line ≡ true
      → first_added_line_from_patch int_of_text patch
        ≡ some (n +ℤ pos (count (λ l. not (is_removed_line l)) kept))
  unfolding first_added_line_from_patch first_added
  first_added_line_from_patch-count patch header kept line rest n lines is_header start k h a =
      rw (lines, is_header, start) (first_added-append n kept line rest k h a)
