-- ===== src/Analyzer/Grouping.antt =====
-- Each changed file stands in exactly one impact area.
use qaestro.Prelude.{
  String, Bool, true, false, ◌≡◌, refl, sym, subst, Option, none, some, List, [], ◌∷◌, ◌++◌,
  append_assoc, append-nil, map, Result, ok, err, Result-cases, Dict, lookup, lookup-insert, ◌==◌,
  string_eq, Bool-cases, inl, inr, filter, filter-map, NoRepeats, insert-NoRepeats, entry,
  filter-entry, filter-sorted_by, sorted_by, IsSorted, sorted_by-IsSorted, if◌then◌else◌, eq_iff,
}
use qaestro.Contracts.{ImpactArea}
use qaestro.Analyzer.{PrFileDiff}
use qaestro.Analyzer.Areas.{
  AnalyzerError, path_group_for_file, or_empty_group, add_to_group, group_files, area_of,
  build_impact_areas,
}

-- The file's path is of the group.
abbrev pub is_in : String → Result AnalyzerError String → Bool
is_in g (ok h) = h == g
is_in g (err e) = false

abbrev pub members : String → List PrFileDiff → List PrFileDiff
members g files = filter (λ f. is_in g (path_group_for_file f.path)) files

lookup-add_to_group :
    (g group : String) (file : PrFileDiff) (d : Dict String (List PrFileDiff))
    → or_empty_group (lookup g (add_to_group group file d))
      ≡ or_empty_group (lookup g d) ++ (if group == g then file ∷ [] else [])
unfolding add_to_group
lookup-add_to_group g group file d = elim (Bool-cases (group == g)) [
  | inl same ↦ rw (lookup-insert, same, (eq_iff group g).0 same)
  | inr other ↦ rw (lookup-insert, other, append-nil)
]

add_to_group-NoRepeats :
    (group : String) (file : PrFileDiff) (d : Dict String (List PrFileDiff))
    → NoRepeats d
    → NoRepeats (add_to_group group file d)
unfolding add_to_group
add_to_group-NoRepeats group file d n =
    insert-NoRepeats group (or_empty_group (lookup group d) ++ file ∷ []) d n

-- A group that holds nothing is not there.
abbrev full_group : List PrFileDiff → Option (List PrFileDiff)
full_group [] = none
full_group (f ∷ fs) = some (f ∷ fs)

abbrev IsFull : Dict String (List PrFileDiff) → Type 0
IsFull d = (g : String) → lookup g d ≡ full_group (or_empty_group (lookup g d))

full_group-snoc :
    (fs : List PrFileDiff) (f : PrFileDiff) → some (fs ++ f ∷ []) ≡ full_group (fs ++ f ∷ [])
full_group-snoc [] f = refl
full_group-snoc (x ∷ fs) f = refl

add_to_group-IsFull :
    (group : String) (file : PrFileDiff) (d : Dict String (List PrFileDiff))
    → IsFull d
    → IsFull (add_to_group group file d)
unfolding add_to_group
add_to_group-IsFull group file d full g = elim (Bool-cases (group == g)) [
  | inl same ↦ rw (lookup-insert, same) (full_group-snoc (or_empty_group (lookup group d)) file)
  | inr other ↦ rw (lookup-insert, other) (full g)
]

-- What `after` holds beside `before`.
abbrev Grouped :
    Dict String (List PrFileDiff) → List PrFileDiff → Dict String (List PrFileDiff) → Type 0
Grouped before files after =
    (g : String)
    → or_empty_group (lookup g after) ≡ or_empty_group (lookup g before) ++ members g files

snoc_members :
    (b : Bool) (xs : List PrFileDiff) (f : PrFileDiff) (ys : List PrFileDiff)
    → (xs ++ (if b then f ∷ [] else [])) ++ ys ≡ xs ++ (if b then f ∷ ys else ys)
snoc_members true xs f ys = append_assoc xs (f ∷ []) ys
snoc_members false xs f ys = append_assoc xs [] ys

abbrev GroupedFully :
    Dict String (List PrFileDiff) → List PrFileDiff → Dict String (List PrFileDiff) → Type 0
GroupedFully before files after = NoRepeats after × (IsFull after × Grouped before files after)

group_files-GroupedFully :
    (files : List PrFileDiff) (d : Dict String (List PrFileDiff))
    {after : Dict String (List PrFileDiff)}
    → group_files files d ≡ ok after
    → NoRepeats d
    → IsFull d
    → GroupedFully d files after
unfolding group_files
group_files-GroupedFully [] d {after} h n full =
    let e : d ≡ after = cc in
    subst (GroupedFully d []) e (n, (full, λ g. sym (append-nil (or_empty_group (lookup g d)))))
group_files-GroupedFully (file ∷ files) d {after} h n full =
    elim (Result-cases (path_group_for_file file.path)) [
      | inr (e, raised) ↦ cc (rw raised at h)
      | inl (group, found) ↦
          let rest =
            group_files-GroupedFully files (add_to_group group file d) (rw found at h)
              (add_to_group-NoRepeats group file d n) (add_to_group-IsFull group file d full) in
          (
            rest.0,
            (
              rest.1.0,
              λ g.
                  rw (rest.1.1 g, lookup-add_to_group g group file d, found)
                    (snoc_members (group == g) (or_empty_group (lookup g d)) file
                      (members g files)),
            ),
          )
    ]

areas-IsSorted :
    (ps : Dict String (List PrFileDiff))
    → IsSorted (λ p. p.0) ps
    → IsSorted (λ a. a.module_name) (map area_of ps)
areas-IsSorted [] h = tt
areas-IsSorted (p ∷ []) h = tt
areas-IsSorted (p ∷ (q ∷ ps)) h = (h.0, areas-IsSorted (q ∷ ps) h.1)

-- The area of a group, where any file is of it.
abbrev pub areas_for : String → List PrFileDiff → List ImpactArea
areas_for g [] = []
areas_for g (f ∷ fs) = area_of (g, f ∷ fs) ∷ []

areas_for-entry :
    (g : String) (fs : List PrFileDiff) → map area_of (entry g (full_group fs)) ≡ areas_for g fs
areas_for-entry g [] = refl
areas_for-entry g (f ∷ fs) = refl

-- The areas are in the order of their names, and those of a name are the one that describes all
-- files of the group in their order, or none if no file is of it.
abbrev pub IsPartition : List PrFileDiff → List ImpactArea → Type 0
IsPartition files areas =
    IsSorted (λ a. a.module_name) areas
    × ((g : String) → filter (λ a. a.module_name == g) areas ≡ areas_for g (members g files))

grouped-IsPartition :
    (files : List PrFileDiff) (d : Dict String (List PrFileDiff))
    → GroupedFully [] files d
    → IsPartition files (map area_of (sorted_by (λ p. p.0) d))
unfolding lookup
grouped-IsPartition files d (n, (full, grouped)) = (
  areas-IsSorted (sorted_by (λ p. p.0) d) (sorted_by-IsSorted (λ p. p.0) d),
  λ g. rw (
    filter-map (λ a. a.module_name == g) area_of (sorted_by (λ p. p.0) d),
    filter-sorted_by (λ p. p.0) g d,
    filter-entry g d n,
    full g,
    grouped g,
    areas_for-entry g (members g files),
  ),
)

-- The areas of a change partition its files by their groups.
pub build_impact_areas-IsPartition :
    (files : List PrFileDiff) {areas : List ImpactArea}
    → build_impact_areas files ≡ ok areas
    → IsPartition files areas
unfolding build_impact_areas lookup
build_impact_areas-IsPartition files {areas} h = elim (Result-cases (group_files files [])) [
  | inr (e, raised) ↦ cc (rw raised at h)
  | inl (d, found) ↦
      let e : map area_of (sorted_by (λ p. p.0) d) ≡ areas = cc (rw found at h) in
      subst (IsPartition files) e
        (grouped-IsPartition files d (group_files-GroupedFully files [] found tt (λ g. refl)))
]
