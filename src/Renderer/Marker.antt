-- ===== src/Renderer/Marker.antt =====
-- The comment holds the marker by which the poster finds it again.
use qaestro.Prelude.{
  String, true, ◌≡◌, refl, sym, ◌∙◌, Option, List, ◌∷◌, Ensures, Ensures-ok, Ensures-err, inl, inr,
  arith, occurs, join, ◌⋈◌, int_text, Option-cases,
}
use text.Mathlib.TextLemmas.{nil-append, cons-append, append_assoc}
use qaestro.Contracts.{QaReport, CiFeedbackContext, Float}
use qaestro.Review.{PrCommentPayload}
use qaestro.Workflow.Triage.{PrWorkflowTriage}
use qaestro.Outputs.Poster.{comment_marker}
use qaestro.GitHub.Upsert.{starts_with-append, starts_with_refl, occurs_start}
use qaestro.Renderer.{comment_lines, render}

occurs-append : (p a s : String) → occurs p s ≡ true → occurs p (a ⋈ s) ≡ true
unfolding occurs
occurs-append p String.[] s h = rw (nil-append s) h
occurs-append p (String.◌∷◌ c a) s h =
    rw (cons-append c a s) (ground (arith, occurs-append p a s h))

abbrev marker_text : String → String → String
marker_text repo n = "Repository: `" ⋈ repo ⋈ "`\nPull request: `#" ⋈ n ⋈ "`"

between_lines : (s : String) → "`" ⋈ ("\n" ⋈ ("Pull request: `#" ⋈ s)) ≡ "`\nPull request: `#" ⋈ s
between_lines s =
    sym (append_assoc "`" "\n" ("Pull request: `#" ⋈ s))
    ∙ sym (append_assoc "`\n" "Pull request: `#" s)

-- The marker in front of what follows it in the comment.
marker-append :
    (repo n rest : String)
    → ("Repository: `" ⋈ repo ⋈ "`") ⋈ ("\n" ⋈ (("Pull request: `#" ⋈ n ⋈ "`") ⋈ rest))
      ≡ ("Repository: `" ⋈ repo ⋈ "`\nPull request: `#" ⋈ n ⋈ "`") ⋈ rest
marker-append repo n rest = simp append_assoc (rw (between_lines (n ⋈ ("`" ⋈ rest))) refl)

body_marked :
    (repo n event : String) (rest : List String)
    → occurs (marker_text repo n) (
        join "\n" (
          "## Behaviour Impact Report"
          ∷ ""
          ∷ ("Repository: `" ⋈ repo ⋈ "`")
          ∷ ("Pull request: `#" ⋈ n ⋈ "`")
          ∷ event
          ∷ rest))
      ≡ true
unfolding join
body_marked repo n event rest =
    let m = marker_text repo n in
    let after = "\n" ⋈ join "\n" (event ∷ rest) in
    let found : occurs m
          (("Repository: `" ⋈ repo ⋈ "`") ⋈ ("\n" ⋈ (("Pull request: `#" ⋈ n ⋈ "`") ⋈ after)))
        ≡ true =
      rw (marker-append repo n after)
        (occurs_start m (m ⋈ after) (starts_with-append m m after (starts_with_refl m))) in
    occurs-append m "## Behaviour Impact Report" _
      (occurs-append m "\n" _ (occurs-append m "" _ (occurs-append m "\n" _ found)))

abbrev pub HoldsMarker : PrCommentPayload → Type 0
HoldsMarker p = occurs (comment_marker p.repo_full_name p.pr_number) p.body ≡ true

-- Every comment that is rendered holds the marker of its repository and pull request.
pub render-HoldsMarker :
    (fixed : Float → String) (report : QaReport) (id : String) (t : Option PrWorkflowTriage)
    (ci : Option CiFeedbackContext)
    → Ensures HoldsMarker (render fixed report id t ci)
unfolding render comment_lines comment_marker
render-HoldsMarker fixed report id t ci = elim (Option-cases report.pr_number) [
  | inl h ↦ rw (h, render) (Ensures-err HoldsMarker _)
  | inr (n, h) ↦
      rw (h, render) (Ensures-ok HoldsMarker _ (body_marked report.repo_full_name (int_text n) _ _))
]
