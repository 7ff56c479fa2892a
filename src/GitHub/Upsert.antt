-- ===== src/GitHub/Upsert.antt =====
-- A managed comment is written once and then updated.
use qaestro.GitHub.Blank.{occurs-strip}
use qaestro.Prelude.{
  strip, ℕ, suc, ◌+◌, ℤ, String, true, ◌≡◌, refl, sym, ap, ◌∙◌, subst, false≢true, Option, none,
  some, List, [], ◌∷◌, ◌++◌, Result, ok, Exception, if◌then◌else◌, length, length-append,
  Bool-cases, inl, inr, arith, ◌==◌, int_eq, ==-refl, is_set, ◌&&◌, AnyOf, occurs, starts_with, ◌⋈◌,
}
use qaestro.Prelude.Exec.{pure, continue}
use text.Mathlib.TextLemmas.{cons-append}
use qaestro.Json.{Fields, str, get_default}
use qaestro.Outputs.{CommentResult}
use qaestro.GitHub.{GitHubClient, GitHubValue, comment}
use qaestro.GitHub.Input.{Python, text_of, repo_pr_input}
use qaestro.GitHub.Handlers.{
  persisted_comment_body, marked_comment, write_comment, body_input, marker_input,
  create_or_update_comment,
}

pub starts_with-append : (p s t : String) → starts_with p s ≡ true → starts_with p (s ⋈ t) ≡ true
unfolding starts_with
starts_with-append String.[] s t h = refl
starts_with-append (String.◌∷◌ c p) String.[] t h = cc
starts_with-append (String.◌∷◌ c p) (String.◌∷◌ d s) t h =
    rw (cons-append d s t) (ground (arith, starts_with-append p s t))

pub starts_with_refl : (p : String) → starts_with p p ≡ true
unfolding starts_with
starts_with_refl String.[] = refl
starts_with_refl (String.◌∷◌ c p) = ground (arith, starts_with_refl p)

pub occurs_start : (p s : String) → starts_with p s ≡ true → occurs p s ≡ true
unfolding occurs
occurs_start p String.[] h = h
occurs_start p (String.◌∷◌ c s) h = rw h refl

persisted_marked :
    (body marker : String)
    → is_set marker ≡ true
    → occurs marker (persisted_comment_body body marker) ≡ true
unfolding persisted_comment_body
persisted_marked body marker h = elim (Bool-cases (occurs marker body)) [
  | inl k ↦ rw (h, k) k
  | inr k ↦ elim (Bool-cases (is_set body)) [
    | inr l ↦ rw (h, k, l) (occurs_start marker marker (starts_with_refl marker))
    | inl l ↦
        rw (h, k, l)
          (occurs_start marker (marker ⋈ "\n\n" ⋈ body) (
            starts_with-append marker (marker ⋈ "\n\n") body
              (starts_with-append marker marker "\n\n" (starts_with_refl marker))))
  ]
]

add_zero : (n : ℕ) → n + 0 ≡ n
add_zero n = omega arith

-- The comments with the body of one id replaced.
abbrev pub with_body : ℤ → String → List CommentResult → List CommentResult
with_body id body [] = []
with_body id body (c ∷ cs) =
    (if c.id == id then record c { body = body } else c) ∷ with_body id body cs

length-with_body :
    (id : ℤ) (body : String) (cs : List CommentResult) → length (with_body id body cs) ≡ length cs
length-with_body id body [] = refl
length-with_body id body (c ∷ cs) = ap suc (length-with_body id body cs)

-- The managed comment has this body.
abbrev pub IsManaged : String → String → List CommentResult → Type 0
IsManaged marker body cs =
    (c : CommentResult) × ((marked_comment marker cs ≡ some c) × (c.body ≡ body))

updated-IsManaged :
    (marker body : String) (cs : List CommentResult) (c : CommentResult)
    → is_set marker ≡ true
    → occurs marker body ≡ true
    → marked_comment marker cs ≡ some c
    → IsManaged marker body (with_body c.id body cs)
unfolding marked_comment
updated-IsManaged marker body [] c h k found = cc
updated-IsManaged marker body (d ∷ cs) c h k found = elim (Bool-cases (d.id == c.id)) [
  | inl same ↦ (record d { body = body }, (rw (same, h, k) refl, refl))
  | inr other ↦ elim (Bool-cases (occurs marker d.body)) [
    | inl l ↦
        let e : d ≡ c = cc (rw (h, l) at found) in
        absurd (false≢true (sym other ∙ subst (λ x. (d.id == x.id) ≡ true) e (==-refl d.id)))
    | inr l ↦
        let (x, (first, same)) = updated-IsManaged marker body cs c h k (rw (h, l) at found) in
        (x, (rw (other, h, l) first, same))
  ]
]

created-IsManaged :
    (marker body : String) (cs : List CommentResult) (c : CommentResult)
    → is_set marker ≡ true
    → occurs marker body ≡ true
    → marked_comment marker cs ≡ none
    → c.body ≡ body
    → IsManaged marker body (cs ++ c ∷ [])
unfolding marked_comment
created-IsManaged marker body [] c h k new b = (c, (rw (h, b, k) refl, b))
created-IsManaged marker body (d ∷ cs) c h k new b = elim (Bool-cases (occurs marker d.body)) [
  | inl l ↦ cc (rw (h, l) at new)
  | inr l ↦
      let (x, (first, same)) = created-IsManaged marker body cs c h k (rw (h, l) at new) b in
      (x, (rw (h, l) first, same))
]

-- One of the comments has the id.
abbrev pub HasId : ℤ → List CommentResult → Type 0
HasId id cs = AnyOf (λ (c : CommentResult). c.id ≡ id) cs

marked_comment-HasId :
    (marker : String) (cs : List CommentResult) (c : CommentResult)
    → marked_comment marker cs ≡ some c
    → HasId c.id cs
unfolding marked_comment
marked_comment-HasId marker [] c found = cc
marked_comment-HasId marker (d ∷ cs) c found =
    elim (Bool-cases (is_set marker && occurs marker d.body)) [
      | inl here ↦
          (let e : d ≡ c = cc (rw here at found) in inl (ap (λ (x : CommentResult). x.id) e))
      | inr later ↦ inr (marked_comment-HasId marker cs c (rw later at found))
    ]

-- What a client does to the comments of one pull request, in the worlds where it is ready: it lists
-- them as they are and leaves them so, creates one at their end, and updates the body of those with
-- an id that one of them has. A body that is blank may be refused.
pub record KeepsComments {W : Type 0} (client : GitHubClient W)
    (comments_of : W → List CommentResult) (IsReady : W → Type 0) (owner repo : String) (n : ℤ)
    : Type 0 where
  pub lists :
      (w : W)
      → IsReady w
      → (w' : W) × (client.list_issue_comments owner repo n w ≡ (ok (comments_of w), w'))
        × (comments_of w' ≡ comments_of w)
        × IsReady w'
  pub creates :
      (body : String) (w : W)
      → is_set (strip body) ≡ true
      → IsReady w
      → (c : CommentResult) × (w' : W) × (client.create_issue_comment owner repo n body w
          ≡ (ok c, w'))
        × (c.body ≡ body)
        × (comments_of w' ≡ comments_of w ++ c ∷ [])
  pub updates :
      (id : ℤ) (body : String) (w : W)
      → is_set (strip body) ≡ true
      → HasId id (comments_of w)
      → IsReady w
      → (c : CommentResult) × (w' : W) × (client.update_issue_comment owner repo id body w
          ≡ (ok c, w'))
        × (comments_of w' ≡ with_body id body (comments_of w))

module _ {W : Type 0} (client : GitHubClient W) (python : Python)
    (comments_of : W → List CommentResult) (IsReady : W → Type 0) (owner repo : String) (n : ℤ)
    (keeps : KeepsComments client comments_of IsReady owner repo n) where
  -- How many comments a write adds.
  abbrev pub added : Option CommentResult → ℕ
  added none = 1
  added (some c) = 0

  -- What a write leaves: the managed comment has the new body, and a comment is added only if there
  -- was no managed one.
  abbrev pub IsUpserted : String → String → W → Result Exception GitHubValue × W → Type 0
  IsUpserted marker body w p =
      (c : CommentResult) × (p.0 ≡ ok (comment c))
      × IsManaged marker body (comments_of p.1)
      × (length (comments_of p.1)
          ≡ length (comments_of w) + added (marked_comment marker (comments_of w)))

  write-IsUpserted :
      (marker body : String) (w : W) (o : Option CommentResult)
      → is_set marker ≡ true
      → occurs marker body ≡ true
      → is_set (strip body) ≡ true
      → IsReady w
      → marked_comment marker (comments_of w) ≡ o
      → IsUpserted marker body w (
          continue
            (write_comment client python owner repo n body o w).0
            (λ c. pure (comment c))
            (write_comment client python owner repo n body o w).1)
  write-IsUpserted marker body w none h k full ready found =
      let (c, w', creates, same, after) = keeps.creates body w full ready in
      rw (creates, found, after)
        (
          c,
          refl,
          created-IsManaged marker body (comments_of w) c h k found same,
          length-append (comments_of w) (c ∷ []),
        )
  write-IsUpserted marker body w (some c) h k full ready found =
      let (d, w', updates, after) =
        keeps.updates c.id body w full (marked_comment-HasId marker (comments_of w) c found)
          ready in
      rw (updates, found, after)
        (
          d,
          refl,
          updated-IsManaged marker body (comments_of w) c h k found,
          length-with_body c.id body (comments_of w) ∙ sym (add_zero (length (comments_of w))),
        )

  -- A write from a world with the same comments.
  same-IsUpserted :
      (marker body : String) (w w' : W) (p : Result Exception GitHubValue × W)
      → comments_of w' ≡ comments_of w
      → IsUpserted marker body w' p
      → IsUpserted marker body w p
  same-IsUpserted marker body w w' p same (c, returned, managed, counted) = (
    c,
    returned,
    managed,
    subst (λ cs. length (comments_of p.1) ≡ length cs + added (marked_comment marker cs)) same
        counted,
  )

  -- With a client that is ready, a write of a managed comment on a pull request that the input names
  -- leaves this comment with the new body, and adds a comment only if there was no managed one.
  pub create_or_update_comment-IsUpserted :
      (input : Fields) (w : W)
      → repo_pr_input python input ≡ ok (owner, repo, n)
      → is_set (marker_input client python input) ≡ true
      → IsReady w
      → IsUpserted
          (marker_input client python input)
          (persisted_comment_body
            (body_input client python input)
            (marker_input client python input))
          w
          (create_or_update_comment client python input w)
  unfolding create_or_update_comment
  create_or_update_comment-IsUpserted input w named h ready =
      let marker = marker_input client python input in
      let body = persisted_comment_body (body_input client python input) marker in
      let marked = persisted_marked (body_input client python input) marker h in
      let full =
        occurs-strip (text_of python (get_default "marker" (str "") input)) body h marked in
      let (w', listed, same, ready') = keeps.lists w ready in
      rw (named, listed)
        (same-IsUpserted marker body w w' _ same (
          write-IsUpserted marker body w' (marked_comment marker (comments_of w)) h marked full
            ready' (ap (marked_comment marker) same)))
