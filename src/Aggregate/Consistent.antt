-- ===== src/Aggregate/Consistent.antt =====
-- The invariant of an aggregate, and that every event keeps it.
use qaestro.Prelude.{
  String, ◌≡◌, refl, sym, ◌∙◌, subst, inl, inr, true, false, not, ◌&&◌, false≢true, Option, none,
  some, List, [], ◌∷◌, map, if◌then◌else◌, Bool-cases, is_some, any, contains, ◌==◌, string_eq,
  eq_iff, ==-refl, arith, lookup, lookup-insert, Ensures, Ensures-bind, Ensures-ok,
  lookup-insert_self, map_if-some, ==-sym, lookup-update_at, All, Distinct, Distinct-snoc,
}
use qaestro.Contracts.{PrEvent}
use qaestro.Aggregate.{
  current, superseded, CiRunRecord, as_historical, RevisionState, is_superseded, supersede,
  PrAggregateState, append_unique, fresh_revision, or_fresh, start_at, from_pr_event,
  superseded_revisions, move_to, apply_pr_event,
}

-- One revision under its key: it is of this commit, it is current exactly if it is the head, its runs
-- are of this commit, and no run is marked as the head's where it is not the head.
pub record IsRevision (head sha : String) (r : RevisionState) : Type 0 where
  pub keyed : r.head_sha ≡ sha
  pub status : r.status ≡ (if sha == head then current else superseded)
  pub commits : All (λ (x : CiRunRecord). x.commit_sha ≡ sha) r.ci_runs
  pub flags : (sha == head) ≡ false → All (λ (x : CiRunRecord). x.is_current_head ≡ false) r.ci_runs

pub record IsConsistent (a : PrAggregateState) : Type 0 where
  pub has_current : is_some (lookup a.current_head_sha a.revisions) ≡ true
  pub revision :
      (sha : String) (r : RevisionState)
      → lookup sha a.revisions ≡ some r
      → IsRevision a.current_head_sha sha r
  pub events : Distinct a.event_ids

pub append_unique-Distinct :
    (values : List String) (value : String)
    → Distinct values
    → Distinct (append_unique values value)
unfolding append_unique
append_unique-Distinct values value d = elim (Bool-cases (contains values value)) [
  | inl old ↦ rw old d
  | inr new ↦ rw new (Distinct-snoc values value d new)
]

pub some-inj : {A : Type 0} {a b : A} → some a ≡ some b → a ≡ b
some-inj h = cc

none-some : {A : Type 0} {a : A} → Path (Option A) none (some a) → ⊥
none-some h = cc

-- Moving the head.

All-historical :
    (sha : String) (xs : List CiRunRecord)
    → All (λ (x : CiRunRecord). x.commit_sha ≡ sha) xs
    → All (λ (x : CiRunRecord). x.commit_sha ≡ sha) (map as_historical xs)
      × All (λ (x : CiRunRecord). x.is_current_head ≡ false) (map as_historical xs)
unfolding as_historical
All-historical sha [] h = (tt, tt)
All-historical sha (x ∷ xs) h =
    let (c, f) = All-historical sha xs h.1 in ((ground arith, c), (ground arith, f))

none_marked :
    (xs : List CiRunRecord)
    → any (λ x. x.is_current_head) xs ≡ false
    → All (λ (x : CiRunRecord). x.is_current_head ≡ false) xs
none_marked [] h = tt
none_marked (x ∷ xs) h = (ground arith, none_marked xs (ground arith))

-- A superseded revision fits every head that is another commit.
supersede-IsRevision :
    (head head' sha : String) (r : RevisionState)
    → IsRevision head sha r
    → (sha == head') ≡ false
    → IsRevision head' sha (supersede r)
unfolding supersede
supersede-IsRevision head head' sha r h n =
    elim (Bool-cases (is_superseded r.status && not (any (λ x. x.is_current_head) r.ci_runs))) [
      | inl e ↦ rw e (record {
        keyed = h.keyed;
        status = rw n (ground arith);
        commits = h.commits;
        flags = λ _. none_marked r.ci_runs (ground arith);
      })
      | inr e ↦ rw e (record {
        keyed = h.keyed;
        status = rw n refl;
        commits = (All-historical sha r.ci_runs h.commits).0;
        flags = λ _. (All-historical sha r.ci_runs h.commits).1;
      })
    ]

-- A revision that is neither the old head nor the new one.
other-IsRevision :
    (head head' sha : String) (r : RevisionState)
    → IsRevision head sha r
    → (sha == head) ≡ false
    → (sha == head') ≡ false
    → IsRevision head' sha r
other-IsRevision head head' sha r h o n = record {
  keyed = h.keyed;
  status = rw n (rw o at h.status);
  commits = h.commits;
  flags = λ _. h.flags o;
}

-- The revision that becomes the head.
head-IsRevision :
    (sha : String) (r : RevisionState)
    → r.head_sha ≡ sha
    → All (λ (x : CiRunRecord). x.commit_sha ≡ sha) r.ci_runs
    → IsRevision sha sha (record r { status = current })
head-IsRevision sha r k c = record {
  keyed = k;
  status = rw ==-refl refl;
  commits = c;
  flags = λ e. absurd (false≢true (sym e ∙ ==-refl sha));
}

module _ (a : PrAggregateState) (c : IsConsistent a) (head' : String) where
  -- What is found after the old head was superseded.
  superseded-found :
      (sha : String) (r : RevisionState)
      → lookup sha (superseded_revisions head' a) ≡ some r
      → ((sha == head') ≡ false → IsRevision head' sha r)
        × (r.head_sha ≡ sha)
        × All (λ (x : CiRunRecord). x.commit_sha ≡ sha) r.ci_runs
  unfolding superseded_revisions
  superseded-found sha r h = elim (Bool-cases (head' == a.current_head_sha)) [
    | inl same ↦
        let found = c.revision sha r (rw same at h) in
        (
          λ _.
              subst (λ x. IsRevision x sha r) (sym ((eq_iff head' a.current_head_sha).0 same))
                found,
          found.keyed,
          found.commits,
        )
    | inr moved ↦
        let (r₀, l, origin) =
          map_if-some (a.current_head_sha == sha) supersede (lookup sha a.revisions) (
            sym (lookup-update_at a.current_head_sha sha supersede a.revisions)
            ∙ (rw moved at h)) in
        let found = c.revision sha r₀ l in
        elim origin [
          | inl (old, e) ↦
              let new = supersede-IsRevision a.current_head_sha head' sha r₀ found (
                ground (
                  arith,
                  eq_iff a.current_head_sha sha,
                  eq_iff sha head',
                  eq_iff head' a.current_head_sha,
                )) in
              rw e ((λ _. new), new.keyed, new.commits)
          | inr (other, e) ↦ rw e (
            (λ n.
                other-IsRevision a.current_head_sha head' sha r₀ found
                  (==-sym sha a.current_head_sha ∙ other) n),
            found.keyed,
            found.commits,
          )
        ]
  ]

  or_fresh-found :
      (o : Option RevisionState)
      → lookup head' (superseded_revisions head' a) ≡ o
      → IsRevision head' head' (record (or_fresh head' current o) { status = current })
  or_fresh-found none h = head-IsRevision head' (fresh_revision head' current) refl tt
  or_fresh-found (some r) h =
      let (_, k, m) = superseded-found head' r h in head-IsRevision head' r k m

  move_to-IsConsistent : (event : PrEvent) → IsConsistent (move_to head' event a)
  unfolding move_to
  move_to-IsConsistent event = record {
    has_current = rw lookup-insert_self refl;
    revision = λ sha r h. moved-IsRevision sha r (rw lookup-insert at h);
    events = append_unique-Distinct a.event_ids event.meta.event_id c.events;
  }
    where
      moved-IsRevision :
          (sha : String) (r : RevisionState)
          → (if head' == sha
              then some
                  (record (or_fresh head' current (lookup head' (superseded_revisions head' a))) {
                    status = current;
                  })
              else lookup sha (superseded_revisions head' a))
            ≡ some r
          → IsRevision head' sha r
      moved-IsRevision sha r h = elim (Bool-cases (head' == sha)) [
        | inl same ↦
            subst (λ x. IsRevision head' x r) ((eq_iff head' sha).0 same)
              (subst (IsRevision head' head') (some-inj (rw same at h)) (or_fresh-found _ refl))
        | inr other ↦ (superseded-found sha r (rw other at h)).0 (==-sym sha head' ∙ other)
      ]

start_at-IsConsistent :
    (head_sha : String) (event : PrEvent) → IsConsistent (start_at head_sha event)
unfolding start_at lookup
start_at-IsConsistent head_sha event = record {
  has_current = rw ==-refl;
  revision = λ sha r h. first-IsRevision sha r h;
  events = (refl, tt);
}
  where
    first-IsRevision :
        (sha : String) (r : RevisionState)
        → (if head_sha == sha then some (fresh_revision head_sha current) else none) ≡ some r
        → IsRevision head_sha sha r
    first-IsRevision sha r h = elim (Bool-cases (head_sha == sha)) [
      | inl same ↦
          subst (λ x. IsRevision head_sha x r) ((eq_iff head_sha sha).0 same)
            (subst (IsRevision head_sha head_sha) (some-inj (rw same at h))
              (head-IsRevision head_sha (fresh_revision head_sha current) refl tt))
      | inr other ↦ absurd (none-some (rw other at h))
    ]

-- The aggregate that a first PR event makes, if it has a head commit, satisfies the invariant.
pub from_pr_event-IsConsistent : (event : PrEvent) → Ensures IsConsistent (from_pr_event event)
unfolding from_pr_event
from_pr_event-IsConsistent event =
    Ensures-bind _ _ (λ head_sha. Ensures-ok _ _ (start_at-IsConsistent head_sha event))

-- Whatever PR event comes next, what it makes of a consistent aggregate, if it does not raise, is
-- consistent.
pub apply_pr_event-IsConsistent :
    (event : PrEvent) (a : PrAggregateState)
    → IsConsistent a
    → Ensures IsConsistent (apply_pr_event event a)
unfolding apply_pr_event
apply_pr_event-IsConsistent event a c =
    Ensures-bind _ _ (λ head_sha. Ensures-ok _ _ (move_to-IsConsistent a c head_sha event))
