-- ===== src/Sessions/CloseAll.antt =====
-- The records after a loop that closes those that pass a test.
use qaestro.Prelude.{
  String, Bool, true, false, ◌≡◌, refl, sym, ap, ◌∙◌, subst, Option, none, some, List, [], ◌∷◌, map,
  Dict, lookup, insert, lookup-insert, All, ◌==◌, string_eq, int_eq, Bool-cases, inl, inr, eq_iff,
  if◌then◌else◌,
}
use mathlib.Core.Option.{some-injective}
use qaestro.Sessions.{AgentSessionRecord, AgentSessionStatus}
use qaestro.Sessions.Manager.{closed_record}
use qaestro.Sessions.Keys.{IsOwn, IsKeyed}

abbrev pub map_some : {A B : Type 0} → (A → B) → Option A → Option B
map_some f none = none
map_some f (some a) = some (f a)

module _ (test : AgentSessionRecord → Bool) (status : AgentSessionStatus) (reason : String) where
  -- The record after closing.
  abbrev pub closed_if : AgentSessionRecord → AgentSessionRecord
  closed_if r = if test r then closed_record status reason r else r

  abbrev pub step :
      AgentSessionRecord → Dict String AgentSessionRecord → Dict String AgentSessionRecord
  step r d = if test r then insert r.handle.session_id (closed_record status reason r) d else d

  abbrev pub close_all :
      List AgentSessionRecord → Dict String AgentSessionRecord → Dict String AgentSessionRecord
  close_all [] d = d
  close_all (r ∷ rs) d = close_all rs (step r d)

  abbrev pub closed_list : List AgentSessionRecord → List AgentSessionRecord
  closed_list [] = []
  closed_list (r ∷ rs) =
      let rest = closed_list rs in if test r then closed_record status reason r ∷ rest else rest

  pub lookup-step :
      (id : String) (r : AgentSessionRecord) (d : Dict String AgentSessionRecord)
      → (r.handle.session_id == id) ≡ false
      → lookup id (step r d) ≡ lookup id d
  lookup-step id r d other = elim (Bool-cases (test r)) [
    | inl hit ↦ rw hit (rw lookup-insert (rw other))
    | inr miss ↦ rw miss
  ]

  pub lookup-step_own :
      (id : String) (r : AgentSessionRecord) (d : Dict String AgentSessionRecord)
      → (r.handle.session_id == id) ≡ true
      → lookup id d ≡ some r
      → lookup id (step r d) ≡ some (closed_if r)
  lookup-step_own id r d same h = elim (Bool-cases (test r)) [
    | inl hit ↦ rw hit (rw lookup-insert (rw same))
    | inr miss ↦ rw miss h
  ]

  -- The record that the closed entries `es` give an id, or the one that stood there before.
  abbrev pub expected :
      Option AgentSessionRecord → Option AgentSessionRecord → Option AgentSessionRecord
  expected none before = before
  expected (some r) before = some (closed_if r)

  pub lookup-close_all_absent :
      (id : String) (es : Dict String AgentSessionRecord) (d : Dict String AgentSessionRecord)
      → All IsOwn es
      → lookup id es ≡ none
      → lookup id (close_all (map (λ p. p.1) es) d) ≡ lookup id d
  unfolding lookup
  lookup-close_all_absent id [] d own h = refl
  lookup-close_all_absent id ((k, r) ∷ es) d own h = elim (Bool-cases (k == id)) [
    | inl same ↦ cc (rw same at h)
    | inr other ↦
        lookup-close_all_absent id es (step r d) own.1 (rw other at h)
        ∙ lookup-step id r d (rw (own.0) other)
  ]

  -- Closing entries that stand under their own ids, each id once, in a dictionary that has them.
  pub lookup-close_all :
      (id : String) (es : Dict String AgentSessionRecord) (d : Dict String AgentSessionRecord)
      {r : AgentSessionRecord}
      → IsKeyed es
      → lookup id es ≡ some r
      → lookup id d ≡ some r
      → lookup id (close_all (map (λ p. p.1) es) d) ≡ some (closed_if r)
  unfolding lookup
  lookup-close_all id [] d k h there = cc
  lookup-close_all id ((j, q) ∷ es) d {r} (n, own) h there = elim (Bool-cases (j == id)) [
    | inl same ↦
        let e = some-injective q r (rw same at h) in
        lookup-close_all_absent id es (step q d) own.1
          (subst (λ i. lookup i es ≡ none) ((eq_iff j id).0 same) (n.0))
        ∙ lookup-step_own id q d (rw (own.0) same) (there ∙ ap some (sym e))
        ∙ ap (λ x. some (closed_if x)) e
    | inr other ↦
        lookup-close_all id es (step q d) {r = r} (n.1, own.1) (rw other at h)
          (lookup-step id q d (rw (own.0) other) ∙ there)
  ]

  -- Every record under its id, before and after.
  pub lookup-close_all_self :
      (d : Dict String AgentSessionRecord)
      → IsKeyed d
      → (id : String) (o : Option AgentSessionRecord) → lookup id d ≡ o
      → lookup id (close_all (map (λ p. p.1) d) d) ≡ map_some closed_if o
  lookup-close_all_self d k id none h = lookup-close_all_absent id d d k.1 h ∙ h
  lookup-close_all_self d k id (some r) h = lookup-close_all id d d {r = r} k h h
