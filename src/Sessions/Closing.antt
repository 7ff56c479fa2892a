-- ===== src/Sessions/Closing.antt =====
-- What closing does to every record: those that pass the test are closed, all others are left.
use qaestro.Prelude.{
  ok_inj, ℤ, String, Bool, true, false, not, ◌≡◌, refl, sym, ap, ◌∙◌, subst, Option, none, some,
  List, [], ◌∷◌, ◌++◌, map, Result, ok, err, lookup, ◌==◌, string_eq, int_eq, Bool-cases, inl, inr,
  arith, eq_iff, append-nil, append_assoc, false≢true,
}
use mathlib.Core.Option.{some-injective}
use qaestro.Sessions.{
  AgentSessionRecord, AgentSessionStatus, completed, cancelled, AgentRunner, SessionManager,
  SessionError, active_status, is_active,
}
use qaestro.Sessions.Manager.{
  put, wrap_error, closes, closed_record, after_close, close_loop, close_matching,
  cancel_superseded_sessions, close_pr_sessions,
}
use qaestro.Sessions.Keys.{IsKeyed}
use qaestro.Sessions.CloseAll.{map_some, closed_if, close_all, closed_list, lookup-close_all_self}

module _ {I W : Type 0} (runner : AgentRunner I W) (test : AgentSessionRecord → Bool)
    (status : AgentSessionStatus) (reason : String) where
  after_close-ok :
      (done : Result SessionError (Unit {0})) (m : SessionManager W)
      (rest : Result SessionError (List AgentSessionRecord) × SessionManager W)
      {closed : List AgentSessionRecord} {m' : SessionManager W}
      → after_close runner done m rest ≡ (ok closed, m')
      → rest ≡ (ok closed, m')
  after_close-ok (err e) m rest h = cc (ap (λ p. p.0) h)
  after_close-ok (ok t) m rest h = h

  -- A loop that is not cut off by the runner closes all the records that pass the test.
  close_loop-close_all :
      (closed rs : List AgentSessionRecord) (m : SessionManager W) {all : List AgentSessionRecord}
      {m' : SessionManager W}
      → close_loop runner test status reason closed rs m ≡ (ok all, m')
      → (m'.records ≡ close_all test status reason rs m.records)
        × (all ≡ closed ++ closed_list test status reason rs)
  unfolding close_loop
  close_loop-close_all closed [] m h =
      (sym (ap (λ p. p.1.records) h), ok_inj (sym (ap (λ p. p.0) h)) ∙ sym (append-nil closed))
  close_loop-close_all closed (r ∷ rs) m {all = all} {m' = m'} h = elim (Bool-cases (test r)) [
    | inr miss ↦ rw miss (close_loop-close_all closed rs m (rw miss at h))
    | inl hit ↦
        let updated = closed_record status reason r in
        let w = (runner.close_session r.handle reason m.world).1 in
        let rest =
          close_loop runner test status reason (closed ++ updated ∷ []) rs
            (put updated (record m { world = w })) in
        let (same, list) =
          close_loop-close_all (closed ++ updated ∷ []) rs (put updated (record m { world = w })) (
            after_close-ok (wrap_error (runner.close_session r.handle reason m.world).0)
              (record m { world = w }) rest (rw hit at h)) in
        rw hit (same, list ∙ append_assoc closed (updated ∷ []) (closed_list test status reason rs))
  ]

module _ {I W : Type 0} (runner : AgentRunner I W) (m : SessionManager W) (repo : String) (n : ℤ)
    (reason : String) where
  -- Closing that does not raise closes the active sessions of the pull request that the predicate
  -- holds of, and leaves every other record as it is.
  close_matching-lookup :
      (predicate : AgentSessionRecord → Bool) (status : AgentSessionStatus)
      {closed : List AgentSessionRecord} {m' : SessionManager W}
      → IsKeyed m.records
      → close_matching runner repo n reason predicate status m ≡ (ok closed, m')
      → (id : String)
      → lookup id m'.records
        ≡ map_some (closed_if (closes repo n predicate) status reason) (lookup id m.records)
  unfolding close_matching
  close_matching-lookup predicate status k h id =
      let test = closes repo n predicate in
      ap (lookup id)
        (close_loop-close_all runner test status reason [] (map (λ p. p.1) m.records) m h).0
      ∙ lookup-close_all_self test status reason m.records k id (lookup id m.records) refl

  map_some-some :
      {A B : Type 0} (f : A → B) (o : Option A) {b : B}
      → map_some f o ≡ some b
      → (a : A) × (f a ≡ b)
  map_some-some f none h = cc
  map_some-some f (some a) {b} h = (a, some-injective (f a) b h)

  closes_not :
      (predicate : AgentSessionRecord → Bool) (q : AgentSessionRecord)
      → closes repo n predicate q ≡ false
      → is_active q ≡ true
      → q.handle.repo_full_name ≡ repo
      → q.handle.pr_number ≡ n
      → predicate q ≡ false
  unfolding closes
  closes_not predicate q miss on own number =
      ground (arith, eq_iff q.handle.repo_full_name repo, int_eq.beq_iff q.handle.pr_number n)

  left_open :
      (predicate : AgentSessionRecord → Bool) (status : AgentSessionStatus) (q : AgentSessionRecord)
      → active_status status ≡ false
      → let r = closed_if (closes repo n predicate) status reason q in
        is_active r ≡ true
        → r.handle.repo_full_name ≡ repo
        → r.handle.pr_number ≡ n
        → predicate r ≡ false
  left_open predicate status q terminal on own number =
      elim (Bool-cases (closes repo n predicate q)) [
        | inl hit ↦ absurd (false≢true (sym terminal ∙ (rw hit at on)))
        | inr miss ↦
            rw miss
              (closes_not predicate q miss (rw miss at on) (rw miss at own) (rw miss at number))
      ]

  left_open_of :
      (predicate : AgentSessionRecord → Bool) (status : AgentSessionStatus)
      {closed : List AgentSessionRecord} {m' : SessionManager W}
      → active_status status ≡ false
      → IsKeyed m.records
      → close_matching runner repo n reason predicate status m ≡ (ok closed, m')
      → (id : String) (r : AgentSessionRecord) → lookup id m'.records ≡ some r
      → is_active r ≡ true
      → r.handle.repo_full_name ≡ repo
      → r.handle.pr_number ≡ n
      → predicate r ≡ false
  left_open_of predicate status terminal k h id r found on own number =
      let test = closes repo n predicate in
      let (q, e) =
        map_some-some (closed_if test status reason) (lookup id m.records)
          (sym (close_matching-lookup predicate status k h id) ∙ found) in
      subst (λ x. predicate x ≡ false) e
        (left_open predicate status q terminal (subst (λ x. is_active x ≡ true) (sym e) on)
          (subst (λ x. x.handle.repo_full_name ≡ repo) (sym e) own)
          (subst (λ x. x.handle.pr_number ≡ n) (sym e) number))

  -- After sessions of superseded commits are cancelled, every session of the pull request that is
  -- still active is of the current head.
  pub cancel_superseded_sessions-current :
      (head_sha : String) {closed : List AgentSessionRecord} {m' : SessionManager W}
      → IsKeyed m.records
      → cancel_superseded_sessions runner repo n head_sha reason m ≡ (ok closed, m')
      → (id : String) (r : AgentSessionRecord) → lookup id m'.records ≡ some r
      → is_active r ≡ true
      → r.handle.repo_full_name ≡ repo
      → r.handle.pr_number ≡ n
      → r.handle.head_sha ≡ head_sha
  unfolding cancel_superseded_sessions
  cancel_superseded_sessions-current head_sha k h id r found on own number =
      let old =
        left_open_of (λ x. not (x.handle.head_sha == head_sha)) cancelled refl k h id r found on own
          number in
      (eq_iff r.handle.head_sha head_sha).0 (ground arith)

  -- After the sessions of a pull request are closed, none of them is active.
  pub close_pr_sessions_all :
      {closed : List AgentSessionRecord} {m' : SessionManager W}
      → IsKeyed m.records
      → close_pr_sessions runner repo n reason m ≡ (ok closed, m')
      → (id : String) (r : AgentSessionRecord) → lookup id m'.records ≡ some r
      → r.handle.repo_full_name ≡ repo
      → r.handle.pr_number ≡ n
      → is_active r ≡ false
  unfolding close_pr_sessions
  close_pr_sessions_all k h id r found own number = elim (Bool-cases (is_active r)) [
    | inl on ↦
        absurd
          (false≢true (sym (left_open_of (λ x. true) completed refl k h id r found on own number)))
    | inr off ↦ off
  ]
