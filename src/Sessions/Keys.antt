-- ===== src/Sessions/Keys.antt =====
-- The session records stand under their own ids, each id once.
use qaestro.Prelude.{
  ℕ, ℤ, ◌+◌, String, Bool, ◌≡◌, refl, sym, subst, Option, none, some, List, [], ◌∷◌, ◌++◌, Result,
  ok, err, Dict, lookup, insert, All, ◌==◌, string_eq, Bool-cases, inl, inr, eq_iff, NoRepeats,
  insert-NoRepeats, Exception,
}
use qaestro.Prelude.Exec.{continue}
use qaestro.Sessions.{
  AgentSessionRecord, AgentSessionHandle, AgentRunInput, AgentRunResult, AgentRunner,
  SessionManager, SessionError, AgentSessionStatus, is_active,
}
use qaestro.Sessions.Manager.{
  put, fresh_record, keep_turn, run_found, run_stage, start_workflow_session, new_session_id,
  wrap_error, closed_record, after_close, close_loop, close_matching, cancel_superseded_sessions,
  close_pr_sessions,
}

abbrev pub IsOwn : String × AgentSessionRecord → Type 0
IsOwn p = p.1.handle.session_id ≡ p.0

-- The invariant of a manager's records.
abbrev pub IsKeyed : Dict String AgentSessionRecord → Type 0
IsKeyed d = NoRepeats d × All IsOwn d

insert-All :
    {V : Type 0} (P : String × V → Type 0) (k : String) (v : V) (d : Dict String V)
    → P (k, v)
    → All P d
    → All P (insert k v d)
unfolding insert
insert-All P k v [] p a = (p, tt)
insert-All P k v ((j, w) ∷ d) p a = elim (Bool-cases (j == k)) [
  | inl same ↦ rw same (subst (λ i. P (i, v)) (sym ((eq_iff j k).0 same)) p, a.1)
  | inr other ↦ rw other (a.0, insert-All P k v d p a.1)
]

pub insert-IsKeyed :
    (id : String) (r : AgentSessionRecord) (d : Dict String AgentSessionRecord)
    → r.handle.session_id ≡ id
    → IsKeyed d
    → IsKeyed (insert id r d)
insert-IsKeyed id r d own (n, a) = (insert-NoRepeats id r d n, insert-All IsOwn id r d own a)

pub lookup-IsOwn :
    (id : String) (d : Dict String AgentSessionRecord) {r : AgentSessionRecord}
    → All IsOwn d
    → lookup id d ≡ some r
    → r.handle.session_id ≡ id
unfolding lookup
lookup-IsOwn id [] a h = cc
lookup-IsOwn id ((j, w) ∷ d) a h = elim (Bool-cases (j == id)) [
  | inl same ↦ cc (a.0, (eq_iff j id).0 same, rw same at h)
  | inr other ↦ lookup-IsOwn id d a.1 (rw other at h)
]

-- A call of the manager.
pub data SessionCall (I : Type 0) : Type 0 where
  start : String → ℤ → String → String → String → SessionCall I
  turn : AgentSessionHandle → AgentRunInput I → SessionCall I
  cancel : String → ℤ → String → String → SessionCall I
  close : String → ℤ → String → SessionCall I

module _ {I W : Type 0} (runner : AgentRunner I W) where
  -- The manager after a call, whether it raises or not.
  unfoldable pub apply_call : SessionCall I → SessionManager W → SessionManager W
  apply_call (start repo n head trigger id) m =
      (start_workflow_session runner repo n head trigger id m).1
  apply_call (turn handle run_input) m = (run_stage runner handle run_input m).1
  apply_call (cancel repo n head reason) m =
      (cancel_superseded_sessions runner repo n head reason m).1
  apply_call (close repo n reason) m = (close_pr_sessions runner repo n reason m).1

  unfoldable pub apply_calls : List (SessionCall I) → SessionManager W → SessionManager W
  apply_calls [] m = m
  apply_calls (c ∷ cs) m = apply_calls cs (apply_call c m)

  started-IsKeyed :
      (p : Result Exception AgentSessionHandle × W) (records : Dict String AgentSessionRecord)
      (next_id : ℕ)
      → IsKeyed records
      → IsKeyed
          (continue
            (wrap_error p.0)
            (λ handle m. (ok (fresh_record handle), put (fresh_record handle) m))
            (record { records = records; next_id = next_id; world = p.1 })).1.records
  started-IsKeyed (err e, w) records next_id k = k
  started-IsKeyed (ok handle, w) records next_id k =
      insert-IsKeyed handle.session_id (fresh_record handle) records refl k

  pub start-IsKeyed :
      (repo : String) (n : ℤ) (head trigger id : String) (m : SessionManager W)
      → IsKeyed m.records
      → IsKeyed (start_workflow_session runner repo n head trigger id m).1.records
  unfolding start_workflow_session new_session_id
  start-IsKeyed repo n head trigger id m k = started-IsKeyed _ m.records (m.next_id + 1) k

  turned-IsKeyed :
      (handle : AgentSessionHandle) (run_input : AgentRunInput I) (r : AgentSessionRecord)
      (p : Result Exception AgentRunResult × W) (m : SessionManager W)
      → r.handle.session_id ≡ handle.session_id
      → IsKeyed m.records
      → IsKeyed
          (continue
            (wrap_error p.0)
            (keep_turn runner handle run_input r)
            (record m { world = p.1 })).1.records
  turned-IsKeyed handle run_input r (err e, w) m own k = k
  turned-IsKeyed handle run_input r (ok result, w) m own k =
      insert-IsKeyed handle.session_id _ m.records own k

  found-IsKeyed :
      (handle : AgentSessionHandle) (run_input : AgentRunInput I) (o : Option AgentSessionRecord)
      (m : SessionManager W)
      → lookup handle.session_id m.records ≡ o
      → IsKeyed m.records
      → IsKeyed (run_found runner handle run_input o m).1.records
  unfolding run_found
  found-IsKeyed handle run_input none m f k = k
  found-IsKeyed handle run_input (some r) m f k = elim (Bool-cases (is_active r)) [
    | inl on ↦ rw on (
        turned-IsKeyed handle run_input r (runner.run r.handle run_input m.world) m
          (lookup-IsOwn handle.session_id m.records k.1 f) k)
    | inr off ↦ rw off k
  ]

  after_close-IsKeyed :
      (done : Result SessionError (Unit {0})) (m : SessionManager W)
      (rest : Result SessionError (List AgentSessionRecord) × SessionManager W)
      → IsKeyed m.records
      → IsKeyed rest.1.records
      → IsKeyed (after_close runner done m rest).1.records
  after_close-IsKeyed (err e) m rest k kr = k
  after_close-IsKeyed (ok t) m rest k kr = kr

  closed-IsKeyed :
      (test : AgentSessionRecord → Bool) (status : AgentSessionStatus) (reason : String)
      (closed rs : List AgentSessionRecord) (m : SessionManager W)
      → IsKeyed m.records
      → IsKeyed (close_loop runner test status reason closed rs m).1.records
  unfolding close_loop
  closed-IsKeyed test status reason closed [] m k = k
  closed-IsKeyed test status reason closed (r ∷ rs) m k = elim (Bool-cases (test r)) [
    | inr skip ↦ rw skip (closed-IsKeyed test status reason closed rs m k)
    | inl hit ↦
        let w = (runner.close_session r.handle reason m.world).1 in
        let done = wrap_error (runner.close_session r.handle reason m.world).0 in
        let updated = closed_record status reason r in
        rw hit (
          after_close-IsKeyed done (record m { world = w })
            (close_loop runner test status reason (closed ++ updated ∷ []) rs
              (put updated (record m { world = w })))
            k
            (closed-IsKeyed test status reason (closed ++ updated ∷ []) rs
              (put updated (record m { world = w }))
              (insert-IsKeyed r.handle.session_id updated m.records refl k)))
  ]

  pub apply_call-IsKeyed :
      (c : SessionCall I) (m : SessionManager W)
      → IsKeyed m.records
      → IsKeyed (apply_call c m).records
  unfolding apply_call run_stage close_matching cancel_superseded_sessions close_pr_sessions
  apply_call-IsKeyed (start repo n head trigger id) m k = start-IsKeyed repo n head trigger id m k
  apply_call-IsKeyed (turn handle run_input) m k = found-IsKeyed handle run_input _ m refl k
  apply_call-IsKeyed (cancel repo n head reason) m k = closed-IsKeyed _ _ reason [] _ m k
  apply_call-IsKeyed (close repo n reason) m k = closed-IsKeyed _ _ reason [] _ m k

  -- After any calls, those that raise included, each record stands under the id of its own handle, and
  -- no id stands twice.
  pub apply_calls-IsKeyed :
      (cs : List (SessionCall I)) (m : SessionManager W)
      → IsKeyed m.records
      → IsKeyed (apply_calls cs m).records
  unfolding apply_calls
  apply_calls-IsKeyed [] m k = k
  apply_calls-IsKeyed (c ∷ cs) m k =
      apply_calls-IsKeyed cs (apply_call c m) (apply_call-IsKeyed c m k)
