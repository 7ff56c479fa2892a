-- ===== src/Sessions/Turns.antt =====
-- What one stage turn does to the sessions.
use qaestro.Prelude.{
  Exception, true, false, ◌≡◌, refl, Option, none, some, [], ◌∷◌, ◌++◌, Result, ok, err, lookup,
  insert, string_eq, Bool-cases, inl, inr,
}
use qaestro.Prelude.Exec.{continue}
use qaestro.Sessions.{
  AgentSessionHandle, AgentRunInput, AgentRunResult, AgentSessionRecord, is_active, SessionError,
  not_found, not_active, runner_error, AgentRunner, SessionManager,
}
use qaestro.Sessions.Manager.{wrap_error, turn_of, keep_turn, run_found, run_stage}

module _ {I W : Type 0} (runner : AgentRunner I W) (handle : AgentSessionHandle)
    (run_input : AgentRunInput I) (m : SessionManager W) where
  -- A turn's outcome. `p` is the answer and the manager after it.
  pub data Turned (p : Result SessionError AgentRunResult × SessionManager W) : Type 0 where
    unknown :
        lookup handle.session_id m.records ≡ none
        → p ≡ (err (not_found handle.session_id), m)
        → Turned p
    inactive :
        (r : AgentSessionRecord)
        → lookup handle.session_id m.records ≡ some r
        → is_active r ≡ false
        → p ≡ (err (not_active handle.session_id), m)
        → Turned p
    runner_raised :
        (r : AgentSessionRecord) (e : Exception) (w : W)
        → lookup handle.session_id m.records ≡ some r
        → is_active r ≡ true
        → runner.run r.handle run_input m.world ≡ (err e, w)
        → p ≡ (err (runner_error e), record m { world = w })
        → Turned p
    -- The record keeps its handle and its turns, and gets one more, with the tools of this turn.
    ran :
        (r : AgentSessionRecord) (result : AgentRunResult) (w : W)
        → lookup handle.session_id m.records ≡ some r
        → is_active r ≡ true
        → runner.run r.handle run_input m.world ≡ (ok result, w)
        → p ≡ (
          ok result,
          record m {
            records =
                insert handle.session_id
                  (record r { turns = r.turns ++ turn_of run_input result ∷ [] })
                  m.records;
            world = w;
          },
        )
        → Turned p

  after_run-Turned :
      (r : AgentSessionRecord) (q : Result Exception AgentRunResult × W)
      → lookup handle.session_id m.records ≡ some r
      → is_active r ≡ true
      → runner.run r.handle run_input m.world ≡ q
      → Turned (
          continue
            (wrap_error q.0)
            (keep_turn runner handle run_input r)
            (record m { world = q.1 }))
  after_run-Turned r (err e, w) found on ran_to = runner_raised r e w found on ran_to refl
  after_run-Turned r (ok result, w) found on ran_to = ran r result w found on ran_to refl

  found-Turned :
      (o : Option AgentSessionRecord)
      → lookup handle.session_id m.records ≡ o
      → Turned (run_found runner handle run_input o m)
  unfolding run_found
  found-Turned none found = unknown found refl
  found-Turned (some r) found = elim (Bool-cases (is_active r)) [
    | inl on ↦ rw on (after_run-Turned r (runner.run r.handle run_input m.world) found on refl)
    | inr off ↦ rw off (inactive r found off refl)
  ]

  -- A turn runs in an active session only, with the handle that the manager keeps; its record then
  -- has exactly one turn more, which names the tools of this turn. Otherwise no record changes.
  pub run_stage-Turned : Turned (run_stage runner handle run_input m)
  unfolding run_stage
  run_stage-Turned = found-Turned (lookup handle.session_id m.records) refl
