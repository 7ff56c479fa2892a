-- ===== src/Sessions/Manager.antt =====
-- `WorkflowAgentSessionManager` of src/runtime/agent/manager.py.
use qaestro.Prelude.{
  Exception, ℕ, ℤ, ◌+◌, String, Bool, true, not, ◌&&◌, Option, none, some, List, [], ◌∷◌, ◌++◌, map,
  Result, ok, err, if◌then◌else◌, lookup, insert, ◌==◌, string_eq, int_eq, is_set, text_take, ◌⋈◌,
  dashes_for_slashes, decimal, int_text,
}
use qaestro.Prelude.Exec.{Exec, raise, ◌>>=◌}
use qaestro.Sessions.{
  workflow, AgentSessionStatus, active, completed, cancelled, AgentSessionHandle, AgentRunInput,
  AgentRunResult, AgentSessionTurn, AgentSessionRecord, is_active, SessionError, not_found,
  not_active, runner_error, AgentRunner, SessionManager,
}

-- `_new_session_id`, less the counter, which its caller moves on.
unfoldable pub session_id_text : String → ℤ → String → ℕ → String
session_id_text repo_full_name pr_number head_sha next_id =
    let short_sha = if is_set head_sha then text_take 12 head_sha else "unknown" in
    "review-"
    ⋈ dashes_for_slashes repo_full_name
    ⋈ "-"
    ⋈ int_text pr_number
    ⋈ "-"
    ⋈ short_sha
    ⋈ "-"
    ⋈ decimal next_id

abbrev pub wrap_error : {A : Type 0} → Result Exception A → Result SessionError A
wrap_error (ok a) = ok a
wrap_error (err e) = err (runner_error e)

module _ {W : Type 0} where
  -- A call of the runner.
  abbrev pub call : {A : Type 0} → Exec Exception W A → Exec SessionError (SessionManager W) A
  call f m = let (r, w) = f m.world in (wrap_error r, record m { world = w })

  abbrev pub put : AgentSessionRecord → SessionManager W → SessionManager W
  put r m = record m { records = insert r.handle.session_id r m.records }

  unfoldable pub get_session : String → SessionManager W → Result SessionError AgentSessionRecord
  get_session session_id m = elim (lookup session_id m.records) [
    | none ↦ err (not_found session_id)
    | some r ↦ ok r
  ]

  unfoldable pub turns_for_session :
      String → SessionManager W → Result SessionError (List AgentSessionTurn)
  turns_for_session session_id m = elim (get_session session_id m) [
    | err e ↦ err e
    | ok r ↦ ok r.turns
  ]

  unfoldable pub new_session_id : String → ℤ → String → Exec SessionError (SessionManager W) String
  new_session_id repo_full_name pr_number head_sha m = (
    ok (session_id_text repo_full_name pr_number head_sha m.next_id),
    record m { next_id = m.next_id + 1 },
  )

abbrev pub fresh_record : AgentSessionHandle → AgentSessionRecord
fresh_record handle = record {
  handle = handle;
  status = active;
  turns = [];
  termination_reason = "";
}

abbrev pub turn_of : {I : Type 0} → AgentRunInput I → AgentRunResult → AgentSessionTurn
turn_of run_input result = record {
  stage = run_input.stage;
  correlation_id = run_input.correlation_id;
  status = result.status;
  allowed_tool_names = run_input.allowed_tool_names;
  error = result.error;
}

-- The test of the loop in `_close_matching`.
unfoldable pub closes : String → ℤ → (AgentSessionRecord → Bool) → AgentSessionRecord → Bool
closes repo_full_name pr_number predicate r =
    is_active r
    && (r.handle.repo_full_name == repo_full_name && r.handle.pr_number == pr_number)
    && predicate r

abbrev pub closed_record : AgentSessionStatus → String → AgentSessionRecord → AgentSessionRecord
closed_record terminal_status reason r = record r {
  status = terminal_status;
  termination_reason = reason;
}

module _ {I W : Type 0} (runner : AgentRunner I W) where
  unfoldable pub start_workflow_session :
      String
      → ℤ
      → String
      → String
      → String
      → Exec SessionError (SessionManager W) AgentSessionRecord
  start_workflow_session repo_full_name pr_number head_sha trigger correlation_id = do
    session_id ← new_session_id repo_full_name pr_number head_sha
    handle ← call (
        runner.start_session (record {
          session_id = session_id;
          scope = workflow;
          repo_full_name = repo_full_name;
          pr_number = pr_number;
          head_sha = head_sha;
          trigger = trigger;
          correlation_id = correlation_id;
          provider_session_id = "";
        }))
    λ m. (ok (fresh_record handle), put (fresh_record handle) m)

  -- What follows the runner's turn: the record read before the call, with one turn more, is put
  -- under the id of the caller's handle.
  abbrev pub keep_turn :
      AgentSessionHandle
      → AgentRunInput I
      → AgentSessionRecord
      → AgentRunResult
      → Exec SessionError (SessionManager W) AgentRunResult
  keep_turn handle run_input r result m = (
    ok result,
    record m {
      records =
          insert handle.session_id (record r { turns = r.turns ++ turn_of run_input result ∷ [] })
            m.records;
    },
  )

  unfoldable pub run_found :
      AgentSessionHandle
      → AgentRunInput I
      → Option AgentSessionRecord
      → Exec SessionError (SessionManager W) AgentRunResult
  run_found handle run_input none = raise (not_found handle.session_id)
  run_found handle run_input (some r) =
      if is_active r
      then (call (runner.run r.handle run_input) >>= keep_turn handle run_input r)
      else raise (not_active handle.session_id)

  unfoldable pub run_stage :
      AgentSessionHandle → AgentRunInput I → Exec SessionError (SessionManager W) AgentRunResult
  run_stage handle run_input m = run_found handle run_input (lookup handle.session_id m.records) m

  -- An exception of the runner ends the loop where it stands.
  abbrev pub after_close :
      Result SessionError (Unit {0})
      → SessionManager W
      → Result SessionError (List AgentSessionRecord) × SessionManager W
      → Result SessionError (List AgentSessionRecord) × SessionManager W
  after_close (err e) m rest = (err e, m)
  after_close (ok t) m rest = rest

  -- The loop of `_close_matching` over the records as they were before it.
  unfoldable pub close_loop :
      (AgentSessionRecord → Bool)
      → AgentSessionStatus
      → String
      → List AgentSessionRecord
      → List AgentSessionRecord
      → Exec SessionError (SessionManager W) (List AgentSessionRecord)
  close_loop test terminal_status reason closed [] m = (ok closed, m)
  close_loop test terminal_status reason closed (r ∷ rs) m =
      let (done, m₁) = call (runner.close_session r.handle reason) m in
      let updated = closed_record terminal_status reason r in
      let rest =
        close_loop test terminal_status reason (closed ++ updated ∷ []) rs (put updated m₁) in
      let skipped = close_loop test terminal_status reason closed rs m in
      if test r then after_close done m₁ rest else skipped

  unfoldable pub close_matching :
      String
      → ℤ
      → String
      → (AgentSessionRecord → Bool)
      → AgentSessionStatus
      → Exec SessionError (SessionManager W) (List AgentSessionRecord)
  close_matching repo_full_name pr_number reason predicate terminal_status m =
      close_loop (closes repo_full_name pr_number predicate) terminal_status reason []
        (map (λ p. p.1) m.records) m

  unfoldable pub cancel_superseded_sessions :
      String → ℤ → String → String → Exec SessionError (SessionManager W) (List AgentSessionRecord)
  cancel_superseded_sessions repo_full_name pr_number current_head_sha reason =
      close_matching repo_full_name pr_number reason
        (λ r. not (r.handle.head_sha == current_head_sha)) cancelled

  unfoldable pub close_pr_sessions :
      String → ℤ → String → Exec SessionError (SessionManager W) (List AgentSessionRecord)
  close_pr_sessions repo_full_name pr_number reason =
      close_matching repo_full_name pr_number reason (λ r. true) completed
