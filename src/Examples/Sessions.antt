-- ===== src/Examples/Sessions.antt =====
-- Two sessions of one pull request, at two heads.
use qaestro.Prelude.{
  ℕ, ◌+◌, pos, insert, String, ◌≡◌, refl, List, [], ◌∷◌, ok, lookup, string_eq, int_eq,
}
use qaestro.Tools.{triage}
use qaestro.Sessions.{
  workflow, cancelled, succeeded, AgentSessionHandle, AgentRunInput, AgentSessionRecord,
  AgentRunner, SessionManager,
}
use qaestro.Sessions.Manager.{
  closes, closed_record, fresh_record, run_stage, close_loop, close_matching,
  cancel_superseded_sessions,
}
use qaestro.Sessions.Keys.{IsKeyed, SessionCall, start, cancel, apply_calls, apply_calls-IsKeyed}
use qaestro.Sessions.Closing.{cancel_superseded_sessions-current}
use qaestro.Sessions.Turns.{Turned, run_stage-Turned}

abbrev session_at : String → String → AgentSessionHandle
session_at id sha = record {
  session_id = id;
  scope = workflow;
  repo_full_name = "o/r";
  pr_number = pos 7;
  head_sha = sha;
  trigger = "auto";
  correlation_id = "c1";
  provider_session_id = "";
}

-- A runner that answers and counts its calls.
abbrev counting : AgentRunner String ℕ
counting = record {
  start_session = λ h w. (ok h, w + 1);
  run = λ h x w. (
    ok (record {
      session = h;
      stage = x.stage;
      status = succeeded;
      output_text = x.rest;
      error = "";
      allowed_tool_names = x.allowed_tool_names;
    }),
    w + 1,
  );
  close_session = λ h reason w. (ok tt, w + 1);
}

abbrev manager : SessionManager ℕ
manager = record {
  records =
      ("old", fresh_record (session_at "old" "aaa"))
      ∷ ("new", fresh_record (session_at "new" "bbb"))
      ∷ [];
  next_id = 3;
  world = 0;
}

manager-IsKeyed : IsKeyed manager.records
unfolding lookup
manager-IsKeyed = ((refl, (refl, tt)), (refl, (refl, tt)))

abbrev calls : List (SessionCall String)
calls = start "o/r" (pos 7) "ccc" "auto" "c2" ∷ cancel "o/r" (pos 7) "ccc" "moved" ∷ []

apply_calls-IsKeyed_example : IsKeyed (apply_calls counting calls manager).records
apply_calls-IsKeyed_example = apply_calls-IsKeyed counting calls manager manager-IsKeyed

abbrev cancelled_old : AgentSessionRecord
cancelled_old = closed_record cancelled "moved" (fresh_record (session_at "old" "aaa"))

abbrev after_cancel : SessionManager ℕ
after_cancel = record {
  records = ("old", cancelled_old) ∷ ("new", fresh_record (session_at "new" "bbb")) ∷ [];
  next_id = 3;
  world = 1;
}

cancel_runs :
    cancel_superseded_sessions counting "o/r" (pos 7) "bbb" "moved" manager
    ≡ (ok (cancelled_old ∷ []), after_cancel)
unfolding cancel_superseded_sessions close_matching close_loop closes insert
cancel_runs = refl

cancel_superseded_sessions-current_example : (session_at "new" "bbb").head_sha ≡ "bbb"
unfolding lookup
cancel_superseded_sessions-current_example =
    cancel_superseded_sessions-current counting manager "o/r" (pos 7) "moved" "bbb" manager-IsKeyed
      cancel_runs "new" (fresh_record (session_at "new" "bbb")) refl refl refl refl

abbrev triage_input : AgentRunInput String
triage_input = record {
  stage = triage;
  rest = "look";
  correlation_id = "c1";
  allowed_tool_names = [];
}

run_stage-Turned_example :
    Turned counting
      (session_at "new" "bbb")
      triage_input
      manager
      (run_stage counting (session_at "new" "bbb") triage_input manager)
run_stage-Turned_example = run_stage-Turned counting (session_at "new" "bbb") triage_input manager
