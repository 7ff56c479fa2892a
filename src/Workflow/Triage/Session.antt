-- ===== src/Workflow/Triage/Session.antt =====
-- The session of a triage: which calls the triage makes of its runner.
use qaestro.Prelude.{String, ◌≡◌, refl, List, ◌∷◌, Result, ok, err, Exception}
use qaestro.Sessions.{AgentSessionHandle, AgentRunner, RunRequest}
use qaestro.Analyzer.{PrAnalysisContext}
use qaestro.Workflow.{PrWorkflowTriage}
use qaestro.Workflow.Triage.Answer.{Python}
use qaestro.Workflow.Triage.Agent.{
  TriageClassifier, triage_session_handle, triage_turn, triage_attempt, after_start, triage_of_turn,
  classify_by_agent,
}

-- A call of a runner.
pub data RunnerCall : Type 0 where
  started : AgentSessionHandle → RunnerCall
  ran : AgentSessionHandle → RunnerCall
  closed : AgentSessionHandle → String → RunnerCall

-- A runner's world with the calls that were made of the runner, the latest first.
pub record Watched (W : Type 0) : Type 0 where
  pub calls : List RunnerCall
  pub world : W

-- Any runner, with its calls written down, those that raise too.
unfoldable pub watched : {I W : Type 0} → AgentRunner I W → AgentRunner I (Watched W)
watched runner = record {
  start_session = λ h w.
      let (r, world) = runner.start_session h w.world in
      (r, record { calls = started h ∷ w.calls; world = world });
  run = λ h x w.
      let (r, world) = runner.run h x w.world in
      (r, record { calls = ran h ∷ w.calls; world = world });
  close_session = λ h reason w.
      let (r, world) = runner.close_session h reason w.world in
      (r, record { calls = closed h reason ∷ w.calls; world = world });
}

-- The calls of a triage, the latest first, by what starting gave and what reading the prompt gave.
abbrev pub calls_of :
    AgentSessionHandle
    → Result Exception AgentSessionHandle
    → Result Exception String
    → List RunnerCall
    → List RunnerCall
calls_of own (err e) prompt before = closed own "triage stage complete" ∷ started own ∷ before
calls_of own (ok session) (err e) before =
    closed session "triage stage complete" ∷ started own ∷ before
calls_of own (ok session) (ok prompt) before =
    closed session "triage stage complete" ∷ ran session ∷ started own ∷ before

-- The triage in a watched world, by what starting the session gave.
module _ {W : Type 0} (runner : AgentRunner RunRequest W) where
  ended_of :
      Result Exception String
      → Python
      → TriageClassifier
      → PrAnalysisContext
      → Result Exception AgentSessionHandle
      → W
      → PrWorkflowTriage × W
  ended_of prompt python classifier c r w =
      let (session, turn) = after_start runner prompt classifier c r w in
      (
        triage_of_turn python (classifier.fallback c) turn.0,
        (runner.close_session session "triage stage complete" turn.1).1,
      )

module _ {W : Type 0} (runner : AgentRunner RunRequest W) where
  ended_calls :
      (prompt : Result Exception String) (python : Python) (classifier : TriageClassifier)
      (c : PrAnalysisContext) (r : Result Exception AgentSessionHandle) (w : W)
      (calls : List RunnerCall)
      → ended_of
          (watched runner)
          prompt
          python
          classifier
          c
          r
          (record { calls = started (triage_session_handle c) ∷ calls; world = w })
        ≡ (let (t, world) = ended_of runner prompt python classifier c r w in
            (
              t,
              record { calls = calls_of (triage_session_handle c) r prompt calls; world = world },
            ))
  unfolding ended_of watched triage_turn
  ended_calls prompt python classifier c (err e) w calls = refl
  ended_calls (err x) python classifier c (ok session) w calls = refl
  ended_calls (ok p) python classifier c (ok session) w calls = refl

  -- Of any runner, whether it raises or not, a triage makes these calls: it starts its own session;
  -- where that gave a session and the prompt was read it runs one turn in the session; and, in every
  -- case, it closes last, once, the session that starting gave, or its own where starting raised.
  -- Its answer and what the runner does are those of the runner that nobody watches.
  pub classify_by_agent_calls :
      (load_prompt : Result Exception String) (python : Python) (classifier : TriageClassifier)
      (c : PrAnalysisContext) (calls : List RunnerCall) (w : W)
      → classify_by_agent
          (watched runner)
          load_prompt
          python
          classifier
          c
          (record { calls = calls; world = w })
        ≡ (let (t, world) = classify_by_agent runner load_prompt python classifier c w in
            (
              t,
              record {
                calls =
                    calls_of
                      (triage_session_handle c)
                      (runner.start_session (triage_session_handle c) w).0
                      load_prompt
                      calls;
                world = world;
              },
            ))
  unfolding classify_by_agent triage_attempt watched ended_of
  classify_by_agent_calls load_prompt python classifier c calls w =
      let (r, w₁) = runner.start_session (triage_session_handle c) w in
      ended_calls load_prompt python classifier c r w₁ calls
