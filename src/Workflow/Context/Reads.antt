-- ===== src/Workflow/Context/Reads.antt =====
-- The providers only read.
use qaestro.Prelude.{
  ℤ, String, true, ◌≡◌, refl, sym, ◌∙◌, ap, Option, none, some, List, [], ◌∷◌, ◌++◌, append_assoc,
  append-nil, Result, ok, err, Exception, contains, string_eq, All, All-append, inl, inr,
  is_nonempty, Bool-cases,
}
use qaestro.Prelude.Exec.{lift, pure, continue, ◌>>=◌}
use qaestro.Contracts.{PrEvent, CiCompleted}
use qaestro.Json.{Fields}
use qaestro.Tools.{context, ToolAuditEntry}
use qaestro.Tools.Runtime.{ToolRuntime, execute}
use qaestro.Tools.Runtime.{audit_entry}
use qaestro.Tools.Guarantees.{Executed, refused, ran, execute-Executed}
use qaestro.GitHub.{GitHubValue}
use qaestro.Workflow.Context.{
  Loads, run_tool, load_pr_context, load_checks, enrich, enrich_from, load_ci_context, context_call,
}

abbrev pub reading_tools : List String
reading_tools =
    "github.pr.view" ∷ "github.pr.files" ∷ "github.pr.diff" ∷ "github.actions.run.jobs"
    ∷ "github.checks.runs_for_ref" ∷ []

-- A call of a reading tool in the context stage.
abbrev pub IsReading : ToolAuditEntry → Type 0
IsReading e = (e.stage ≡ context) × (contains reading_tools e.name ≡ true)

module _ {W : Type 0} where
  -- From `t` to `u` the audit log has grown by calls of reading tools, and the tools and their
  -- policy are the same.
  pub record Read (t u : ToolRuntime Fields GitHubValue W) : Type 0 where
    pub entries : List ToolAuditEntry
    pub grown : u.audit_log ≡ t.audit_log ++ entries
    pub reading : All IsReading entries
    pub same_tools : u.tools ≡ t.tools
    pub same_policy : u.policy ≡ t.policy

  Read-refl : (t : ToolRuntime Fields GitHubValue W) → Read t t
  Read-refl t = record {
    entries = [];
    grown = sym (append-nil t.audit_log);
    reading = tt;
    same_tools = refl;
    same_policy = refl;
  }

  Read-trans : (t u v : ToolRuntime Fields GitHubValue W) → Read t u → Read u v → Read t v
  Read-trans t u v r s = record {
    entries = r.entries ++ s.entries;
    grown =
        s.grown ∙ ap (λ l. l ++ s.entries) r.grown ∙ append_assoc t.audit_log r.entries s.entries;
    reading = All-append IsReading r.entries s.entries r.reading s.reading;
    same_tools = s.same_tools ∙ r.same_tools;
    same_policy = s.same_policy ∙ r.same_policy;
  }

-- Whether it raises or not, `m` only reads.
pub record ReadsOnly {W A : Type 0} (m : Loads W A) : Type 0 where
  pub at : (t : ToolRuntime Fields GitHubValue W) → Read t (m t).1

module _ {W A B : Type 0} where
  continue-Read :
      (t u : ToolRuntime Fields GitHubValue W) (r : Result Exception A) (f : A → Loads W B)
      → Read t u
      → ((a : A) → ReadsOnly (f a))
      → Read t (continue r f u).1
  continue-Read t u (err e) f before rest = before
  continue-Read t u (ok a) f before rest = Read-trans t u (f a u).1 before ((rest a).at u)

  ReadsOnly-bind :
      (m : Loads W A) (f : A → Loads W B)
      → ReadsOnly m
      → ((a : A) → ReadsOnly (f a))
      → ReadsOnly (m >>= f)
  ReadsOnly-bind m f h rest = record { at = λ t. continue-Read t (m t).1 (m t).0 f (h.at t) rest }

module _ {W A : Type 0} where
  ReadsOnly-lift : (r : Result Exception A) → ReadsOnly {W = W} (lift r)
  ReadsOnly-lift r = record { at = λ t. Read-refl t }

  ReadsOnly-pure : (a : A) → ReadsOnly {W = W} (pure a)
  ReadsOnly-pure a = record { at = λ t. Read-refl t }

module _ {W : Type 0} (quoted : String → String) (int_of_text : String → Option ℤ) where
  Executed-Read :
      (name : String) (input : Fields) (id : String) (t : ToolRuntime Fields GitHubValue W)
      → contains reading_tools name ≡ true
      → Executed (context_call name input id) t
      → Read t (execute (context_call name input id) t).1
  Executed-Read name input id t reads (refused e h) = rw h (Read-refl t)
  Executed-Read name input id t reads (ran d r found allowed outcome h) = rw h (record {
    entries = audit_entry (context_call name input id) r.ok r.error ∷ [];
    grown = refl;
    reading = ((refl, reads), tt);
    same_tools = refl;
    same_policy = refl;
  })

  run_tool-ReadsOnly :
      (name : String) (input : Fields) (id : String)
      → contains reading_tools name ≡ true
      → ReadsOnly (run_tool {W = W} quoted int_of_text name input id)
  run_tool-ReadsOnly name input id reads = record {
    at = λ t. Executed-Read name input id t reads (execute-Executed (context_call name input id) t);
  }

  view-ReadsOnly :
      (input : Fields) (id : String)
      → ReadsOnly (run_tool {W = W} quoted int_of_text "github.pr.view" input id)
  view-ReadsOnly input id = run_tool-ReadsOnly "github.pr.view" input id refl

  files-ReadsOnly :
      (input : Fields) (id : String)
      → ReadsOnly (run_tool {W = W} quoted int_of_text "github.pr.files" input id)
  files-ReadsOnly input id = run_tool-ReadsOnly "github.pr.files" input id refl

  diff-ReadsOnly :
      (input : Fields) (id : String)
      → ReadsOnly (run_tool {W = W} quoted int_of_text "github.pr.diff" input id)
  diff-ReadsOnly input id = run_tool-ReadsOnly "github.pr.diff" input id refl

  load_pr_context-ReadsOnly :
      (event : PrEvent) → ReadsOnly (load_pr_context {W = W} quoted int_of_text event)
  unfolding load_pr_context
  load_pr_context-ReadsOnly event =
      search
        (
          ReadsOnly-bind, ReadsOnly-lift, ReadsOnly-pure, view-ReadsOnly, files-ReadsOnly,
          diff-ReadsOnly,
        )
        depth 30

  load_checks-ReadsOnly :
      (repo sha id : String) → ReadsOnly (load_checks {W = W} quoted int_of_text repo sha id)
  unfolding load_checks
  load_checks-ReadsOnly repo sha id =
      ReadsOnly-bind (run_tool quoted int_of_text "github.checks.runs_for_ref" _ id) _
        (run_tool-ReadsOnly "github.checks.runs_for_ref" _ id refl)
        (λ r. search (ReadsOnly-bind, ReadsOnly-lift, ReadsOnly-pure) depth 20)

  enrich-ReadsOnly :
      (event : CiCompleted) (run_id : ℤ)
      → ReadsOnly (enrich {W = W} quoted int_of_text event run_id)
  unfolding enrich
  enrich-ReadsOnly event run_id =
      ReadsOnly-bind (run_tool quoted int_of_text "github.actions.run.jobs" _ _) _
        (run_tool-ReadsOnly "github.actions.run.jobs" _ _ refl)
        (λ r. search (ReadsOnly-bind, ReadsOnly-lift, ReadsOnly-pure) depth 20)

  enrich_from-ReadsOnly :
      (n run_id : Option ℤ) (event : CiCompleted)
      → ReadsOnly (enrich_from {W = W} quoted int_of_text n run_id event)
  enrich_from-ReadsOnly none run_id event = ReadsOnly-pure event
  enrich_from-ReadsOnly (some n) none event = ReadsOnly-pure event
  enrich_from-ReadsOnly (some n) (some run_id) event =
      elim (Bool-cases (is_nonempty event.failed_jobs)) [
        | inl h ↦ rw h (ReadsOnly-pure event)
        | inr h ↦ rw h (enrich-ReadsOnly event run_id)
      ]

  -- Whether they raise or not, the three providers call reading tools of the context stage only.
  pub providers-ReadsOnly :
      (event : PrEvent) (ci : CiCompleted) (repo sha id : String)
      → ReadsOnly (load_pr_context {W = W} quoted int_of_text event)
        × ReadsOnly (load_checks {W = W} quoted int_of_text repo sha id)
        × ReadsOnly (load_ci_context {W = W} quoted int_of_text ci)
  unfolding load_ci_context
  providers-ReadsOnly event ci repo sha id = (
    load_pr_context-ReadsOnly event,
    load_checks-ReadsOnly repo sha id,
    enrich_from-ReadsOnly ci.pr_number ci.run_id ci,
  )
