-- ===== src/GitHub/Connected.antt =====
-- The client of src/adapters/connectors/github/client.py as the one that the tools of
-- src/runtime/tools/github.py are built over.
use qaestro.Prelude.{ℕ, Result, ok, err, Exception}
use qaestro.Prelude.Exec.{Exec}
use qaestro.GitHub.{GitHubClient}
use qaestro.GitHub.Http.{Library, GitHubFault, exception_of}
use qaestro.GitHub.Auth.{AppAuth, AuthParts, Connection, Connected}
use qaestro.GitHub.Client

-- `_DEFAULT_PER_PAGE`
abbrev pub default_per_page : ℕ
default_per_page = 100

abbrev pub as_raised : {A : Type 0} → Result GitHubFault A → Result Exception A
as_raised (ok a) = ok a
as_raised (err e) = err (exception_of e)

abbrev pub raising : {W A : Type 0} → Connected W A → Exec Exception (Connection W) A
raising m c = let (r, c') = m c in (as_raised r, c')

module _ {B W D : Type 0} (lib : Library B) (no_body : B) (cfg : Client.ClientConfig)
    (auth : AppAuth) (parts : AuthParts B W D) where
  unfoldable pub github_client : GitHubClient (Connection W)
  github_client = record {
    get_pull_request = λ owner repo number.
        raising (Client.get_pull_request lib no_body cfg auth parts owner repo number);
    list_pull_request_files = λ owner repo number. raising (
        Client.list_pull_request_files lib no_body cfg auth parts owner repo number
          default_per_page);
    get_pull_request_diff = λ owner repo number.
        raising (Client.get_pull_request_diff lib no_body cfg auth parts owner repo number);
    list_workflow_run_jobs = λ owner repo run_id. raising (
        Client.list_workflow_run_jobs lib no_body cfg auth parts owner repo run_id
          default_per_page);
    list_check_runs_for_ref = λ owner repo ref.
        raising (
          Client.list_check_runs_for_ref lib no_body cfg auth parts owner repo ref
            default_per_page);
    create_issue_comment = λ owner repo number body.
        raising (Client.create_issue_comment lib no_body cfg auth parts owner repo number body);
    list_issue_comments = λ owner repo number.
        raising (
          Client.list_issue_comments lib no_body cfg auth parts owner repo number default_per_page);
    update_issue_comment = λ owner repo comment_id body.
        raising (Client.update_issue_comment lib no_body cfg auth parts owner repo comment_id body);
    list_pull_request_reviews = λ owner repo number. raising (
        Client.list_pull_request_reviews lib no_body cfg auth parts owner repo number
          default_per_page);
    create_pull_request_review = λ owner repo number body commit_id event comments. raising (
        Client.create_pull_request_review lib no_body cfg auth parts owner repo number body
          commit_id event comments);
  }
