-- ===== src/Lib.antt =====
-- PiTools keeps pull requests moving: GitHub events and a timer put jobs into a queue in Postgres,
-- workers lease them, repair feedback, failed checks and stacks through an isolated Pi process, ask an
-- operator for approval where a plan writes, and report whether a pull request is ready to be merged.
-- This library models the parts that decide, and those that run git and Pi up to what these answer; the
-- parts that talk to GitHub and to HTTP clients are not modelled.
--
-- Policy (src/policy.rs) is the repository's policy and its validation. Readiness (src/readiness.rs and
-- the records of src/models.rs) evaluates a pull request under a policy. Queue (src/queue.rs) is the
-- table of jobs: Queue.Table holds a row (migrations/0001_initial.sql), Queue.Enqueue, Queue.Lease and
-- Queue.Control hold one function per method of `JobQueue`, and Queue.Calls puts them together as the
-- steps of a history. Controls (src/pr_controls.rs) has the approval binding (Controls.Approval), the
-- checks on texts and items (Controls.Validate), the state of a run and its controls (Controls.Run) and
-- the comments that show them (Controls.Render). Worker.Pause (src/worker.rs) is the end of a job that
-- asks for an approval: it binds the details by Controls.Approval and stores them through the queue.
-- Stack (src/stack.rs) plans and authorizes a branch update; Stack.Planner orders a whole stack, with
-- the maps of the planner in Maps. Events (src/github/events.rs) reads a webhook delivery, Repositories
-- (src/repository.rs) has the tables that a control goes through, and Workflow (src/workflow.rs) takes a
-- button of a Check Run through both to the queue. Reconcile (src/reconcile.rs) makes the input of
-- Readiness from what was read at GitHub: Reconcile.Reviews, Reconcile.Checks and Reconcile.ReadSet. Ci
-- (src/ci.rs) holds the plan of a CI repair and its admission, Ci.Patch the check of its patches,
-- Ci.Sandbox the command line of its validation, Ci.Bounded what `run_bounded_argv` refuses and what it
-- makes of a process. Feedback (src/feedback.rs) applies the hunks of a patch (Feedback.Parse), or an
-- inline suggestion (Feedback.Suggestion, Feedback.Fence), to a file; Feedback.Repair is
-- `repair_feedback` over the file operations of Feedback.Files, and Feedback.Reply what is answered on a
-- thread. Workspace (src/workspace.rs) runs git: Workspace.Calls has its helpers, Workspace.Snapshot the
-- copy that is validated, Workspace.Checks the tests on names and staged changes, Workspace.Repairs
-- `apply_feedback` and `apply_ci_repair`, Workspace.Rebase `clone_branch` and `rebase_onto`. Pi
-- (src/pi.rs) checks the request to a Pi worker and its result, Pi.Secrets looks for secrets in it, and
-- Pi.Execute exchanges them. Text.Search has the searches of `str` that these use.
--
-- A text is the list of its code points (Text), a path is a text and its components are those of
-- `std::path::Path` on Unix (Paths), and JSON is a data type whose objects keep their keys in order
-- (Json). A statement of the database is one step on the table, since each statement or transaction is
-- atomic; the instant, new ids and tokens, and the rows that another transaction holds are arguments.
-- Instants are microseconds. A method that fails leaves the table as it was. The digest of an approval
-- and the database's printing of JSON values are parameters, as they are the work of other packages.
-- Identifiers and counts are natural numbers: the program adds to none of them but `attempt`, which
-- never passes `max_attempts`. A run of the workspace is a function on a world, the state of an
-- environment and the log of the calls made so far with their answers; the environment answers each call
-- of git, of the sandbox, of the files and of the lease, and may do so in any way; a command that
-- `run_bounded_argv` refuses does not reach it. Loops are structural recursion, but for the two walks of
-- the stack planner, to the parents and to the children: they run on fuel, one step more than the
-- planner has parents, which suffices because a walk that has met no number twice is no longer than the
-- list of numbers; and but for the digits of a number, which are not more than the number.
--
-- Not modelled: parsing (YAML, URLs), the partition of pull requests into stacks, the redaction of CI
-- logs, the signature of webhooks, the GitHub client, HTTP routes and the deployment, and of the worker all
-- but its pause; git, bubblewrap, the Pi process, the broker and the file system are parameters, and so are
-- their timeouts.
mod Common
pub mod Text
pub mod Sort
pub mod Maps
pub mod Paths
pub mod Pi
pub mod Policy
pub mod Readiness
pub mod Json
pub mod Controls
pub mod Queue
pub mod Stack
pub mod Ci
pub mod Feedback
pub mod Worker
pub mod Events
pub mod Reconcile
pub mod Repositories
pub mod Workflow
pub mod Workspace
