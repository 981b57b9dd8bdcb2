-- ===== src/Lib.antt =====
-- The ActiveGraph packs (packs/), as far as they are modelled: the tool gateway, the
-- schedule pack, the evaluation and outcome pack, the attention pack and the reply
-- gate of the communication pack.
--
-- Base holds the shared names, Boolean tests, list functions (Lists, with their lemmas) and the stable
-- sort (Sorting). Graph is the runtime's object store, which is not in the repository: a record of the
-- calls that packs make, with the laws that they rely on (ids are never reused; a patch changes one
-- object and raises only where there is none; a relation changes no object). Graph.Listed is a list that
-- satisfies them.
--
-- Gateway models packs/tool_gateway. Types: the objects of object_types.py and the settings of
-- settings.py. Policy: decide_policy, decide_policy_detail (gateway.py), _stricter_ceiling and
-- evaluate_call_policy (behaviors.py), over the runtime's evaluator, whose documented rule is a law.
-- Approval: _verify_approver, approve_capability_fn and deny_capability_fn (tools.py), and its child
-- Pending, pending_approvals_fn. Envelope: wrap_untrusted (untrusted.py). Execution:
-- execute_approved_call (gateway.py), execute_capability_fn (tools.py), sanitize_output,
-- scan_for_injection and resolve_and_audit_fn of packs/secrets/tools.py. Behaviors: the reactive
-- handlers of behaviors.py. LlmTools: as_llm_tool, its proxy and llm_tools_for (llm_tools.py).
-- Registration: registration_check.py. Scopes:
-- standing_scopes.py and tool_policy_reliability_guard, over the runtime's event log; a policy's
-- demotion reason and a refusal are values where the code formats texts. Lifecycle: the steps by which a
-- graph of calls changes, and the invariants.
--
-- Schedule models packs/schedule: the due moments, creation, emission of ticks (tools.py) and
-- schedule_bookkeeper (behaviors.py). A moment is a number of microseconds, which its text stands for.
-- Due, Ticks, Once, Bookkeeper and Creation hold the proofs about it; Steps, Unique and Over, the steps
-- by which schedules change and their invariants.
--
-- Outcome models packs/eval_outcome: the terminal and the maintenance outcome (Operations, from
-- tools.py), record_explicit_verdict_fn (Verdicts), supersede_evaluation_fn (Supersession),
-- evaluation_outcome_capture (Capture, from behaviors.py) and artifact_reliability_projector (Projector,
-- from behaviors.py). Records, Kept, Corrections and Steps hold the invariant of the records, Standing
-- and Explicit the calls that follow a record, Reliability, Projected, Tallied and Multipliers the
-- projection.
--
-- Attention models packs/attention: observations and signals (Observations, from tools.py and
-- behaviors.py), batches (Interaction, from tools.py), the two projectors (Projectors) and the reads and
-- the ranking (Ranking). Scores, Influence, Explained, Recorded, Vectors and Steps hold the proofs about
-- the vectors, Batches and Ranked those about batches and rankings.
--
-- Communication models decide_reply of packs/communication/gating.py over resolve_known_principal of
-- packs/identity_auth/behaviors.py; Gate holds the proofs about it.
--
-- Every operation is a function on a state of the graph. A `try` whose exception is dropped leaves the
-- state as it was. An exception that is not caught is `none`, or, in Outcome, Attention and
-- Gateway.Scopes, a value of the error's kind beside the graph that the operation left. The runtime's
-- validation of a new object is written out where a call's arguments can fail it: a schedule's period,
-- an observation, a batch. Registered handlers, the environment's secrets, the clock's texts and the
-- regular expressions (as what they substitute or find) are parameters. No function of the model takes
-- fuel: each recursion is on a list.
--
-- Not modelled: formatted message texts (a reason is a value where the code formats one), the router of
-- the schedule pack's ticks, the end of the calendar in the year 9999, and the other packs.
pub mod Attention
pub mod Base
pub mod Communication
pub mod Gateway
pub mod Graph
pub mod Outcome
pub mod Schedule
