-- ===== src/Lib.antt =====
-- The research controller of the repository (packages/research-core, with the types of
-- packages/contracts) and the state of its mobile application (apps/mobile/src), as pure functions,
-- with theorems about them.
--
-- A run holds a ControllerState: its brief, the sources and passages found so far, the searches
-- made, and what is derived from them. A worker asks the controller for the next action, lets the
-- action pass the admission gate, executes it, and writes the result back to the state:
--
--   * Types (and Types/Values) has the records of packages/research-core/src/types.ts and the unions
--     of packages/contracts/src/index.ts. Optional fields are options; amounts and revisions are
--     natural numbers; the arguments of an action are JSON values under string keys.
--   * Questions, Contradictions and Gaps follow questions.ts, contradictions.ts and gaps.ts: what a
--     state derives from its evidence. Loop follows loop.ts: how hits and documents enter the state,
--     after which everything derived is refreshed.
--   * Policy, Independence, Injection and Fences follow policy.ts, independence.ts (with
--     provenance.ts), injection.ts and fences.ts: the tests that the other parts share.
--   * Disconfirm, Stop and Adaptive follow disconfirm.ts, stop.ts and adaptive.ts: the challenge of
--     the conclusion, the decision to stop, and the choice of the next action, where each early
--     return of selectAdaptiveAction is one step.
--   * Admission follows admission.ts: each early return of admitProposedAction is one guard,
--     with the patch of the decision that it returns.
--   * Controller follows controller.ts: the baseline choice, and a choice passed through the gate.
--   * Impact follows impact.ts: what a correction of the brief invalidates.
--   * Brief follows brief.ts: the constraints that a question states (Brief, Features, Question),
--     how a correction is read (Correction) and applied (Changes). neededClarifications stands in
--     Adaptive/Proposals.
--   * QuestionPatch follows question-patch.ts. A question is the list of its UTF-16 code units there.
--   * Calculation follows evidence-calculation.ts. Calculation/Integers has the operations on
--     `bigint`, Fractions has reduce, Quantities has decimal and quantityBound, Gathering has the loop
--     of calculateEvidence over its inputs, Formulas and Evaluation have what comes after the loop,
--     and Shapes has the schemas of packages/contracts/src/calculation-action.ts and
--     evidence-calculation.ts that these read and write.
--   * Requests follows apps/mobile/src/request-scope.ts: the lifetimes of the mobile application's
--     requests. A controller is a number, and the map of pending controllers is a function of it.
--   * Mobile follows apps/mobile/src/state.ts: Mobile has the state, Reducer the functions on runs,
--     drafts and attachments with the redaction of remote-invalidation.ts, Tabs those on tabs, blocks
--     and the reading anchor, Events has mergeEvents, and Deletion follows source-deletion.ts. A map of events is a list in the order of
--     its insertions.
--   * Base, Text and Regex have the array methods, the string methods and the regular expressions
--     that the source calls. A method's name is the source's, in snake case.
--   * Samples has a run to try the definitions on.
--
-- Functions that change the state in place return the new state. Regular expressions are run by a
-- backtracking matcher in the order of ECMAScript; a loop of a pattern takes at most as many steps as
-- characters are left, which is enough since a step that takes no character ends it. Texts are ASCII,
-- so that lowering a text works character by character. The reserve `Math.ceil(total * 0.2)` is
-- `(total + 4) / 5`, which it equals for amounts below 2 ^ 50. A number is printed with fuel one
-- above the number, which exceeds its digits. Euclid's loop has fuel one above its second number,
-- which every round lowers.
--
-- The schema library zod is not part of the repository. What the schemas of a proposal
-- (Admission/Proposal) and of a calculation (Calculation/Shapes) check is written out, with the test
-- of a uuid as a parameter. The gate takes the `safeParse` of the schemas of an action's arguments as
-- a parameter (Schemas), and the theorems on what is sent assume what the documentation of zod says
-- of it: parsed arguments hold the same values (IsStrict).
--
-- `Number(text)` of a budget is read for decimal literals without a sign; other texts count as NaN.
--
-- Not modelled: fields of the state that no modelled function reads, reports and citations, the
-- formulas on floating-point numbers (calculate.ts),
-- the backend's storage and I/O, and the rest of the mobile application.
pub mod Base
pub mod Text
pub mod Regex
pub mod Types
pub mod Fences
pub mod Injection
pub mod Policy
pub mod Independence
pub mod Questions
pub mod Contradictions
pub mod Gaps
pub mod Loop
pub mod Disconfirm
pub mod Stop
pub mod Impact
pub mod Adaptive
pub mod Admission
pub mod Controller
pub mod Calculation
pub mod Brief
pub mod Mobile
pub mod QuestionPatch
pub mod Requests
pub mod Samples
