-- ===== src/Lib.antt =====
-- Reflo turns a learner's documents into lessons, quizzes and reviews. This library models the core
-- of its packages, each part by a module with the source's names in this language's spelling.
--
-- Knowledge (packages/knowledge-model): per-concept evidence of a learner's attempts is validated,
-- brought into a canonical order without duplicates, and replayed into a beta posterior, whose mean
-- is printed as the mastery. Contracts.antt has the data of contracts.ts; Evidence.antt and its
-- children are `canonicalizeEvidence` and what it calls; Replay.antt and its children are
-- `replayKnowledgeState`. `Date.parse` and `toISOString` are parameters. BigInts are natural numbers.
--
-- Flags (packages/feature-flags): Registry.antt is the registry of registry.ts. Evaluator.antt is
-- evaluator.ts: a call is split at its first `await` into `begin` and `complete`, so that calls
-- interleave in Evaluator/Freshness.antt's step relation as they may in the program. The sources of
-- requested states, verdicts and admissions are values that a call meets. Other numbers than whole
-- ones from 0 are the constructor `other`: a verdict that is valid until a fraction of a millisecond,
-- which the source accepts, is outside the model, which refuses it. The set of keys of a ceiling is a
-- list in the order of insertion, without repetitions.
--
-- Router (packages/model-router): Policy.antt has the routes of policy.ts, Trace.antt the traces of
-- trace.ts and the check of their safety, Attempts.antt the loop over the attempts of one adapter,
-- Execute.antt the rest of `execute` in router.ts. What a call meets (the clock, how an adapter's
-- call ends) is given as records. Each loop is bounded by the number of attempts, so no fuel is
-- used. The validators of validation.ts and the prompts of prompts.ts are parameters. Aborting a
-- call that has timed out is not modelled: its answer is not read.
--
-- Retrieval (packages/retrieval): Contracts.antt has the spans, segments and manifest of
-- contracts.ts; Partition.antt is `partitionCurriculumSource` of curriculum.ts, which cuts the spans
-- of a source into segments that fit one call of the router, and Partition/Input.antt
-- `curriculumSegmentInput`, which reads a segment back. Counts of tokens, UUIDs and digests are
-- parameters.
--
-- Activation (packages/activation): Quiz.antt has `selectUnseenQuizItems` and
-- `fallbackResponseOptions` of service.ts. Sets of strings are lists in the order of insertion.
--
-- Assessment (packages/assessment): Contracts.antt and Actions.antt have the types of contracts.ts and
-- ports.ts, Rules.antt the checks, Judgments.antt the evidence and the replacement bundle, Grading.antt
-- `gradeShortAnswer`, Replacement.antt `gradeReplacement` and Selection.antt `selectAdaptiveQuestions`
-- of service.ts. What the service meets (the repository, the router, the clock) is the record `Host`;
-- an action keeps the list of the calls that settle a claim. The loop that waits for a claim has one
-- unit of fuel more than the deadline has milliseconds. Deadlines and confidences from 0 on are
-- natural numbers and ratios.
--
-- Delivery (packages/delivery): Contracts.antt has the types of contracts.ts, Rules.antt the checks and
-- the configuration, Tokens.antt the tokens of e-mail links, Dispatch.antt `dispatch` and Answers.antt
-- `previewEmail`, `submitEmail` and the preferences of service.ts. What the service meets is the records
-- `Host` and `AnswerHost`; dates, the HMAC, the coding of claims and JSON are the record `Runtime`.
-- Callback.antt is telegram-callback.ts, with hexadecimal digits and base64url written out, and
-- Webhook.antt the part of `handleTelegramWebhook` before the answer is finalized. The rest of it and
-- the checks of the constructor are not modelled.
--
-- Api (apps/api): Outbox.antt is `runOnce` of outbox-relay.ts, a step relation in which the handlers
-- of a batch wake in any order.
--
-- Prelude has the tests, lists, results, decimals, texts, the sort, the loop that selects items by key,
-- and actions that keep the list of their calls. A text is a list of UTF-16 code units where the source
-- looks into it.
--
-- Not modelled: the services of the other packages, the repositories over the database, the
-- rest of the applications, and everything that is input and output only.
pub mod Prelude
pub mod Knowledge
pub mod Flags
pub mod Router
pub mod Retrieval
pub mod Activation
pub mod Api
pub mod Assessment
pub mod Delivery
