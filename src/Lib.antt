-- ===== src/Lib.antt =====
-- A verification library for btcr2-aggregation: the service in which an operator advertises
-- cohorts, and participants join one to anchor a shared Bitcoin beacon transaction.
--
-- The parts, and the files that model them:
--   Prelude with Tests, Lists, Checked and Text: the shared names, tests on numbers, lists, results
--     that may be a problem, and the text operations of JavaScript.
--   OrderedMap: the insertion-ordered Map of JavaScript as an association list, with the
--     oldest-first eviction that packages/service/src repeats in cohort-intent.ts,
--     anchor-state.ts, operator-cohorts.ts and acceptance-ledger.ts. Its children Laws, Bounds,
--     Eviction and Survival are about those operations alone.
--   Phases (packages/shared/src/phases.ts): the open, in-flight, finalizable and display sets.
--   Intents (packages/service/src/cohort-intent.ts): why a cohort is about to be stopped.
--   Cohorts (packages/service/src/operator-cohorts.ts): the operator's cohorts. Config is
--     buildCohortConfig of packages/shared/src/index.ts, Draft is validateDraft, State is the
--     closure state of createOperatorCohorts with its internal helpers, Drafts is createDraft,
--     updateDraft and discardDraft, Lifecycle is advertiseDraft, readvertiseExpired, cancelCohort,
--     finalizeCohort, forgetTerminal, settleCompletion and the window timer, Reads is directory,
--     status, listCohorts and cohortFate. Step puts them together as a state machine. Invariant,
--     Honesty, Fate, Drain, Slot and Finalize are about those definitions.
--   Ledger (packages/service/src/acceptance-ledger.ts): the retained acceptances.
--   Anchors (packages/service/src/anchor-state.ts): the retained on-chain state.
--   Funding (packages/service/src/funding-watch.ts): classification, deadline, display watch.
--   Settings (packages/service/src/runtime-settings.ts): the settings, with Seed for
--     createRuntimeSettings; Validity, Saving, History and Drafting are about them.
--   Wiring (packages/service/src/index.ts): the tables that createService keeps per cohort, the
--     kill switch, and the listeners; KillSwitch is about them.
--   Broadcast (packages/service/src/broadcast.ts): sendWithRetry, the confirmation loop and the
--     signing-complete handler; Sending and Reporting are about them.
--   Store (packages/service/src/store.ts): the stores in memory and on disk, the sidecar and the
--     route. Refinement states what a store promises.
--   Persist (packages/service/src/persist.ts): the writes of a completed cohort; Retrieval is about
--     finding them again.
--   Monitor (packages/service/src/monitor.ts): the tables and rings, with Fold for the listeners, Notes for
--     the notes, Reads and Detail for what is served; Bounds, Latches and Counting are about them.
--   CohortForm (packages/web/src/lib/cohort-form.ts): the console's form, with Agreement on the
--     service's own validator.
--   Auth (packages/service/src/operator-auth.ts): sessions, throttle, login, logout, guards; Overlap
--     has loginHandler in its two parts, before and after it awaits the body of the request.
--   Console (packages/web/src/lib/lifecycle.ts): which controls the operator console offers.
--   Tests: a small runner and concrete states, on which the statements are applied.
--
-- How they interact: a cancel or a lapsed window declares an intent, then stops the cohort; the
-- rejection of its completion reads the intent and files a terminal record with the fate. The
-- event loop runs one handler at a time between two awaits, so an execution is a list of events of
-- Cohorts/Step, in any order; what the runner does by itself is an event with any new session.
-- The login awaits the body of its request between the check of the throttle and the count of a
-- failure: the bound on guesses is over the interleavings of Auth/Overlap, and an uninterrupted
-- request is shown there to be the whole handler, login, which the statements on sessions use. A
-- finalize awaits only the runner, which is one call here.
--
-- The aggregation runner is code of a library: its state is a type S and its calls the fields
-- of the record Runner (Cohorts/State), on which no law is assumed beyond the named hypotheses of
-- single statements. So are the curve test, the random draws, the clock, the digest of the
-- login, the URL parser, the explorer link and the choice of the output to spend.
-- Milliseconds and seats are natural numbers; an untrusted JSON number is a Wire
-- (Cohorts/Draft), where a negative or fractional number has its own case. The calls that the
-- cohorts make into their collaborators are recorded in order in the state. Recursion is on lists
-- and on the number of attempts, but for the confirmation loop of Broadcast, which runs on fuel: it
-- needs one unit for each poll interval up to the deadline and one more, and is shown to end then.
--
-- Not modelled: the funding wait of packages/service/src/tx.ts, resolution, which
-- are further parts of the service; the HTTP routes, the construction of the
-- transport and the runner, and the web components, which are input and output; the participant's
-- client; logs, the wording of activity lines, cookies' attributes, and a negative session lifetime.

pub mod Prelude
pub mod OrderedMap
pub mod Phases
pub mod Intents
pub mod Cohorts
pub mod Ledger
pub mod Auth
pub mod Console
pub mod Anchors
pub mod Funding
pub mod Settings
pub mod Wiring
pub mod Broadcast
pub mod Store
pub mod Persist
pub mod Monitor
pub mod CohortForm
mod Tests
