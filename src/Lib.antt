-- ===== src/Lib.antt =====
-- The terminal client of the DeepSeek harness (packages/tui) keeps, beside what it draws, state
-- that must stay consistent while a session runs: the rewind journal of each session, the machine
-- that replaces the bound session, the projection of events to execution nodes, the draft in the
-- composer and the queue of questions to the user. This library models those parts and proves
-- what the rest of the client relies on.
--
-- Parts and files
--   Rewind (packages/tui/src/modules/rewind). `RewindJournal` of domain/journal.ts keeps a timeline
--   of points for each session; its prompts are recorded when they are admitted, the edits of a
--   turn are attributed to its point, and a rewind selects the edits to undo and moves the cursor
--   or starts a branch. contracts.ts is Rewind/Contracts; the points and their validation are
--   Rewind/Points; timelines, their bounds and `newPoint` are Rewind/Timeline; construction,
--   hydration, `recordPoint` and `claim` are Rewind/Journal; `recordWorkspaceMutation`,
--   `selectEffects` and `commit` are Rewind/Effects. Rewind/Calls puts the methods that write
--   together as one step. application/planner.ts, which inverts edits against the present content
--   of a file, is Rewind/Planner; application/transaction.ts, which runs a plan through a file
--   system port and undoes a partial run, is Rewind/Transaction; `applyStates` of
--   adapters/local-workspace.ts, which writes the files and rolls back, is Rewind/Workspace.
--   Runtime (packages/tui/src/runtime). lifecycle/session-machine.ts is Runtime/SessionMachine, the
--   `SubmissionTracker` of session/submission.ts is Runtime/Submission and the `ActionDispatcher`
--   of dispatch/dispatcher.ts is Runtime/Dispatcher.
--   Execution (packages/tui/src/runtime/execution/projection). types.ts is Execution/Types and the
--   `ExecutionReducer` of reducer.ts is Execution/Reducer; the reducer is told of declarations,
--   starts and ends of nodes by the projector of events, and the views read it.
--   Composer (packages/tui/src/modules/composer). `ComposerInputController` of input.ts is
--   Composer/Input: its second Escape opens the rewind selector over the journal above.
--   Transcript (packages/tui/src/modules/transcript). The rows of a file edit, `buildDiffDisplay`
--   of diff.ts, are Transcript/Diff.
--   Rewind/Manifest is the parser of stored timelines in packages/tui/src/modules/rewind/adapters/
--   file-repository.ts, from the value of `JSON.parse` to the check of the whole manifest, and
--   Rewind/Repository the `FileRewindRepository` of that file, which keeps the timelines of the journal
--   across processes. Its state, the directories with their files and the limits, is Storage; `store`
--   and `writeObject` are Store, `materialize` is Materialize, the printed manifest is Encode,
--   `compactLocked` is Compaction and the methods are Operations. What it takes from Node is the
--   record Platform. A method is one step, which the lock of the code is there for, and a write is one
--   step by its rename. The lock file, `withLock` and `removeStaleLock`, is Rewind/Repository/Lock by
--   itself, as the steps of several processes; its timeout is left out. A file has the text that was
--   written, and a quarantined file the name that it had.
--   Runtime/LifecycleScope is `LifecycleScope` of packages/tui/src/runtime/lifecycle/scope.ts. The loop
--   that awaits the cleanups is a series of operations, between which others may come, so that a
--   registration can be released while the loop waits for another one.
--   Composer/Images is image-reference.ts of packages/tui/src/modules/composer: the markers that stand
--   for the images of a prompt. Its two `while` loops run on fuel, one more than the markers in use and
--   one more than the characters of the text; the search meets each marker in use once, and each
--   removal makes the text shorter, so neither runs out. Composer/Attachments is
--   `AttachmentDraftStore` of attachments/drafts.ts, which reserves the markers of that file; its
--   methods are the operations of Attachments/Counter, performed in any order.
--   Interaction (packages/tui/src/modules/interaction). `InteractionProcess` of process.ts, which
--   shows the approvals and questions of a session one at a time, is Interaction/Process.
--   Application (packages/tui/src/application). cli.ts is Application/Cli: Command has the invocations,
--   the options and the errors, Distance the suggestion of a near word, Options the reading of one
--   option and the loop over the arguments, Commands and Interactive the parsers of the commands,
--   Parse `parseCliArgs` and Forward `tuiAppArgs`, which the launcher calls to start the application
--   with an invocation. The record of config.ts is Command.Config. The collation of the platform,
--   which breaks ties between suggestions, is a parameter.
--   Presentation/SurfaceHost is `SurfaceHost` of packages/tui/src/presentation/shell/surfaces/
--   surface-host.ts: the stack of surfaces over the composer, which captures and restores the focus.
--   Prelude has the shared tests on numbers and texts, lists, ordered maps and the result type.
--
-- How the code is read
--   A class is a record of its fields and a method a function from the record to the new record
--   and the returned value; a thrown error is the `err` of a result. Where a method throws after no
--   write, the error carries no state. A number is a natural number: negative, fractional and
--   missing (`NaN`) values are not represented, and the bound 2^53 - 1 of `Number.isSafeInteger`
--   is kept. The clock and `randomUUID` are arguments; a method that reads the clock twice gets
--   one reading. A `Map` is a list of entries in insertion order, a `Set` a list without
--   repetitions; copies and `Object.freeze` add nothing to immutable values.
--   Code outside the repository is a parameter: the line and patch functions of the `diff` package,
--   what the operating system refuses, the printing of numbers. Its laws are hypotheses of the theorems that
--   need them. Fuel is used by the two loops of Composer/Images and by the digits of a number in
--   Prelude/Decimal, of which there are no more than the number counts; every other loop runs over a
--   list. The numbers of image markers are doubles, rounded as in Prelude/Double; from 2 ^ 53 on
--   the search for a free marker may not end, and the theorems on it exclude that by a bound.
--
-- Not modelled: rendering and key tables (the rest of presentation, the views of the modules), the
-- asynchronous glue of the rest of packages/tui/src/runtime/session, the other file and network
-- adapters, the packages vision, web, memory and llm-bailian, the launcher and the browser extension.
pub mod Prelude
pub mod Runtime
pub mod Rewind
pub mod Composer
pub mod Execution
pub mod Transcript
pub mod Interaction
pub mod Application
pub mod Presentation
