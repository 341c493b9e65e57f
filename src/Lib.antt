-- ===== src/Lib.antt =====
-- Codeberg's agent: its durable job queue, the runs of its web server and their schedules, the queue
-- of turns of its web page, the fitting of chats into the context window, the budget of one request to
-- a model, the branching of chats, the guard of its web access, the gate of writing requests, the
-- arguments of the search command, the cache breakpoints of a conversation, the consolidation of
-- knowledge notes and the segments in which it reads text files.
--
-- The agent (agent/src) runs chats against a language model with tools. The learning service puts its
-- background work into the job queue; the chat loop hands its messages to the history fitting before
-- each request, and the cache marks what it sends; the session code copies the start of a chat into a
-- new one; the web tool asks the guard before it fetches a URL that the model supplied; and the web
-- server asks the gate before it lets a request write. The web page (agent/web-ui) queues the turns
-- of a chat and asks the server for a run of each; the server admits it, journals its events, and
-- also admits the runs that schedules ask for. So Schedules/Dispatch calls Runs/Manager; the
-- request budget uses the token estimate and the tags of History, and shares Prefixes with its
-- checkpoints; the other parts do not call each other.
--
-- JobQueue: agent/src/core/learning/queue. A job is one JSON file, and the directory that holds it
-- is the job's status, so each operation writes a new file and removes an old one.
--   JobQueue/Job         KnowledgeJob, JobStatus, FailureCategory, JobType of learning/types.ts, and
--                        policy.ts
--   JobQueue/Disk        the four directories as association lists from job ids to files, and
--                        storage.ts (list, find, transition) with write, unlink and rename
--   JobQueue/Execution   execution.ts: claim, release, complete, fail
--   JobQueue/Enqueue     enqueue.ts
--   JobQueue/Recovery    recovery.ts: recoverExpired, recoverRetryableFailures, reconcileStates
--   JobQueue/Scheduling  scheduling.ts: nextDueAt, counts
--   JobQueue/Invariant   what well-formed directories are
--   JobQueue/Listing     what a listing of well-formed directories holds
--   JobQueue/Changes     what the operations make of a job, field by field
-- The clock is read once for each operation, and its value is the argument `now`, in milliseconds.
-- A job id is a number, by which directories are ordered, as the file system's names are by the sort
-- of `list`; the hash that makes an id of a type and an interaction is an argument. A file may be
-- malformed, and is then passed over as `list` and `find` do. An operation is a function from one
-- state of the directories to the next; where another worker can act in between, as between the
-- listing and the renames of `claim`, the listing is an argument of its own. A crash between the
-- write and the unlink of a transition is the state after the write. The temporary files of atomic
-- writes are a state of their own (JobQueue/Recovery/Writes), which reconcileStates cleans first and
-- nothing else reads.
--
-- History: agent/src/core/history.ts, with history-recent.ts, history-tokens.ts and
-- history-checkpoints.ts.
--   History/Messages  messages and history-tokens.ts
--   History/Recent    recentHistoryStart
--   History/Files     the <history_file> tags of a text, and the removal of duplicates
--   History/Fit       boundTranscript, fitHistory and what it calls
--   History/Checkpoints  history-checkpoints.ts: run, load
-- A message is its role with the two texts that message.ts makes of it. The callbacks `archive` and
-- `summarize` are arguments, whatever they return, and the abort signal is one Boolean for each of
-- the two moments at which fitHistory reads it. What is written to the console is left out.
--
-- Prefixes: what history-checkpoints.ts and request-budget/checkpoints.ts share, the keys of the prefixes
-- of a chat and the search of a directory for the longest prefix with a checkpoint.
--
-- RequestBudget: agent/src/core/request-budget, which compacts a request inside the agent's loop and
-- uses the token estimate and the <history_file> tags of History.
--   RequestBudget/Estimate     estimate.ts: estimateRequest and what it calls
--   RequestBudget/Split        compact.ts: splitRequest, lastRole
--   RequestBudget/Compact      compact.ts: compactRequest, checkpointText
--   RequestBudget/Checkpoints  checkpoints.ts: restore, save, load
--   RequestBudget/Retry        retry.ts: withBudgetRetry
-- What is estimated by its canonical JSON is kept as that text. Hashes, fingerprints, the history files,
-- the summaries and the answers of the provider are arguments; a checkpoint that cannot be read, or is
-- of another version, is a missing one. The loop of restore makes 32 passes in the source too, and that
-- of withBudgetRetry recurses on the list of its portions.
--
-- Dreaming: agent/src/core/learning/dreaming, which merges and links the notes of the learning service.
--   Dreaming/Artifact    notes, changes and reports: learning/types.ts and types.ts
--   Dreaming/Sort        the stable sort by a comparison
--   Dreaming/Plan        planner.ts: validatePlan, validateLinks
--   Dreaming/Input       planner.ts: dreamingInput
--   Dreaming/Projection  projection.ts: projectDreamingKnowledge
-- localeCompare, fingerprints of notes, redactSecrets and the sizes of notes are arguments. The loop of
-- the projection is `passes`, with fuel for one pass more than there are applied reports; each pass but
-- the last takes a report away.
--
-- Segments: agent/src/core/context/text-stream.ts, with safeCut and two limits of limits.ts.
--   Segments         textSegments, splitSegments
--   Segments/Pieces  single segments, and positions in a text
--   Segments/Laws    the segments of a chunk
--   Segments/Stream  those of a file
-- The file system and the decoder of UTF-8 are arguments. The loop of splitSegments has one round for
-- each pending character, which is enough since each round takes at least one.
--
-- Branch: agent/src/core/branch.ts.
--   Branch/Transcript  branchEndIndex and branchTranscript, for messages of any type with a role
--   Branch/Title       branchTitle
-- A requested index is what Math.trunc makes of a number, so NaN and the infinities are values of
-- their own.
--
-- Web: agent/src/core/web/ssrf.ts.
--   Web/Ssrf         isPrivateHost and assertFetchableUrl
--   Web/Ssrf/Blocks  the reserved blocks of 32-bit addresses
-- Node's isIP and the parser of URLs are arguments. A URL's host is ASCII, so lower case is that of
-- ASCII, and `Number` is read on texts of digits, since isIP or a pattern has let no other through.
--
-- TurnQueue: agent/web-ui/src/sessions/turn-queue.ts.
--   TurnQueue/State    the fields of TurnQueue, with the calls that have not returned
--   TurnQueue/Actions  the methods, each up to its first wait
--   TurnQueue/Events   what follows the waits, and `step` over all events
-- Each event is one turn of the event loop. The chat and the server act through events: a run returns
-- or throws, a stop is answered, the status of the chat changes. All sequences of events are considered.
--
-- Runs: agent/src/web/runs.
--   Runs/Journal         journal.ts: create, append, read, discard
--   Runs/Run             types.ts, with the directories and sessions as lists
--   Runs/History         validation.ts: validateHistory
--   Runs/Manager         manager.ts: find, start; recoverInterruptedRun; the early stops of RunStops
--   Runs/Manager/Events  the end of a run (executeRun, saveRunSession), recover, and `step` over all
--                        events, of which a restart of the server is one
-- The hash that makes a run's id of a chat and a request is an argument, and so is JSON. A write may
-- throw, and what it leaves is an argument of the operation. A run's stream is the answer it amounts to.
--
-- Schedules: agent/src/web/schedules.
--   Schedules/Job         types.ts
--   Schedules/Validation  validation.ts: newSchedule, scheduleTime
--   Schedules/Creation    scheduler.ts: create, list, cancel
--   Schedules/Reserve     history.ts: reserveSchedule
--   Schedules/Prompt      dispatch.ts: readyPrompt
--   Schedules/Settle      dispatch.ts: settleSchedule
--   Schedules/Dispatch    dispatch.ts: admitScheduled; scheduler.ts: process, advance
-- The store runs its actions one after the other, so each is a function of the file.
-- A number of seconds or milliseconds is its count of parts of one, with the number of parts an argument
-- `scale` of the creation, so that an input may be fractional; the floating-point sum of a time and a
-- delay is an argument too. Settling is stated for whole seconds.
--
-- WriteGate: agent/src/web/server/write-gate.ts.
--   WriteGate            RequestWriteGate, acquire and trackWrite
--   WriteGate/Exclusion  what the gate keeps to
--
-- SearchArgs: agent/src/cli/search/args.ts.
--   SearchArgs        parseSearchArgs and what it calls
--   SearchArgs/Valid  what options that it returns are
-- `Number` on a text is an argument, with its values by what the parser asks of them.
--
-- PromptCache: agent/src/core/cache.ts.
--   PromptCache              withConversationCache, tailBreakpoints and the marks
--   PromptCache/Breakpoints  how many messages are marked
--
-- Loops: those over a list recurse on it. The loop of recentHistoryStart recurses on fuel, the number
-- of messages, which is enough since each round moves the start down by at least one; its theorem
-- speaks of the result that this fuel gives. Decimal digits are printed with fuel n + 1, and n has at
-- most that many digits.
--
-- Not modelled: classifyFailure (regular expressions over the text of an error), the learning service's other
-- parts, the tools, providers, browser and most of the command line of the agent, the HTTP handlers of its web
-- server, the stream of a run, the timer of the schedules, the rest of the web interface, and the C and
-- Go programs of the repository.
--
-- Base holds what the parts share: names of the library, Boolean tests and lists over native
-- numbers. Text holds texts, as lists of UTF-16 code units, and the string methods that more than one
-- part calls.
pub mod Base
pub mod Branch
pub mod Dreaming
pub mod History
pub mod JobQueue
pub mod Prefixes
pub mod PromptCache
pub mod RequestBudget
pub mod Runs
pub mod Schedules
pub mod SearchArgs
pub mod Segments
pub mod Text
pub mod TurnQueue
pub mod Web
pub mod WriteGate
