-- ===== src/Lib.antt =====
-- Poseidon: a chat backend over certified marine sales data. A message is read deterministically
-- against the slots of its conversation (which customer, which port, which periods), a router model
-- then calls skills in a loop until it replies, and a worker later distils idle conversations into
-- memory. This library models the parts that decide what a turn is about, how it ends and what is
-- remembered of it, and proves what they promise.
--
-- The parts, and the files that model them:
--   * Calendar: the part of Python's `datetime` and `calendar` that the periods use, with the years
--     1 to 9999 and the errors that `date` and `timedelta` raise.
--   * Slots: `ConversationSlots` of backend/poseidon/core/skills/context.py and the carry of
--     backend/poseidon/core/parsing/carry.py.
--   * Periods/Windows (its children Kinds, Shifts and Slots): `PeriodWindow` of
--     backend/poseidon/core/data/specs.py, backend/poseidon/core/parsing/period_labels.py, and the
--     window builders of backend/poseidon/core/parsing/period_parser.py.
--   * Periods/Parser (Resolves, Total, Sources and Available): the rest of period_parser.py: which phrase of a
--     side counts, what it resolves to, the carry, the shift of "vs last year", and the issue.
--   * Resolver (Order and Sound): `resolve` of backend/poseidon/core/parsing/customer_resolver.py.
--   * Pipeline (Plans and Turns; Names and Memory): `parse_turn` of
--     backend/poseidon/core/parsing/pipeline.py, which calls the resolver and the period parser and
--     writes their outcome back into the slots.
--   * AgentLoop (Types; Content and Content/Caps; Turn and its children Rules, Records, Exits,
--     Corrections and Internal): `run_turn` of backend/poseidon/core/llm/loop.py with all its helpers,
--     over the types of backend/poseidon/core/llm/types.py and backend/poseidon/core/skills/result.py.
--   * Outbox (Rearm, Retries and Claims): backend/poseidon/core/personalization/outbox.py, and the
--     claim of backend/poseidon/scripts/memory_worker.py.
--   * History (Pages and Reads; Writes with Stored and Owned; Dates, Slots, State, Dicts and Calls with
--     its Rows, Same and Replaced; Transcript): backend/poseidon/core/chat/history.py: the conversations
--     and the messages of a user, page by page, and how they are written; the state of a conversation as JSON, next to the dicts of
--     backend/poseidon/core/chat/state.py which it replaced; and the parts of a message as they come.
--   * LiveChat (Folds; Saved and Persists): the stream of one turn in backend/poseidon/api/live_chat.py.
--   * Events (Numbers and Streams): the sink of backend/poseidon/core/chat/events.py, which numbers the
--     frames of a turn and streams the parts of a skill.
--   * RunLog (Retries): the rows of turns in backend/poseidon/core/runlog.py, one for each key of a client.
--   * Memory (Numbering, Histories, Runs and Accepts): backend/poseidon/core/personalization/memory.py, the
--     numbered versions of what is remembered of each user.
--   * Worker (Distill; Provenance, Spend and Settles): `_process_one` and `run_once` of
--     backend/poseidon/scripts/memory_worker.py, over the memory, the outbox and the run log.
--   * Registry (Wire; Names and Hidden): backend/poseidon/core/skills/registry.py and the tool names of
--     backend/poseidon/core/llm/bedrock.py; Hidden puts a registry behind the agent loop.
--   * Query (Sql, Rules, Builders and Frames; Placeholders, Filled, Conditions, Statements, Correct,
--     Frames/Correct, Lookups and Callers): the SQL that
--     backend/poseidon/core/data/query_builder.py builds for a spec of specs.py over an `Entity` of
--     backend/poseidon/core/ontology/models.py, as text with placeholders, and its parameters.
--   * Prelude: names, Boolean tests, lists, sorting and results that these share.
-- The modules called Examples hold tests and the theorems at concrete inputs.
--
-- How the code corresponds. A function keeps its name, without a leading underscore. Code that may
-- raise returns a `Result`, with the exceptions that it can meet as its errors. The agent loop passes
-- a `LoopState` that holds what the code appends to, the events of the sink among it; its `for` is
-- recursion on the number of iterations left, so no fuel is added to what the code has. A statement of
-- the outbox, the memory, the history or the run log is a function of the table; the rows that a user
-- may see are those with the user's name, as row-level
-- security has it for the role of the application. Of a stream, what is done is a list of effects or of
-- frames, in their order.
--
-- What is a parameter. The provider, the skill registry and the clock of the agent loop are the fields
-- of `World`; behind a registry, its system prompt is a parameter around the lines of the skills. The
-- regular expressions of the parser and of the pipeline are not modelled: `Match`,
-- `Phrase` and `Reading` hold what they find, and the theorems ask of a phrase only what its pattern
-- lets through (years 1900 to 2099, months 1 to 12, quarters 1 to 4, the month names of the table).
-- Casefolding, word splitting and the fuzzy score of rapidfuzz are the fields of `TextTools`; a score
-- is a number that is only compared. The parsing of a UUID is a parameter of the outbox. The SQL of a
-- certified metric is text without placeholders, and `str.lower` is a parameter of the builders. What the
-- memory worker meets (the messages, the model, the parsing of JSON, the clock, and what others do to the
-- stores while the model answers) are the fields of its own `World`. The text of a cursor is a parameter of
-- the history, which asks that a cursor be read back as it was written. A directory of a task holds what
-- importing it and reading its YAML gives. The frames of a turn, its outcome and its title are what the
-- stream is given.
--
-- What is not modelled. White space is that of ASCII where text is stripped. JSON arguments and message
-- windows are opaque text. The hints of a turn, the labels of windows and of skills, locks of concurrent
-- claims, the polling shell of the worker, the skills, the order of the steps of a turn in its
-- orchestrator, and of the HTTP layer all but the stream of a turn are left out.
pub mod Prelude
pub mod Calendar
pub mod Slots
pub mod Periods
pub mod Resolver
pub mod Pipeline
pub mod AgentLoop
pub mod History
pub mod LiveChat
pub mod Events
pub mod RunLog
pub mod Memory
pub mod Registry
pub mod Outbox
pub mod Worker
pub mod Query
