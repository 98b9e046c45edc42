-- ===== src/Lib.antt =====
-- A verification library for the agent core of Tau.
--
-- The program. A provider streams a model's answer (src/tau_ai); `run_agent_loop` of
-- src/tau_agent/loop.py turns the stream into events, runs the tools that the answer asks for and
-- goes on for another turn; `AgentHarness` of src/tau_agent/harness.py owns the transcript and the
-- queues, calls the loop and repairs what an interruption leaves; src/tau_agent/session keeps what
-- happened as a tree of entries in a JSONL file and replays it into a state.
--
-- Which file models which part:
--   * Prelude: shared names, Boolean tests, lemmas on lists and on lists of distinct ids.
--   * Messages, Events: the data of types.py, messages.py, tools.py, events.py and
--     provider_events.py of src/tau_agent and of src/tau_ai/events.py. A field named `data` is
--     `payload` here, and a number in JSON is carried as its literal.
--   * Exec: what running the loop's code comes to. An `Exec W A` takes the transcript, the events
--     yielded so far and a world to an outcome (a value, torn down by an exception, or cut short)
--     and the same three after it; `do` blocks follow the order of the statements.
--   * Loop: `Environment` stands for the arguments of `run_agent_loop`, that is the provider, the
--     tools, the approval hook, the cancellation token and the queues, as functions that may change
--     the world. `Tools` is `_execute_tool_calls` and the functions below it, `Stream` the
--     `async for` over the provider's events, `Turns` the `while` loop and `_drain_queued_messages`.
--     The other files of Loop hold proofs.
--   * Harness: `Queues` (steering and follow-up), `Repair` (`_append_interrupted_tool_results`) and
--     `Runs` (`prompt`, `continue_`, `_run`, `cancel`), which calls the loop with an environment
--     built as `_run` builds it.
--   * Session: `Entries`, `Tree` (`entries_by_id`, `path_to_entry`), `State` (`SessionState` of
--     memory.py) and `Jsonl` (jsonl.py and the file of storage.py).
--   * Extensions: src/tau_extensions/resolution.py. `initial_decision` are the trust rules,
--     `Dependencies` the loop that disables what depends on something that is not there, `Ordering`
--     the topological order; a set is a list of ids, and a heap is a list in order. The loop has fuel
--     for as many rounds as there are active extensions and one more, the order for as many as there
--     are extensions. `Cycles` finds cycles and what depends on them: `strongconnect` has
--     fuel for calls as deep as there are nodes and gives none where that runs out, the search from a
--     cycle for as many rounds as the cycle and the graph have ids. `Resolution` puts them together,
--     with one outcome more for the fuel of `strongconnect`.
--   * Pool: `AsyncAgentPool` of src/tau_coding/agent_pool.py. `Registered` is a session and what the
--     tasks of `_run` do to it, `Actions` their steps between awaits with the semaphore's permits,
--     `EventStream` the bounded stream. An `Action` is one stretch of any call, so that a list of
--     actions is an interleaving. A task that is cancelled may end, or catch the exception and wait
--     on; one that is cancelled before its first step is not modelled, and neither are the messages
--     of `steer` and `follow_up` or two removals of one id that overlap.
--   * Approvals: `ToolApprovalManager` of src/tau_web/approvals.py. An `Action` is what one of its
--     calls does between two awaits, so that any list of actions is an interleaving of calls; an
--     object that has left `_pending` stays in `objects`, where a call of `resolve` still holds it.
--   * Budget: `compaction_budget` and the selection of whole blocks of
--     src/tau_coding/smart_compaction.py, with `int(window * 0.42)` as a parameter, and the token
--     estimates of src/tau_coding/context_window.py.
--   * Thinking: src/tau_coding/thinking.py. `value.strip().lower()` is a parameter.
--
-- Bounds and fuel. The `while` loop of the agent runs on fuel, one unit a round, and a run whose fuel
-- is used up is cut short: the outcome `exhausted`, which the source does not have. Nothing is said of
-- the fuel that a run without a limit on its turns needs. The walk of `path_to_entry` has one unit
-- more than there are entries. `decimal` has more fuel than its number has digits. Python's integers
-- are ℕ here; a negative `max_turns` behaves in the source as 0 does.
--
-- Parameters and what is left out. The printing and parsing of an entry by a `TypeAdapter`, and
-- Python's text of a dict, are parameters. Of the first it is asked at most that the text is one line
-- and not a blank one, as that of `json.dumps` is; whether it is parsed back is not. What the consumer
-- of the events does between them is a function of the world, applied whenever the loop polls its
-- token or drains a queue. Not modelled: a consumer that closes the generator at a yield, callbacks of
-- the queues that raise, listeners, the network clients, the terminal and the rest of the web server.
mod Prelude
pub mod Messages
pub mod Session
pub mod Events
pub mod Exec
pub mod Loop
pub mod Harness
pub mod Approvals
pub mod Thinking
pub mod Budget
pub mod Pool
pub mod Extensions
