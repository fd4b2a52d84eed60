-- ===== src/Lib.antt =====
-- The rabb1tClaw gateway, in Rust: voice devices connect to it over WebSockets, it passes their
-- messages to language models, streams the answers back, and starts background agents for the
-- `@@dispatch` blocks that an answer holds. This library models the gateway's own logic and proves
-- properties of it. The theorems of each part stand in its child modules.
--
-- Parts, from a message to its answer:
--   Connection (src/connection/handler.rs) is the loop of one socket. `handle_incoming` is one
--     turn, `handle_connect` the handshake, which asks Auth (src/connection/auth.rs) about the
--     token and registers the connection in State (src/state.rs, and `check_and_reload` of
--     src/config/reload.rs). Any other method goes to Agent.Dispatch (src/agent/dispatch.rs).
--   Agent.Request is `handle_agent` of src/agent/runner.rs: it claims the key of a run, resolves
--     the model with Config.Resolve (`resolve_agent_model`, and `create_provider` of
--     src/provider/mod.rs), builds the messages from Session, Agent.Memory and TaskLog, trims them
--     with Budget (`trim_pairs_to_budget`), and makes the job of the task that it spawns.
--   Agent.Streaming is that task, `stream_agent_response`: it feeds the chunks to Stream
--     (src/agent/stream.rs), sends Events (src/agent/events.rs), and at the end strips the answer
--     with Markers (src/agent/markers.rs), records the exchange in Session (src/agent/session.rs),
--     and calls Agent.Background (`dispatch_background_agents`, and `answer_pending_question` of
--     src/agent/advanced/mod.rs), which registers the agents in Tracker (src/agent/tracker.rs and
--     the status types of src/agent/{code,search,advanced}/tracker.rs).
--   Provider (src/provider/mod.rs) reads the stream of events of an answer; Provider.OpenAi and
--     Provider.Anthropic (src/provider/openai.rs and anthropic.rs) have the events and the bodies
--     of both kinds, and Provider.Client their `chat_stream`.
--   Agent.Advanced (src/agent/advanced/agent.rs) has the directives of the advanced agent, its
--     child Compress `compress_context`, and its child Run the loop `run_inner` and
--     `run_advanced_task`. What the loop does to the shared state is a list of actions.
--   Agent.Code (src/agent/code/helpers.rs) reads code and packages off a response; Code.Sandbox
--     (src/agent/code/sandbox.rs) has the container and its commands, and Code.Loop
--     (src/agent/code/agent.rs) the loop, in the monad of Code.Act, which counts the requests and
--     records the commands.
--   Agent.Search (src/agent/search/agent.rs) collects results and makes a context of them; its
--     child Run has the plan, the requests and `run_search`.
--   TaskLog (src/agent/tasklog.rs) is the log of a device's tasks, its child Block what a request
--     says of them, and Agent.Memory has the limits of the memory agent and the reading of a
--     device's memory (src/agent/memory.rs), its child Update the runs of the agent, which Updated
--     describes in terms of Due.
--   Config (src/config/native.rs) and Devices (src/config/devices.rs) are what is configured;
--     Config.Edit holds the edits of src/cli/models.rs and src/cli/providers.rs, and
--     Config.Defaults the defaults of src/cli/defaults.rs. Protocol (src/protocol.rs) has the
--     frames, and Json the values of `serde_json`.
--   Base has the shared notation and lemmas, Tests the runs and the concrete inputs.
--
-- How the state is modelled: `GatewayState` is a record with the fields of the Rust struct. Each
-- operation under a lock is a function on it. A function that takes several locks in turn, as
-- `handle_connect` and `reload_devices` do, is the composition of these, which holds when no other
-- task comes between; Connection.Reach has a step for each lock of the device store, the registry
-- of connections and the flags, and its child Whole composes them. A run of a stream touches none
-- of these three, so it is one step there, and a chunk of the stream is a step on the variables of
-- its loop. A map is the list of its entries in the order of iteration, which is any order. A
-- function that can fail returns an option or a data type with its errors; `none` of
-- `strip_task_markers` and of `extract_json`, and `panicked` of an advanced task, is a panic. A
-- Rust string is the list of its scalar values: every text that is searched for is ASCII, so an
-- offset in bytes stands at a character. A `u32` wraps or saturates as the source has it.
--
-- Fuel: `parse_from` and `strip_from` have one round more than the text has characters, and a round
-- passes over a block of at least seventeen; `drain` has two rounds per character and two more,
-- since a round that continues begins a block or ends one, which is six characters. `decimal` has
-- the twenty digits of a `u64`. `scan_lines` has one round more than the buffer has bytes, and
-- `directives_from` one more than the response has characters; a round passes a newline or a fence.
--
-- Parameters, for code that libraries hold: the container runtime and the files of the host, the
-- network (a function from the body of a request to the pieces of its reply, with errors at any
-- place), the tokenizer, `serde_json` on text and on parameters, the cipher, the hash and YAML
-- (Session.Encoding has them as a record with the laws that they document), the clock, random
-- tokens and nonces, and whether a write is accepted. Within one turn or one run the clock is read
-- once for each name that is given.
--
-- Not modelled: reading and writing of the configuration files, the timers, the HTTP routes, the
-- command line's prompts, the listing of models, and the log files of single tasks.

pub mod Agent
pub mod Auth
pub mod Base
pub mod Budget
pub mod Config
pub mod Connection
pub mod Devices
pub mod Events
pub mod Json
pub mod Markers
pub mod Protocol
pub mod Provider
pub mod Session
pub mod State
pub mod Stream
pub mod TaskLog
pub mod Tests
pub mod Tracker
