-- ===== src/Lib.antt =====
-- polyglotmesh: a router that puts requests for language models on one of several upstreams.
--
-- A client sends a request with an API key. The key is looked up in the key store and passes a chain
-- of gates (auth); the model may be an alias (state); the router picks the upstreams of the provider
-- from the registry in order of priority, and the queue tries each in turn and, if none admits the
-- request, waits with a growing pause until one does or the time is over. An upstream admits a request
-- if it is enabled, healthy, below its limits and has a rate token; its failures open a breaker. The
-- cost of the answer is taken from a price table, and metrics count it all.
--
-- The parts and the files that model them (paths of the repository):
--   Prelude, Sort, BTree, Float: lists, texts, machine words, a heap of shared objects, stable sorting,
--     BTreeMap, and f64, which is abstract: a record of operations without laws.
--   Config (Files, RoundTrip): the records of src/config/types.rs, and src/config/mod.rs: load_from_path,
--     save_to_path and RouterPaths::discover.
--   Error: src/error.rs, the errors and the status of each.
--   Upstream (Slots, Interleaving, Breaker): src/upstream/mod.rs, `Upstream`. try_acquire is is_usable,
--     reserve (the guarded fetch_update) and pass_bucket (the token bucket under its mutex);
--     Upstream.Interleaving takes these atomic parts as the steps of concurrent requests.
--   Registry (Order, Lookup): src/upstream/mod.rs, `UpstreamRegistry`.
--   Pricing (Laws): src/upstream/mod.rs, cost_for, compute_cost, default_price_for, known_models.
--   Queue (Dispatch, Waiting, Pending): src/queue/mod.rs, `QueueManager`. try_first is try_acquire;
--     acquire is the pass, the reserved wait slot and wait_loop.
--   Auth (Durations, Gate, Slots, Windows, Store, Access, Parse): src/auth/mod.rs. authorize is
--     bearer_token, lookup and admit; admit is the blocked flag, the expiry, address_error and check_limits, which is
--     pass_rpm, take_slot and check_budget with roll_budget.
--   Metrics (Series, Histogram, Labeled, Rates, Buckets, Window, Traces, Central,
--     Cumulative, Observed, Persist): src/metrics.rs.
--   State (Aliases, Restore, Samples): src/state.rs, resolve_alias, restore_usage, restore_histogram and
--     metrics_restore.
--   Storage (Cells, Keys, Usage, Tally, Totals, Spend, Windows, History, Audit, Samples, Summary,
--     Grouped): src/storage.rs. A table is a list of rows and each operation does to the tables what its SQL
--     statements say. A column that SQL adds to is a Cell, which turns into a REAL where a sum leaves
--     the range of i64; the aggregate SUM of whole numbers that leaves it fails. Both are SQLite's.
--   Accounts (Persisted): src/state.rs, authorize, record_key_usage and release_key, which change a key
--     and write to the tables.
--   Proxy (Sse, Chunks, Timer, Views, Counted, Models, Forward, Dispatch, Gauges,
--     Handler, KeySlots, Watcher, Address): src/proxy/mod.rs. dispatch is
--     dispatch_openai and dispatch_anthropic: resolved_body, candidates, the queue's acquire, forward and
--     conclude, which settles the upstream, lowers the gauges and calls finalize.
--     handle is openai_chat_completions and anthropic_messages, and auth_middleware stands before it;
--     watch and record_stream are the task that spawn_stream_usage_watcher starts.
--   AppState (Reload): src/state.rs, `AppState`: start is from_config, reload_from_path and save_to_disk.
--     It puts together the heaps of upstreams and keys, the registry, the tables, the metrics and the
--     files; its record Host holds the libraries, and Clock the time.
--   Admin (Upstreams, Prices, Probes, Keys, Settings, Tasks; Agreement, Consistent, Untouched, Priced,
--     Reloaded, Reach, Revoked, Lockout, Rotated): src/admin/mod.rs. A handler is a function from the
--     state to an answer and a state; admin_auth is admin_auth_middleware. A tick is one round of a
--     background task. Admin.Reach takes the handlers as the steps of a run.
--
-- Conventions. An `Arc` is an address in a heap, so a request that holds a replaced upstream or a
-- removed key keeps the old object. A mutex or an atomic operation is one step. The atomics wrap
-- modulo 2^32 or 2^64, as the source's do. An instant is a count of nanoseconds, and one call of an
-- operation reads the clock once. The order in which a hash map is iterated is a parameter, `iter`.
-- Text is a list of code points. A call that may panic ends with `panicked`, `crashed` or `none`.
--
-- Fuel. wait_loop runs on fuel for its rounds: each round sleeps, so as many rounds as there are
-- nanoseconds to wait are enough if a sleep takes time. watch has fuel for its rounds in the same way.
-- digits_from, the decimal printing, has fuel for 20 digits, which a 64-bit number never exceeds.
--
-- Parameters. The sleep of a waiting request, which also stands for what other requests do meanwhile;
-- the chrono library (durations, RFC 3339 dates); the ipnet library; ceil; the hexadecimal reading of a
-- span id; the status codes of the HTTP library; JSON, UTF-8 and the hash of a key's text; the HTTP
-- client, which also stands for what other requests do until the answer is there; the file system, the
-- JSON and TOML texts of a configuration, SQL's SUM of real numbers and f64::round.
--
-- Not modelled: of the admin API (src/admin/mod.rs) the handlers that only list, the event stream and
-- the tasks that warm upstreams up, wait for the hour of the retention or watch the file; of
-- src/storage.rs the statements that read JSON texts back and the opening of the file; the command line
-- (src/main.rs); JSON and Prometheus texts, random keys and hashes: they are calls of libraries around
-- the parts above, waiting, or texts.
pub mod Prelude
pub mod Float
pub mod Sort
pub mod BTree
pub mod Config
pub mod Error
pub mod Upstream
pub mod Registry
pub mod Pricing
pub mod Queue
pub mod Auth
pub mod Metrics
pub mod State
pub mod Storage
pub mod Accounts
pub mod Proxy
pub mod AppState
pub mod Admin
