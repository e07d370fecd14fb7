-- ===== src/Lib.antt =====
-- InfraReplay records the HTTP and database traffic of a service, replays it against a build of the
-- service and compares the two runs. This library models the core of that program.
--
-- The parts and how they interact. A capture delivers events in any order; `correlate` arranges
-- them by request, links them to their parents and numbers them. Each event is redacted before it
-- is stored. A replay yields a second stream of events; `link_streams` pairs the two streams by
-- place, and `compare_run` gives each pair to the comparator of its type, which normalises what
-- changes on every run before it compares. `run_replay` puts these steps together. A capture's events
-- come from the proxy, from the listeners in an application, whose agent posts them to a session, or
-- from an imported bundle.
--
-- - Common: lists, dicts, sorting, grouping and text, shared by the parts. A dict is an association
--   list in insertion order, `sorted` is a stable insertion sort, and text is a list of code points.
-- - Schema (infrareplay/schema): Value is JSON, Event and Recording are the stored records, Result
--   is the row of a comparison.
-- - Recording/Correlate (infrareplay/recording/correlate.py): correlate, _groups (groups), _link
--   (link, and link_from for its loop), _parent_for (parent_for).
-- - Plugins/Redaction (infrareplay/plugins/redaction_default/plugin.py): redact, and _scrub with
--   _scrub_entry (scrub, scrub_items, scrub_fields).
-- - Comparison/Normalize (infrareplay/comparison/normalize.py): normalize and _placeholder. Each
--   regular expression is a matcher on code points.
-- - Comparison/Comparators (infrareplay/plugins/comparators): http_compare and postgres_compare.
-- - Comparison/Engine (infrareplay/comparison/engine.py): compare_run, its two loops walk and
--   leftovers.
-- - Replay/Linking (infrareplay/replay/linking.py): link_streams and _signatures (signatures, and
--   sign for its loop).
-- - Recording/Database (infrareplay/db/models.py) and Recording/Service
--   (infrareplay/recording/service.py): the tables as lists of rows, and the calls of the service as
--   functions from a database to an outcome, which holds the database that the call leaves.
--   finish_recording runs correlate, capture_recording composes the calls.
-- - Replay/Substitution (infrareplay/replay/substitution.py): SubstitutionEngine, its fixed part in
--   Substitution and its memory in Memory; _swap, _walk and apply are swap, walk and apply.
-- - Replay/HttpTarget (infrareplay/replay/http_target.py): send, cut at the await of the client into
--   send_request and receive; _headers, _event, _response_payload and _decode are headers_for,
--   new_event, answer_payload and decode.
-- - Replay/Engine (infrareplay/replay/engine.py): ensure_safe, _batches, and the gather of a batch:
--   send_all puts its requests in flight in order, arrive is the client's answer to one of them, and
--   run_batch is a batch under a list of arrivals, which is an interleaving of its sends.
-- - Plugins/Fixtures (infrareplay/plugins/mock_capture/fixtures.py): the payloads, _Stream.add (add),
--   _pg_step and build. A gap or a duration is in tenths of a millisecond.
-- - Recording/Portable (infrareplay/recording/portable.py): rekey, its dict renamed as renamed_from.
-- - Replay/Playback (infrareplay/replay/engine.py): replay_recording, _replay_mock (replay_mock, and
--   stand_ins for its loop) and _replay_http (replay_http, and run_batches for its loop).
-- - Replay/Runner (infrareplay/replay/runner.py): run_replay, which starts a recording, replays into
--   it and concludes with the links and the comparison (conclude_run).
-- - Plugins/HttpCapture (infrareplay/plugins/http_capture/proxy.py): _handle, cut at the await of the
--   upstream into begin_handle and end_handle; _event, _decode, _forward, _response_payload and
--   _client_response are captured_event, decode_body, forward, response_payload and client_response.
--   The events are objects that the queue shares with the handler, which sets a duration later.
--   Storing has a capture as steps: a request begins, one in flight ends, the task of the session
--   (pump) stores the next event.
-- - Plugins/PostgresCapture (infrareplay/plugins/postgres_capture/plugin.py): _before, _after, _event,
--   _jsonable and _result_payload are before_execute, after_execute, sql_event, jsonable and
--   result_payload; the context of a request is infrareplay/capture/context.py.
-- - Agent (infrareplay/agent/agent.py): flush and _drain are flush and drain, and serve is the
--   middleware around an application's statements and messages, for one request with no other in
--   between: a flush's posts, which the code awaits one by one, are then one step. Agent/Shared has
--   the moves of requests that overlap, each post a move of its own.
-- - Schema/Migrations (infrareplay/schema/migrations.py): register and upgrade. The fuel is the number
--   of rounds of the loop; as many as versions are missing are enough.
-- - Recording/Portable/Bundle (infrareplay/recording/portable.py): build_bundle, parse_bundle and
--   _upgraded (upgraded). Recording/Transfer (infrareplay/recording/service.py): get_status, the
--   listings, export_recording and import_recording.
-- - Plugins/Registry (infrareplay/plugins/registry.py): _register, _slot_for and _get are register,
--   slot_for and get_plugin.
-- - Capture (infrareplay/capture/session.py): start_session, stop_session, ingest_events and _pump
--   (pump, and yields for the task of a live session).
-- - Api (infrareplay/api/app.py): each handler as a function from what the process holds, the database
--   and the live sessions, to its answer and what it leaves. Api/Answers has the requests and the
--   answers, an HTTPException as its status and its detail; reply, with_outcome, with_parsed and
--   with_run are the handlers' try blocks. create_replay takes what an instrumented target posts
--   during the replay. Api/Served has the requests as steps, Api/Grown and Api/Called what each call
--   keeps of the database, as a sequence of the service's calls, and Api/Handled what a handler leaves.
-- - Demo (infrareplay/demo.py) and Plugins/MockCapture (infrareplay/plugins/mock_capture/plugin.py):
--   seed, and the plugin that it captures from.
-- - Plugins/StorageFs (infrareplay/plugins/storage_fs/plugin.py): put_blob, get_blob and _path_for, a
--   path as the list of its parts and the disk as the nodes at the paths.
-- - Cli (infrareplay/cli/main.py): each command of Cli/Commands and Cli/Sessions as a function of what
--   the API answers to its request; a line is an f-string, the list of its pieces.
-- - Container (docker/healthcheck.py and docker/seed.py): both scripts. A reading of the clock is in
--   milliseconds; 121 rounds of fuel are enough for the wait, since a round sleeps for half a second.
-- - DemoShop (examples/demo_shop/store.py, models.py and app.py): the shop whose traffic the demo
--   records. checkout is cut at its first write into begin_checkout and finish_checkout, so that
--   checkouts interleave as steps of a system; _reserve_atomic and _reserve_read_then_write are
--   reserve_atomic and reserve_read_then_write.
-- - Examples: runs at concrete inputs.
--
-- Choices. A JSON integer is an ℤ, and a number with a fraction is not modelled; a sequence number, a
-- time and a duration are natural numbers. `==` on values is Python's: True equals 1, and the order
-- of a dict's keys does not count. `lower` is exact as far as a comparison with an ASCII word can
-- tell. `$` matches before a trailing newline too, and re.I makes four letters outside ASCII match
-- [a-z]. The digits outside ASCII that \d matches are the parameter other_digit, and
-- config.IGNORE_FIELDS is the parameter ignore_fields. The registry's lookup of a comparator is the
-- parameter comparator_for. A loop is structural recursion, but for two: the fuel of batches is the
-- number of payloads, since each batch takes one at least, and the fuel of upgrade bounds its rounds,
-- for which the number of missing versions is enough where each migration raises the version.
-- `uuid4` and the clock are functions of the number of calls made, or arguments of the call. The
-- database's ORDER BY sequence is the parameter by_sequence, the storage plugin's put_blob a
-- parameter that answers a locator or raises, and what a capture plugin yields is an argument.
-- A session writes at its commit; a taken primary key is the integrity error that the database
-- raises. The clock does not go back, so that a duration is a natural number. Foreign keys and
-- column widths are not checked. What an instrumented target writes while a replay is in flight is
-- the parameter meanwhile. In the shop, quantities are natural numbers, the tax is a parameter, as
-- the code computes it in floating point, and the database keeps the writes of two sessions apart.
--
-- Not modelled: pydantic's validation, HTTP clients and servers, FastAPI and typer, which are
-- libraries; the set-up of the engines and the migration scripts, which call SQLAlchemy and Alembic;
-- and the dashboard, a user interface whose parts are the calls of a library.

pub mod Common
pub mod DemoShop
pub mod Examples
pub mod Schema
pub mod Recording
pub mod Plugins
pub mod Comparison
pub mod Replay
pub mod Agent
pub mod Capture
pub mod Demo
pub mod Api
pub mod Cli
pub mod Container
