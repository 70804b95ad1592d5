-- ===== src/Lib.antt =====
-- The telemetry path of the cislunar ground platform, written as functions, with what makes it
-- correct. A payload frame is encoded by the vendor side, received over HTTP, stored as evidence,
-- decoded and checked, placed in the sequence of its boot session, given one processing job, and
-- processed by a worker that stores one result.
--
-- Files:
-- - Base and Std hold what the parts share: tests and lists over native numbers, integers, digits,
--   `Result` for code that raises; `struct`, `zlib.crc32`, `hashlib.sha256`, format strings, `datetime`
--   and character classes as far as the program uses them, all executable.
-- - Telemetry/Codec: mission_ground/telemetry/codec.py. `encode_telemetry`, `decode_telemetry`,
--   `_validate_fields` (`validate_fields`), `crc32_iso_hdlc`, `_timestamp_us` (`timestamp_us_of`),
--   `format_packet_id`.
-- - Telemetry/Sequence: mission_ground/telemetry/sequence.py, `decide_sequence`. Sequence/Runs
--   follows a session over many packets.
-- - Telemetry/Health: mission_ground/telemetry/health.py, `assess_health` and its three parts.
-- - Telemetry/Queue: mission_ground/telemetry/queue.py. Messages has `QueueMessage`, Lists the five
--   scripts over a state of three lists and the markers, and `TelemetryQueue`.
-- - Telemetry/Storage: mission_ground/telemetry/storage.py, `TelemetryRepository`. Records holds the
--   tables' rows and the enumerations, Tables the database `Db` with its lookups and constraints,
--   Deliveries `record_delivery` and `reject_delivery`, Repeats and Acceptance
--   `accept_packet_and_create_job`, Jobs `mark_job_queued` and `claim_processing_job`, Completion
--   `complete_processing_job` and `fail_processing_attempt`, Queries the read-only methods. History
--   has the committed transactions as a step relation and runs of them.
-- - Worker: mission_ground/services/payload_worker.py, one message in `run_worker` over the state of
--   the queue and the database; `evaluate` is the step from the saved bytes to the result.
-- - Telemetry/World: the two stores of the services, database and Redis lists.
-- - GroundApi: mission_ground/services/ground_api.py, the route `receive_payload_data`, the recovery of
--   jobs at the start (Recovery) and the routes that read (Reads). Requests has
--   the headers and `_bounded_body`, Responses the answers, Calls what a call of the database or of
--   Redis may do (answer, refuse, or act and lose the answer) and what other services do between two
--   calls, Delivery the handler with `_queue_one` and `_audit_safely`.
-- - Vendor: mission_ground/services/vendor_simulator.py. Readings has the request and `_scaled`,
--   Payload `PayloadSimulator`, `_load_next_boot_id` and `_apply_wire_failure`, Forwarding
--   `VendorForwarder.forward` and `submit_telemetry`; Ground joins the forwarder to the route of the
--   ground, with trips that may lose the post or the response.
-- - Telemetry/Settings: mission_ground/telemetry/config.py; Std/Text and Std/Uuid hold the methods of
--   `str`, `int`, `hmac.compare_digest` and `uuid.UUID` that the services use.
-- - Common/Tracker: mission_ground/common/sequence.py, `SequenceTracker.observe`; its dictionary is a
--   function, and Gaps counts over the packets of several APIDs.
-- - Common/Packet: mission_ground/common/packet.py, space packets and the three messages. Health has
--   the sample whose floats are rounded on the wire.
-- - Examples files hold concrete runs.
--
-- State and errors: a transaction is a function from the database to the exception or to the value
-- and the new database; what raises leaves no new database, as `session.begin()` rolls back. The
-- clock and the random identifiers are arguments. Row locks and unique constraints serialise
-- concurrent callers, so an interleaving is a sequence of committed transactions (`Run`); the second
-- pass after an `IntegrityError` runs on the database of a rival transaction, an argument of
-- `retry_once`.
--
-- Numbers: Python's integers are unbounded, so fields are integers and the code's own range checks
-- bound them; the modulus 2 ^ 32 of the sequence arithmetic is written out. UUIDs are their 128-bit
-- numbers, timestamps microseconds since 1970 in Coordinated Universal Time, texts of packet
-- identifiers lists of code points. `temperature_c` and `voltage_v` of a result are kept as the
-- numerators over 100 and 1000. The floats of a health sample in Common/Packet are IEEE doubles, a
-- numerator over a power of two, with the products, quotients and rounding of Std/Float: a double
-- has at most 53 bits and no denominator beyond 2 ^ 1074, which the fuel there covers. Other loops
-- are structural recursion; only the recovery script of the queue loops on fuel, one unit for each
-- entry of the processing list.
--
-- Not modelled: the identifiers of audit events, the database engine and its dialects, the reading
-- of JSON (an argument of the queue's operations), the foreign keys of the tables, lost connections
-- of the worker, waiting, the framing of HTTP, the probes of readiness, logging and metrics, the
-- texts of exceptions in responses, and the rest of the earlier packet path under
-- mission_ground/common.
pub mod Base
pub mod Std
pub mod Telemetry
pub mod Worker
pub mod Common
pub mod GroundApi
pub mod Vendor
