-- ===== src/Lib.antt =====
-- openleadr-python: the event, polling, authentication and report logic of an OpenADR 2.0b server
-- (VTN) and client (VEN).
--
-- The program. The server keeps a queue of events for each VEN (`OpenADRServer.add_raw_event`,
-- `cancel_event`, in openleadr/server.py), delivers it when the VEN polls (`PollService.poll`,
-- `EventService.request_event`, in openleadr/service/) and takes the VEN's answers
-- (`EventService.created_event`). A request over a secure connection that names a VEN is
-- authenticated first, if the server has a lookup (`authenticate_message` in
-- openleadr/messaging.py). The client (openleadr/client.py) answers the
-- events that it receives through the user's handlers, and tidies its list of events from time to
-- time; it registers at the server, offers reports, takes on the server's requests for them and
-- sends them when they are complete. Messages with events and offers of reports are checked before
-- they are sent (openleadr/preflight.py). Both sides share the event data of openleadr/objects.py
-- and the functions of openleadr/utils.py.
--
-- The files.
--   Base          tests, lists, dicts, integers, stable sorting, methods that may raise
--   Event         the records of objects.py; Event/Status is `determine_event_status`, Event/Period
--                 is `get_active_period_from_intervals`, Event/Order is `order_events`,
--                 Event/Targets is `group_targets_by_type` and its inverse, Event/Objects is the
--                 `__post_init__` methods; Event/Durations is `parse_duration` and
--                 `timedeltaformat`, Event/Datetimes is `parse_datetime` and `datetimeformat`;
--                 Event/Preflight is the check of messages with events in openleadr/preflight.py,
--                 Event/Measurements the tables of measurements with
--                 `validate_report_measurement_dict` and the check of offered reports
--   Vtn           Vtn/EventService is the event service with `request_event` and `created_event`;
--                 Vtn/Server is the server with its queue methods and the poll service
--                 (`add_event` in AddEvent), and in Mailbox an abstract view of a VEN's queue,
--                 which the server implements;
--                 Vtn/ReportService is the report service (offers in Registration,
--                 values in Updates), with `validate_report_request_tuples`;
--                 Vtn/RegistrationService is the registration service;
--                 Vtn/Handler is `VTNService.handler`
--   Messaging     Messaging/Replay is `_verify_replay_protect` and its cache;
--                 Messaging/Signature is `validate_xml_signature`;
--                 Messaging/Authenticate is `authenticate_message`
--   Ven           Ven/Events is `_on_event`, `_event_status_log` and `_event_cleanup`;
--                 Ven/Reports is the client's reports: `add_report` in Add, `create_report` in
--                 Create, `update_report` in Update, `cancel_report` in Cancel, the worker in
--                 Queue; Ven/Transport is `_perform_request`; Ven/Registration is the registration,
--                 its end in Unregister; Ven/Polling is `_poll` and `run`; Ven/Opts is
--                 `create_opt` and `cancel_opt`; Ven/Cron is `cron_config`
--   Journey       both sides together: an event from add_raw_event to the VEN's handler and the
--                 answer back to the callback, and the registration of a client
--   Tests         sample data and the theorems at concrete inputs
-- The files below a component's file prove what their names say.
--
-- The model. An operation is a function from the state to a result and the new state; what was
-- written before an exception stays written, but for the checks of messages, which are then not
-- sent. Identifiers and texts that are only carried are numbers; texts that the code compares with
-- literals are strings. Points in time and durations are whole microseconds. A call reads the clock
-- once, except in the replay protection, where every reading has its own value. The user's
-- handlers are parameters, and the calls of callbacks on the server are logged. Loops are over lists or counters, by structural recursion. Only the
-- writing of a number (`digits_of`) runs on fuel: one more than the number is enough, since each
-- digit makes it smaller. Texts that are read digit by digit are lists of their ASCII codes; the
-- case of a letter is that of ASCII. Measurement objects stand in a store under their addresses,
-- since the datapoints of all reports share those of enums.MEASUREMENTS, and so do the dicts that are
-- given as measurements, which are corrected in place.
--
-- Not modelled: XML parsing, templates, schema validation and signatures, which other packages do
-- (a signature's validity and the fingerprints are data of the incoming message); the web server
-- and its tasks; time zones; the interleaving of handlers within one call; one event object that is
-- queued for two VENs; how a year before 1000 is written; `normalize_dict`, which reshapes the
-- parsed XML; the hooks and the fingerprint tool.
pub mod Base
pub mod Event
pub mod Vtn
pub mod Messaging
pub mod Ven
pub mod Journey
pub mod Tests
