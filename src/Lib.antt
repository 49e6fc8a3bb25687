-- ===== src/Lib.antt =====
-- OpenFPGA Studio's viewer, tools/viewer/web/app.js: the page that shows what an FPGA board
-- sends over a serial line or through the JTAG bridge. Bytes come in pieces of any size into a
-- receive buffer; a parser cuts frames out of it, checks them and hands each to a decoder, which
-- updates the page's state (log, watches, events, trace, register monitor, profiler, logic
-- analyzer) and asks for parts of the page to be drawn.
--
--   - Base: names of the library, lists, machine words, `Dict` for `Map` and `Texts` for what
--     `hex` and number printing produce.
--   - Wire: `SOF`, `VERSION`, `MAX_PAYLOAD`, `checksum`, `u16`, `u32`, `pushU16`, `pushU32`,
--     `frame`. Wire/Fields and Wire/Offsets have the laws of the fields, Wire/Xor those of the
--     checksum.
--   - State: `state` and the functions every decoder uses: `requestRender`, `flushRender`,
--     `addLog`, `updateWatch`, `updateEvent`. State/Tables has the constant tables, the other
--     files of State one part of `state` each.
--   - Decode: `decodeFrame`, with one function for each of its branches; Decode/Debug,
--     Decode/Trace, Decode/Monitor, Decode/Profiler and Decode/Analyzer have the branches and
--     the functions these call. Decode/Dispatch lists the handlers that a frame can go to;
--     Decode/Rendering, Decode/Bounds, Decode/Captures, Decode/Paused and Decode/Numbering are
--     each about one law of all handlers.
--   - Receiver: `appendRxBytes` and `parseAvailableFrames`; the files below Receiver are named
--     for what they show of them.
--   - Bridge: `consumeBridgeBytes` and `consumeBridgeRecord`; Bridge/Data is about DATA
--     records, Bridge/Rounds, Bridge/Rest, Bridge/Loop and Bridge/Pieces about bytes that come
--     in pieces.
--   - Builders: the functions that build demo frames, `profilerSnapshotFrame` to
--     `logicAnalyzerTriggerFrame`, and in Builders/RoundTrip what the decoders make of them.
--   - Page: `clearAll`, `setPaused` and the export of a table, `csvCell` and `exportCsv`;
--     Page/Jsonl the export of everything, `exportJsonl`, with what `JSON.stringify` makes of
--     a record as a parameter; Page/TraceView has the filter, the newest items and the counts
--     of `renderTrace`.
--   - Page/Vcd: `exportLogicAnalyzerVcd`, the lines of the file in Page/Vcd, what a reader
--     finds in them in Page/Vcd/Values and Page/Vcd/Times.
--   - Form: `parseNumber`, the form of the logic analyzer's configuration and the fields of
--     its viewport.
--   - Connection: `connect`, `connectJtag` with its handlers, `disconnect`, `readLoop` and
--     `replayRawCapture`. WebSockets are numbered; Connection/Orderly is about runs that wait
--     for the last socket, Connection/Late about those that do not.
--   - Commands: `sendMonitorBytes` and the queue behind it, `monitorRead`, `monitorWrite`, the
--     commands of the profiler and of the logic analyzer and what the page does every 100 ms.
--     A promise that a function waits for is an event: `start` is the turn of the next frame,
--     `finish_write` the end of a write. A write of a configuration whose turn comes late
--     reads the configuration as it then is, and after `clearAll` the one that the page had.
--     Commands/Actions has the commands, the polling and `clearAll`, Commands/Order the queue
--     as an abstract one, Commands/Chain the nine writes of a configuration, Commands/Refused
--     and Commands/Polling what their names say.
--   - Samples: `injectSample`, `injectProfilerSample` and `injectLogicAnalyzerSample`;
--     Samples/Delivered has the frames that the receiver takes.
--   - Diagnosis: the files beside app.js. Timeline has `unwrapTimestamps`, Redaction
--     `redactValue` and Canonical `canonicalize` and the ids of evidence of
--     diagnostic_snapshot.js; Ranges has the sample summary and Controller the class
--     `AnalysisController` of ai_provider.js; Validator and Validator/Check have `validate` of
--     diagnosis_validator.js; Rules has the configuration of diagnostic_rules.js; Workflow has
--     the session of `AIDebugModel` of ai_debug_model.js, whose waits are events too. A run of
--     the controller waits between two events, and Controller/Steps lists the events, which
--     come in any order. Json has the values they all work on, with numbers as fractions. What
--     a provider replies, what `JSON.parse` makes of it, how a value is made a string or a
--     number and how `JSON.stringify` writes strings and numbers are arguments.
--   - Tests: runs on concrete input.
--
-- Names are the source's in another spelling: `parseAvailableFrames` is
-- `parse_available_frames`. The mutable `state` is a record that each function takes and gives
-- back. A `Map` is an association list with the newest key last; `null` is `none`. Bytes, words
-- and counters are natural numbers, and what JavaScript does to 32-bit words (`|`, `<<`, `>>>
-- 0`) is written out modulo 2 ^ 32. An index behind the end of an array, which is `undefined` in
-- the source, counts as 0 there, as `|` reads it. Texts are lists of character codes. The set of
-- pending renders is a flag for each of the render functions.
--
-- Both loops run on fuel that is the length of the buffer: each round of the parser takes at
-- least one byte, each round of the bridge five. So the fuel is enough to go on for as long as
-- there is something to take.
--
-- Left out are drawing and event wiring (browser output), what the browser does with ports and
-- sockets (it hands over bytes and says how a write or a connection ends), `JSON.parse` and
-- `JSON.stringify`, text decoding and the floating point of the throughput (the parameter `Json`
-- of Bridge), the texts that the page writes, the providers and `buildContext` of ai_provider.js
-- (a run whose context cannot be built stays as `queue_run` leaves it), the collecting of
-- snapshots and SHA-256, the rules of diagnostic_rules.js, the exports and the HTML of
-- ai_debug_model.js, and the code in other languages (rtl, sim, tools/jtag).
pub mod Base
pub mod Wire
pub mod State
pub mod Decode
pub mod Receiver
pub mod Bridge
pub mod Builders
pub mod Page
pub mod Form
pub mod Connection
pub mod Commands
pub mod Samples
pub mod Diagnosis
pub mod Tests
