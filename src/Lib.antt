-- ===== src/Lib.antt =====
-- The command line tool of netobserv: captures of flows, of packets with the plaintext of their TLS
-- payloads, and of metrics, with the table of the last flows and the graphs.
--
-- In a packet capture, the agent sends packets and plaintext records as flows. The collector
-- (cmd/packet_capture.go) numbers each record and hands records and packets to a buffer
-- (cmd/packet_capture_wire_buffer.go), which holds both for a window of time. The buffer scores each
-- packet against each record, annotates the packet that clearly fits best, sends the record on with
-- what the packet knows of its endpoints, writes every packet to the pcapng file and, when a record's
-- time is over, sends it on unmatched. The capture filters complete records before the search, and
-- the payload code decides what text a record shows. What the collector receives is also handed to
-- the memory of the table (cmd/flow_display.go), which keeps the last flows in the order of their
-- times and shows some of them, in the columns that the options (cmd/options.go) choose and with the
-- texts that cmd/map_format.go makes. A flow capture (cmd/flow_capture.go) stores the flows that it
-- displays in a database (cmd/flow_db.go); a metric capture (cmd/metric_display.go) draws graphs. Apart
-- from the captures, the TLS profile of the cluster is resolved into a ConfigMap
-- (internal/pkg/tlsresolver).
--
-- Files, and the parts of the program that they model (Go names in camel case are spelled here in
-- snake case, so `tryAnnotateLocked` is `try_annotate`):
--   Text, Text/Numbers, Text/Utf8: what is used of Go's strings, bytes, strconv and unicode/utf8.
--   GenericMap: the maps of a record (config.GenericMap).
--   Extern: third-party and system packages, the parameter `ext` of the model.
--   Endpoints: addresses, ports and flow tuples (cmd/packet_capture_wire_buffer.go).
--   Filters: cmd/packet_capture_filters.go, and `optionEnabled` of cmd/root.go.
--   Plaintext/Payload, Noise, Display, Annotation: cmd/plaintext_format.go, and the timestamps and
--     comments of cmd/packet_capture_plaintext.go.
--   Plaintext/Wire: cmd/wire_payload.go.
--   Plaintext/Unmatched: `prepareUnmatchedPlaintext` of cmd/packet_capture_plaintext.go.
--   Score: the score of a packet and a record (cmd/packet_capture_wire_buffer.go); Bonus, Direction,
--     Compatible and Tiers hold the proofs.
--   WireBuffer/Defs, Annotate, Operations: the state of `wirePacketBuffer` and its operations; Best,
--     Attempts, Identity, Conservation, History, Expiry, Limits, Exports, Provenance, Correct, Overlay and
--     Matched hold the proofs.
--   Session: the loop of `startPacketCollector` and the handlers of records and packets
--     (cmd/packet_capture.go), with the numbers of cmd/packet_capture_plaintext.go; Runs, Counts,
--     Delivery and Limits hold the proofs. Session/KeyLog: `embedTLSKeylog` and `watchTLSKeylog`.
--   Display/Order, Sorting, Flows, Rows, Columns: the memory of the table, its rows and the choice of
--     its columns (cmd/flow_display.go); Display/Options: cmd/options.go.
--   Format/Names, Cells: cmd/map_format.go; Laws and Failures hold the proofs.
--   FlowCapture: the loop of `startFlowCollector` (cmd/flow_capture.go) and `onLimitReached` of
--     cmd/root.go; FlowCapture/Rows: `insertFlowToDB` of cmd/flow_db.go.
--   Metrics: cmd/metric_display.go; Rows and Values hold the proofs.
--   TlsResolver: internal/pkg/tlsresolver/config.go; TlsResolver/Resolution: resolve.go beside it;
--     Entries and Usable hold the proofs.
--   Tests, Tests/Capture, Tests/Table, Tests/Tls: concrete inputs.
--
-- How the state corresponds: `Buffer` is the struct `wirePacketBuffer`, with the list `trace` of
-- what was handed to the pcapng writer (`wrote`) and to the finalizer (`exported`); an error of the
-- writer is logged by the program and changes nothing else, so a packet counts as handed over once.
-- A nil writer or finalizer is a false flag. The mutex is held through each operation, so a history
-- is a list of calls, each with its readings of the clock: the one that the operation hands down,
-- and those of `time.Since`, in order. `Session` holds the variables of the collector, its buffer
-- and what it wrote: the lines of the plaintext log are those that it hands to
-- `writePlaintextJSONL` itself and those that its buffer exports, and the order of the former among
-- the latter is not modelled, nor is an error of that function, which is logged and loses the line;
-- `shown` are the maps that were handed to `AppendFlow`, in order. A failed type assertion ends the
-- program, which is an outcome of its own; in a goroutine of `AppendFlow` it comes at any time, as
-- an input. `Memory` holds the globals of the table: its three buffers, the next index and whether
-- it is paused. `KeyLog` is the offset of the key log and the blocks that were written; a writer
-- that fails writes no block. `Collector` and `Lifecycle` hold the variables of a flow capture,
-- with the goroutines that it started, which parse and show the flows in any order, and the globals
-- of its limits, `Graph` a graph's series.
--
-- Bounds and fuel: numbers are natural numbers, times are nanoseconds; durations do not saturate at
-- the ends of int64. A float64 is a finite number num / 2 ^ scale, exact also where the program
-- multiplies it. The white-space loops and the search for embedded records run on fuel: each round
-- drops a byte or moves on by one, so that the length of the text, and one more, are enough; the
-- same holds of the runes of a text. The loops of the program over layers have their own
-- limits (6 layers, 3 rounds of extraction). `maxLen <= 0` is 0. A map is a list of fields in the
-- order in which Go iterates; theorems that need its keys to be unique say so.
--
-- Parameters: the decoders of JSON, the regular expressions, the printers of sizes, times and
-- network events, and `sort.Strings` are functions that a definition takes, as are the tables of
-- the OpenShift libraries (`Libraries`). A write that the Kubernetes API refuses changes nothing.
-- `sort.Slice` is a function with the laws that it documents (`SortLaws`): the result is a
-- permutation, and it is in order where the test is a strict weak order. The model takes a sort of
-- two flows or more to compare each of them, which matters only where a flow has a time of a type
-- that the program does not read.
--
-- Not modelled: the encoding of pcapng blocks, files, gRPC, `ParseKeylogLines`, the messages that
-- are printed, the order of the deferred calls at the end of a capture; the widgets, keys,
-- selection and suggestions of the terminal interface, its heartbeat and buttons but for `pause`;
-- queries of Prometheus and the plots; the SQLite file and queries of it; certificates and the
-- clients of Kubernetes; `toMetricName` and the YAML configuration; the shell commands. But for
-- `ParseKeylogLines`, which no capture calls, and `toMetricName`, these are I/O or calls of
-- third-party packages. `strings.ToLower` beyond ASCII is left out, since pod names are ASCII.
pub mod Common
pub mod Text
pub mod GenericMap
pub mod Extern
pub mod Endpoints
pub mod Filters
pub mod Plaintext
pub mod Score
pub mod WireBuffer
pub mod TlsResolver
pub mod Tests
pub mod Session
pub mod Display
pub mod FlowCapture
pub mod Format
pub mod Metrics
