-- ===== src/Lib.antt =====
-- xop-go, a structured logger for Go with traces and spans: the parts that decide what a log says.
--
-- Parts and their files.
-- * xoptrace, the identifiers of traces and spans. `Trace` models trace.go and hexbytes.go: a record of
--   four byte arrays with their hexadecimal copies, the header string and the flag `initialized`. The
--   three array types of hexbytes.go are one record `HexBytes` (Trace/Arrays), since they differ in
--   their width only; the handles WrappedHexBytes1, 8 and 16 are the trace with the name of a field.
--   Trace/Hex has encoding/hex and the two writers setBytes and setBytesFromString, Trace/Header the
--   regular expression traceRE, Trace/Json the JSON methods, Trace/Bundle the Bundle.
-- * xopmiddle, which sets the trace of a request's logger from the inbound headers. `Middle` models
--   utils.go and the part of makeChildSpan in middleware.go that computes the bundle.
-- * xopbase/xopbaseutil/metadata.go, the attributes of a span. `Metadata` models the map of trackers and
--   its eight methods, which are one text at eight types.
-- * xoputil/jbuilder.go and xoputil/fromphu.go, the buffer in which JSON lines are built. `JBuilder`
--   models the escaping of strings, commas and keys; JBuilder/Reader is a reader of JSON strings after
--   RFC 8259, against which the writer is measured.
-- * xopconsole/attributes.go and xopjson/xopjsonutil/attributes.go, the attributes of a span as text that is
--   ready to be written. `Attributes` has the types and functions that both files have, Attributes/Console
--   and Attributes/Json the methods of each and its Append, their children Builder the renderings of
--   values. Attributes/Sequence says what the documentation of attributes promises, as text, Attributes/Flush which entries Append is to write, and Attributes/History what has
--   been seen of each entry in the texts written so far.
-- * xopconsole/replay.go, which reads the console format back. `ConsoleReplay` has the readers of words and
--   quoted strings, ConsoleReplay/Metadata the readers of the attributes of a span, and the others what
--   they make of the texts of Attributes/Console; ConsoleReplay/Made and Appended say what Append makes of
--   calls of the methods, and ConsoleReplay/Trip joins the two.
-- * logger.go, the life of the loggers of a request. `Lifecycle` models when loggers are active, done and
--   flushed, as a machine whose tasks are the calls that are still to be made; Lifecycle/Objects has the
--   loggers, the spans and what they share.
-- * sub.go, the settings of a logger. `Settings` models the record of settings with its setters, StackFrames
--   among them, Settings/Prefill the setters of prefilled attributes, and `send_prefill` how they reach
--   the base logger.
-- * base.go, the base loggers of a seed: `BaseLoggers`, with the array behind the slice, since WithoutBase
--   changes it while it ranges over it.
-- * seed.go, the seeds from which requests and spans sprout. `Seeds` has the seed, Seeds/Modifiers what changes
--   it, Seeds/React how a seed is made, copied and sprouts. A callback gives modifiers, which are data.
-- * xoputil/counter.go, the numbers of traces and requests: `Counter`, for callers one after the other.
-- * basegroup.go, a group of base loggers that acts as one. `Groups` models the making of requests;
--   Groups/Spans and Groups/Lines have the methods of spans, prefilled parts and lines over members whose
--   behaviour is a parameter, Groups/Final the goroutines of Flush and Final, whose order is a list of events.
--
-- How the parts meet: the middleware calls the setters of a trace and hands the bundle to the logger;
-- a span's links are traces. A seed holds the bundle, the settings and the base loggers; the modifiers WithBase
-- and WithoutBase change the last by `BaseLoggers`. Replay reads what the builders of attributes write.
--
-- Choices. Go's strings and byte slices are lists of numbers, with `AreBytes` where a proof needs that
-- they are bytes. The bytes of crypto/rand are a list of draws that the functions consume; `none` means
-- that the draws ran out while the loop of setRandom still asked for more, and the theorems on endings
-- say which draws are enough. A panic of a failed type assertion is `none` in `Metadata`. A float64 is
-- its bit pattern, so that a NaN is not equal to itself. The loop of `escapes` runs on the length of its
-- text, which is the number of its rounds. The loops of collectMetadata run on fuel; the theorem on them says
-- how many rounds the entries take, and that more do no harm.
--
-- `Lifecycle` runs one thread: its functions call each other without bound, as Lifecycle/Endless shows, so
-- `run` counts steps, and the theorem on Done of a request says that some number of them suffices. What
-- the base loggers and the timer are told is a list of events.
--
-- The callbacks and contexts of a seed, base loggers, functions and versions are known by numbers. What the
-- members of a group do, SplitVersion and the callbacks are parameters.
--
-- Not modelled: the lines and requests of the console replay and its loop over the input, the sinks that
-- write to files, consoles and OpenTelemetry, the in-memory recorder, the registry of attributes, line.go and
-- span.go, whose methods mostly forward to the base logger, generated code, and the locks of the maps of
-- attributes, since every call holds the lock of its key throughout.
mod Base
pub mod Trace
pub mod Middle
pub mod Metadata
pub mod JBuilder
pub mod Lifecycle
pub mod Settings
pub mod BaseLoggers
pub mod Attributes
pub mod ConsoleReplay
pub mod Groups
pub mod Seeds
pub mod Counter
