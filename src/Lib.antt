-- ===== src/Lib.antt =====
-- Capture and replay of market data. A payload of an exchange is parsed into an event;
-- `EventProcessor::process` applies the event to the state of its symbol, which keeps a visible
-- book of five levels a side, and formats the rows that are written: one for the audit file, one
-- for the file of the book. A recorded audit file is read back row by row and goes through the
-- same `process`.
--
-- FixedPoint: `src/fixed_point.cpp`, decimal texts as integers at a scale of 10^8. The loops
-- recur on the text.
-- SymbolIdentity: `src/symbol_identity.cpp`, normalized names, the id of a name and the check of
-- a set. The 32-bit hash wraps at 2^32. A loop over positions recurs on the number of rounds that
-- are left, which starts at the length.
-- Payload: the data of `include/hft/spot_payload_parser.h`.
-- Json: `src/json_validation.h`. A document is the tree of what the JSON library answers to the
-- calls of the source, a getter with its value or its error at every place; the library is the
-- argument `iterate` of the parser, from the bytes of a payload to such a tree. The walks recur
-- on the tree, to the depth of 64 that the source allows.
-- Parser: `src/spot_payload_parser.cpp`. Duplicates is the hash table of the prices of a message,
-- with 32768 probes at most, Levels the walk over one side of the book, Trade and Depth the two
-- kinds of message, Document the whole of `SpotPayloadParser::parse`. The state that one message
-- leaves to the next is `Impl`. `process` takes a parser as a function; what the books rely on is
-- the hypothesis `IsParser`.
-- Book: `src/spot_book.cpp`. Side is the array of five slots, Core both sides with the last
-- update id, Spot and Usdm the two rules by which a diff continues a book (`SpotBookState`,
-- `UsdMBookState`). Update ids wrap at 2^64.
-- Csv: `src/csv_formatter.cpp`. A row is the list of its bytes; whether memory can be had is an
-- argument. A number is printed with at most twenty digits, which is enough for 64 bits. The
-- capacity of a buffer is not modelled.
-- Event: `src/event_processor.cpp`, the context check and the whole of `EventProcessor::process`.
-- A call takes a state and returns a state, a batch and a result. The files below it prove what a
-- call, and what a sequence of calls, does.
-- FileSink: `src/buffered_file_sink.cpp`. The answers of the kernel are arguments: what `write`
-- answers at each call, after finitely many interruptions, and what the other calls answer. The
-- contents of the file are part of the state. The loop of `write_all` goes on at most once for
-- every byte, since a write that takes none ends it, so that its rounds are the length of the
-- bytes.
-- Replay: `src/market_data_replay.cpp`, the framing of a record, its decoding, the order of the
-- records of a file, and `MarketDataReplayReader::next`. The file is the list of its bytes. Its
-- header and the loop over a whole file are not modelled.
-- Subscription: `src/live_subscription.cpp`, the streams of a run, the target that asks for them,
-- and the table of their routes with 256 probes at most.
--
-- Prices, quantities and counters are natural numbers, since the source keeps them from being
-- negative; the timestamps are signed. Not modelled: the JSON library, the envelope of the live
-- stream, the capture loop, the queue in front of the sinks and the set of them, the connection
-- over TLS, the command line and `main`. They are input and output for the most part, or parse
-- what another library hands on.
pub mod Prelude
pub mod FixedPoint
pub mod SymbolIdentity
pub mod Payload
pub mod Book
pub mod Csv
pub mod Event
pub mod FileSink
pub mod Replay
pub mod Subscription
pub mod Json
pub mod Parser
