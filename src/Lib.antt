-- ===== src/Lib.antt =====
-- ntee-db: an embedded key-value store in Go with secondary indexes, TTLs and counters.
--
-- The store (nteedb-core) keeps every record as a line of JSON in an append-only log, main.jsonl;
-- a large value goes to a side file, and the record keeps its offset and size. In memory there is
-- a B-tree of the primary keys, each with the place of its record, and one B-tree for each
-- secondary index. A mutation appends to the log first and changes the trees then; Open rebuilds
-- the trees from the log, or from a snapshot (main.jsonl.hint) and what the log has after it, and
-- cuts off what a crash has left behind the last whole record.
--
-- Files:
--   Base, Order, Bytes, Btree, Run, Result, Sort: lists, 64-bit integers, byte strings, what the
--     B-tree library promises, errors, and sort.Search.
--   Record: nteedb-core/record.go. The record, its readable and its raw field, utf8.Valid.
--   File: the calls of package os. A file carries the outcomes of the coming calls on it; a write
--     that fails may have written a part of its bytes.
--   MainLog: nteedb-core/mainlog.go. append, appendSync, scanMainLog.
--   Scanner: bufio.Scanner over a whole file. Hint: nteedb-core/indexhint.go, the lines of the hint
--     file, and their scan with its fallbacks.
--   Blob: nteedb-core/blob.go. Ttl: nteedb-core/ttl.go. Meta: nteedb-core/meta.go.
--   PkIndex: nteedb-core/pkindex.go. SecIndex: nteedb-core/secindex.go, one index.
--   Index: how a record of the log changes all the trees, in writes and in replay alike
--     (insertSec, refreshSec, retractSec, rebuildSec, the callback of replayTail).
--   Counter: nteedb-core/counter.go, the format and the steps of Incr, Topup and Take.
--   Db: the open store. Db.Write is the write path with its evictions, Db.Boot the load, Db.Read
--     the reads, Db.Reaper the deletion of expired keys, Db.Counters counterUpdate with the patch
--     in place, Db.Ranges nteedb-core/rangedel.go, Db.Queries the queries by index, Db.Batch
--     nteedb-core/batch.go, Db.Schema adoptSchema and the filters of index values, Db.Compact
--     nteedb-core/compact.go and nteedb-core/reindex.go.
--   Hint.RoundTrip, Db.Logged, Db.Durable, Db.Keys, Db.Offload, Db.Puts, Db.Evictions,
--     Db.Mutations, Db.ReadBack, Db.Cutoffs, Db.Removals, Db.Reaping, Db.Counting, Db.Priors,
--     Db.DroppedKinds, Db.Covering, Db.Adoption, Db.Rewriting, Db.Rewritten, Db.Compacted,
--     Db.Hinting, with Index.Appending and Index.Shape: proofs.
--   Tests: a store on list trees and on a small codec, with examples.
--
--   Server.Text: what the server uses of strings and strconv. Server.Proto: nteedb-server/proto.go,
--     readLine, readData, splitCommand, restAfterTokens, the envelopes. Server.Accounts:
--     nteedb-server/auth.go. Server.Settings: nteedb-server/schema.go and the defaults of NewServer.
--   Server.State, Server.Reads, Server.Writes, Server.Dispatch: nteedb-server/handlers.go, a handler
--     for each command and `dispatch` over them. Server.Conn: handleConn of nteedb-server/server.go;
--     Server.Policy: maybeCompact and its loop.
--   Server.Continuing, Server.Ending, Server.Rights, Server.Sessions, Server.Framing, Server.Words,
--     Server.Inline, Server.Accounts.Checks, Server.Accounts.RoundTrip, Db.Scans: proofs.
--   SecIndex.Oldest: proofs on the lowest keys of a group, for the evictions. SecIndex.Groups,
--     SecIndex.Grouped, SecIndex.Turns, SecIndex.Sought, SecIndex.Prefixed: proofs of the query by a
--     prefix.
--   Capi.Registry: nteedb-js/capi/registry.go. Capi.Settings: nteedb-js/capi/options.go.
--   Capi.Values, Capi.Batches, Capi.Calls, Capi.Exports: nteedb-js/capi/exports.go, its envelopes, the
--     items of a batch, an operation for each exported function, and these on their handles.
--   Capi.Pieces, Capi.Handles: proofs.
--
-- A method of DB is one step on the state, since it runs under db.mu; a rewrite is one step since
-- the gate keeps the writers out. The background hint writer is a step of its own, with its
-- snapshot pending in the state. A method that may fail returns its error with the state that it
-- leaves. The clock is an argument.
--
-- Integers: an int32 is its bit pattern (`% 2 ^ 32`) and is sign-extended where the code adds it to
-- an int64; offsets are natural numbers. int64 arithmetic of counters and TTLs wraps. A float64
-- index value stands as the integer that is 2 ^ 1074 times as large; NaN and infinities, which JSON
-- does not carry, are left out. Go maps are lists in the order of their names, and are iterated in
-- that order. The hint file and meta.json are bytes, and are replaced without failure.
--
-- Parameters: encoding/json at records (`Json`), of which `IsJsonCodec` says that records of valid
-- UTF-8 are encoded as one line that decodes to them; the trees of tidwall/btree (`Btree`), of which
-- `IsBtree` says what each call does to the sorted items; fmt.Sprint at index values (`print`); the
-- Extract functions of the indexes. Tests.Codec and Btree.Lists meet the two laws.
-- encoding/json at the lines of the hint (`HintJson`) and at meta.json (`MetaJson`), of which
-- `IsHintCodec` and `IsMetaCodec` say that names, keys and values of valid UTF-8 come back, and of
-- the hint that a line has no control characters; Tests.Files meets them. That a record
-- is carried by the log (`Carried`) asks that its line decodes to it and is shorter than 2 ^ 31
-- bytes, the bound of the int32 length; that a store is durable (`IsDurable`) asks that no call on
-- its files fails from there on.
--
-- Of the server: json.Valid, json.Unmarshal of index values and strconv.ParseFloat (`Std`), the
-- float64 arithmetic of the policy (`Floats`), json.Unmarshal into an `any`, and the moment of a
-- command (`Moment`): the clock, and how the files of a rewrite go. A message is the constructor of
-- its format with its arguments, and an answer is an envelope before json.Marshal. The writes on a
-- connection do not fail. Another connection may change the store between two commands, not
-- within one.
--
-- Of the C interface: json.Valid, json.Unmarshal and the base64 decoder (`Decoders`), and what Open
-- returns for an open.
--
-- Fuel: sort.Search runs on the width of its range, which each turn makes smaller, the parser of
-- UTF-8 on its bytes, the query by a prefix on the items from the prefix on, of which each turn
-- passes one at least, and the loop of a connection on any number above the bytes of its input;
-- every other loop is over a list.
--
-- Not modelled: Open and its file handling, the lock file, Destroy, the listeners of the server,
-- its table of connections and its logs, the decoding of its schema file, nteedb-server/main.go,
-- nteedb_drop, nteedb_destroy and the conversion of C strings in the C interface, and the
-- JavaScript clients.
pub mod Base
pub mod Order
pub mod Bytes
pub mod Btree
pub mod Result
pub mod Counter
pub mod Scanner
pub mod Record
pub mod Hint
pub mod File
pub mod MainLog
pub mod Server
pub mod Capi
pub mod Sort
pub mod PkIndex
pub mod SecIndex
pub mod Index
pub mod Run
pub mod Blob
pub mod Ttl
pub mod Meta
pub mod Db
pub mod Tests
