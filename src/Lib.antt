-- ===== src/Lib.antt =====
-- Open Relic is a Git host that runs as a worker: it speaks Git's smart HTTP protocol, unpacks what is
-- pushed to it, keeps the objects in a store and answers fetches. This library models the parts of
-- apps/api/src that read and write the formats of Git, the walk that a push must pass, and the sweep of
-- what no ref reaches.
--
-- A push arrives as a stream of chunks. The pkt-line reader (git/pkt-line.ts) takes its commands off
-- the front and hands over the rest, which is the pack. The pack reader (pack.ts) takes entries off
-- that stream while it hashes all but the trailer, inflates them, and rebuilds deltified objects by
-- applying deltas (delta.ts) to bases, of which it keeps a window of recent ones. The commands are
-- screened against the refs (git/receive-pack.ts, contracts.ts), the repository store walks from each
-- new tip (connectivity.ts), moves the refs in one transaction (repository-store.ts), and a report goes
-- back as pkt-lines.
-- Ids are 40 lower-case hexadecimal digits (object.ts, sha1.ts). What no ref reaches any more is
-- reclaimed by a sweep (sweep.ts), which follows the links of commits, trees and tags
-- (connectivity.ts) one bounded step at a time.
--
-- The files:
--   Prelude      library names passed on, lists and Boolean tests on the native numbers, results, bit
--                lemmas, texts as lists of codes, number formatting, and JavaScript maps as
--                association lists in insertion order
--   GitObject    apps/api/src/object.ts: types, ids, the size limit
--   Hex          apps/api/src/sha1.ts: toHex, decodeHexInto, fromHex
--   Delta        apps/api/src/delta.ts: readVarint, applyDelta and their faults; Delta.Format is an
--                independent description of the format with its writer
--   PktLine      apps/api/src/git/pkt-line.ts: pktLine, flushPkt and PktLineReader; PktLine.Framing
--                says what the first packet of a byte sequence is, without a reader
--   Pack         apps/api/src/pack.ts: Pack.Stream is PackStream, Pack.Header is readEntryHeader and
--                readBackOffset, Pack.Recent is RecentPackBases, Pack.Writes is PackWrites, and
--                Pack.Unpack is readPack with resolve and inflateEntry, over the steps of Pack.Action.
--                Pack.Unpack.Inflating shows where an entry ends, Pack.Unpack.Kept and Rounds what is true
--                of the objects, and Pack.Unpack.Whole and Correct are about all of it
--   TreeEntry    apps/api/src/tree-entry.ts: treeEntries, as the entries that it yields and how it ends
--   Head         apps/api/src/head.ts: formatHead, parseHead, headBranch
--   Names        apps/api/src/contracts.ts: validateNamespaceSlug, validateRepositoryName and
--                validateBranchName; Names.Refs holds the rules of `git check-ref-format`
--   ReceivePack  apps/api/src/git/receive-pack.ts: ReceivePack.Request reads the commands and the push
--                options, ReceivePack.Screen is screenCommands, ReceivePack.Report is receivePackResult
--   Inflate      apps/api/src/inflate.ts: Inflate.Huffman has the tables, Inflate.Adler the checksum,
--                Inflate.Reader the state with #bits and the writes, Inflate.Decoding #decode and the
--                dynamic tables, Inflate.Steps the steps of each state, and Inflate.Push is push;
--                Inflate.Keeping and Inflate.Tails tell what becomes of the input
--   Connectivity apps/api/src/connectivity.ts: the header fields of commits and tags, and the links of
--                an object (linksToVerify, linksToReach); Connectivity.Walk is findMissingObject, over
--                any object source
--   Store        apps/api/src/repository-store.ts: a repository with its refs, HEAD and shallow commits,
--                and the transaction over its refs; Store.Push is #receivePack with #verify and #refuse,
--                Store.Imports is importBranch, resetImport and completeFork, Store.Objects is what writeBatch of
--                apps/api/src/object-store.ts leaves to be read, and Store.Revisions is
--                #resolveCommit, #peelTag and #uploadRefs, with what a revision names in
--                Store.Revisions.Naming. Store.Closure is about
--                what a walk proves, Store.Invariant and Store.Moves about a push, and Store.Runs about
--                all of these in any order. Store.Unpacking puts readPack where a push unpacks
--   Sweep        apps/api/src/sweep.ts: RepositorySweeper over its tables (db/repository-schema.ts),
--                with describe, read and reclaim of apps/api/src/object-store.ts. Sweep.Marking has
--                lemmas on the mark set, Sweep.Reach what can be reached from the refs, Sweep.Walking
--                and Sweep.Reclaiming the two phases, Sweep.Safety the step, and
--                Sweep.Runs steps among pushes; Sweep.Completion is about a complete sweep
--
-- A Uint8Array is a list of numbers, a string a list of char codes. An object that the source mutates
-- is a record that each operation takes and returns. A body is the list of chunks that its reader has
-- not yielded yet; the chunks may be empty and of any length. A thrown error is a value of `Result`.
-- An error's code or class is kept and its message is not.
--
-- Loops over input are structural where the source walks along a list. `delta_loop` runs on fuel, one
-- unit for each byte of the delta: each round takes at least the opcode. The loops that pull chunks
-- have one unit for each chunk, and the loops over pkt-lines and over the entries of a tree one for
-- each byte that is unread. `size_loop` has 148 rounds: from a shift of 1024 on the source's sum is no
-- safe integer any more, and it throws. Numbers are exact: the source checks that each sum is a safe
-- integer before it goes on.
--
-- TextDecoder and TextEncoder are parameters; what a theorem needs of them is a hypothesis: that UTF-8
-- leaves ASCII as it is, and makes control bytes of control characters only.
--
-- The loop of a push into the inflater has 16 rounds for each byte that is held and 4 more: a round
-- reads a bit, or leaves a stored block. `bits_loop` has one round for each bit, and the checksum one
-- for each byte. An output array is the bytes that are written so far, below its size.
--
-- The walk for missing objects runs on fuel that its caller gives, and one unit for each link of a
-- stored object and two more are enough. So do the loops that follow tags, and one unit more than there
-- are stored tags is enough.
--
-- Unpacking a pack into the object store is an interface of the repository store: it is told what it
-- does to the objects, and a theorem that needs it to add objects only has that as a hypothesis. So are
-- the messages of errors, of which a push sends some back. Where readPack unpacks, it is the object store
-- after the batches that it was asked to write: an id that is stored keeps its object, and what SQLite
-- answers to the queries for links and for closures is a parameter, which stays true of the objects. A write
-- that fails for want of storage is left out.
--
-- A push checks what its tips reach over the links that linksToVerify gives: a commit's tree and, unless it
-- is shallow, its parents, a tag's target, and the subtrees of a tree by the mode 40000. Blobs are not
-- checked, and a subtree written 040000 is taken for one. What is proved of a repository's refs is about
-- these links, and a sweep among pushes about runs where no such subtree is stored behind the walk by a
-- push that moves no ref.
--
-- A table of the database is a map from its key to its row, in some order, and a transaction is one
-- function. A step of the sweep that throws keeps the transactions it has finished.
--
-- The loop of `inflateEntry` over the chunks has one round for each chunk of the body and two more, and
-- `offset_loop` has ten: each multiplies the offset by 128, and one of 2 ^ 53 is refused.
--
-- Not modelled: SHA-1 and the native inflater, which are calls of the platform; the repacking
-- (repack.ts); the chunks of stored objects, of which the sweep only sees the bytes
-- and the counts; the reports of the sweep (#progress); timings; history, files and copies for
-- forks in the repository store, and the gate that keeps its operations apart;
-- and the parts of the server that answer fetches or route requests.
pub mod Prelude
pub mod GitObject
pub mod Hex
pub mod Delta
pub mod PktLine
pub mod Pack
pub mod TreeEntry
pub mod Head
pub mod Names
pub mod ReceivePack
pub mod Inflate
pub mod Connectivity
pub mod Store
pub mod Sweep
