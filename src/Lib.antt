-- ===== src/Lib.antt =====
-- A model of two services. The xUSDC light attester, crates/xusdc-light-attester, watches the Miden
-- chain for xUSDC burns, asks Circle's xReserve API to prepare the withdrawal of each, checks the
-- answer against the burn, signs it and sends it, and keeps its work in one SQLite database. The
-- deposit relayer, crates/xreserve-deposit-relayer, reads Circle's feed of deposits page by page, puts a
-- mint note on chain for each, and keeps how far it got in one file. They share no state.
--
-- The parts, and the files that model them:
--
--   crates/usdcx-telemetry/src/lib.rs       Telemetry: how loudly a failure is alerted on.
--   crates/xusdc-light-attester/src/
--     burn.rs         Burn: a public note as an xUSDC burn (`BurnCandidate::new` is new_candidate).
--     config.rs       Config: the settings that decisions read, and the clock of Circle's limit.
--     circle.rs       Circle: Circle's replies, their size and their errors; Circle/Value is the JSON
--                     that is read by field, Circle/Status the HTTP codes.
--     submission.rs   Submission: a saved request; Submission/Id the form of Circle's IDs;
--                     Submission/Reply what a reply makes of a request.
--     verify.rs       Verify: `UnverifiedPrepareResponse::verify`; Verify/Parse the fields,
--                     Verify/Encoding the packed bytes, Verify/Legs the two second legs.
--     store.rs        Store: the tables (with migrations/); Store/History the append-only history,
--                     Store/Rows the checks on a row, Store/Submissions, Store/Holds, Store/Limits
--                     and Store/Scan the operations that write, Store/Reads the queries over burns,
--                     Store/Open the opening of a store with its checks, Store/Listing the pages of
--                     holds that operators list, and the counts of `progress`.
--     attester.rs     Attester: Attester/Limit the queue behind Circle's withdrawal limit;
--                     Attester/Advance a saved request taken one step further with Circle
--                     (`advance_submission` of submission.rs); Attester/Loop the loop over saved
--                     requests, with the operators' commands between its steps;
--                     Attester/Withdraw one burn from Circle's quote to a saved request;
--                     Attester/Discover the scan of the chain's blocks (`discover_burns`);
--                     Attester/Submit the loop over the burns that are ready;
--                     Attester/Cycle a cycle of all of these, and `run` with its pauses;
--                     Attester/Start `start`, the offline `release_holds`, and any number of
--                     starts, runs and offline releases on one path.
--     signer.rs       Signer: the pair of signers and its check against the configured keys.
--   crates/xreserve-deposit-relayer/src/
--     circle.rs       Relayer the types, Relayer/Feed a page of the feed and its reading.
--     store.rs        Relayer/Progress: the progress file, and `Position` of lib.rs.
--     unminted.rs     Relayer/Unminted: the deposits that the faucet has not minted yet.
--     mint.rs         Relayer/Minting: the notes of a page, and `process_page` of lib.rs.
--     miden.rs        Relayer/Node: `retain_unminted`, `submit_notes` and the wait for a transaction.
--     lib.rs          Relayer/Scan: `scan`, `run_page` and `finish_page`.
--
-- Sql has the statements that the store's queries are made of. Prelude has the shared helpers.
--
-- State and operations. A store is a record of the four tables as lists of rows, in the order of
-- insertion. An operation is a function from a store to a result: `ok` with the next store is a
-- commit, `err` a rollback, which leaves the store as it was. A field that a method of
-- `SavedSubmission` assigns is a field of the record that the model's function returns, next to the
-- failure class that the method returns. Store/Steps is the step relation of everything that
-- writes, with the calls that the attester makes of them, and reachability.
--
-- Proofs. Sql/* say what statements and sorted queries do to a keyed table; Store/Sound is the
-- well-formedness invariant and Store/Sound/* its preservation by each operation;
-- Store/History/Growth and Store/History/Requests are on the history; Store/Limits/First on the
-- queue behind Circle's limit; Submission/Reply/Laws on replies; Circle/Cap on the size of a reply;
-- Verify/Bounds, Verify/Route and Verify/Sound on the check of a quote; Attester/Sound,
-- Attester/Queue and Attester/Refinement on the loop, Attester/Authorized and Attester/Attempt on
-- new requests; Store/Reads/* on the queries; Store/Steps/Works and Attester/Works on what the
-- attester's work for one note leaves of the others, with Attester/Commands on the operators'
-- commands and Attester/Keeps on the loop over saved requests; Attester/Discover/* on the scan and
-- Attester/Cycle/* on a cycle and a run; Store/Open/* on the stores that an opening accepts,
-- Store/Listing/* on what operators are shown, and Attester/Start/* on what a start checks and on
-- what starts and runs leave at the path. Relayer/Served is Circle's feed as the scan sees it,
-- Relayer/Fetched what a fetched page is, Relayer/Restart the progress file replaced and read
-- back, Relayer/PageProgress what a page does to the progress, Relayer/Handled what
-- becomes of the entries of a page, Relayer/Walk, Relayer/PageCoverage and Relayer/Coverage what a
-- scan passes over of the feed, Relayer/Newest the watermark of a walk that is over,
-- Relayer/Turns and Relayer/Completion that it ends, Relayer/Landed what is on chain when the
-- progress moves, Relayer/Node/Wait the wait for a transaction, Relayer/Watch the watched deposits.
-- Witnesses holds concrete runs.
--
-- Circle and time. `Client` holds Circle's answers as functions of the saved request, one pair of
-- them for each turn of a loop, so that answers can change from turn to turn; a turn also has one
-- reading of the clock, and the operators' commands that came in before it.
--
-- `Desk` holds what a new burn needs: Circle's quote, the two signers' signatures, the JSON of the
-- request and its URL. `World` holds these for a whole cycle, with the node's answers
-- (`ChainReader`), and a run is a list of cycles: it ends with the list, as at shutdown. `Services`
-- holds what the node, Circle and the signers answer to a start, and a `Life` is a start with the run
-- that follows it if it succeeds, or an offline release.
--
-- The relayer's `PageTurn` holds what surrounds one page: Circle's answer, the node's, the
-- operating system's to each operation on the progress file, and whether shutdown was asked for. A
-- scan is a list of turns, and running out of turns is a process that was killed. `Relayer` keeps,
-- next to the code's own state, the notes that are on chain, which only the theorems read. `Disk`
-- is the progress file and its temporary sibling, each with its text and whether that outlives a
-- crash of the host, as it does once it is synced; a rename is atomic and keeps what was synced.
--
-- Libraries. Code that is not in the repository is a parameter: `Wire` (serde_json at each type
-- that is read, hex and URL parsers, HTTP codes), `Libraries` (alloy's parsers, ABI codecs, EIP-712
-- digest and keccak256, the account's bytes32 form, Circle's domain of Miden), and `NoteCodec` (the
-- serialisation of a note and the root of the burn script). `PublicNote` holds what the code reads
-- of a note. `RelayLibraries` has serde_json on the list of deposits, the parser of `Link` headers
-- and the note builder, and `StateJson` serde_json on the progress. No law of them is assumed,
-- except, where a theorem says so: 400 is a valid HTTP status; the bytes of a note that the node
-- sends read back; the JSON of the progress reads back; Circle's pages follow each other in one
-- feed whose cursors do not move.
--
-- Numbers. Fixed-size words, IDs and addresses are the natural numbers of their bytes. `U256`
-- wraps where the code uses `+` and `*`, checks where it uses `checked_add` and saturates where it
-- uses `saturating_add`; the retry clock has the source's bounds of 64 and 63 bits. There is no fuel:
-- every loop is structural recursion on a list or on a reply's chunks, and the bounds are
-- the source's own: eight commands at a checkpoint, and a hundred holds on a page.
--
-- Not modelled: logging and spans, which the decisions do not read; the HTTP clients and their
-- pacing; the RPC client and the library's validation of a block; the signing providers; the admin
-- listener; the parsing of the command line; the SQLite file with its lock, its format and its
-- migrations, and the offline command's printed list of holds; the Miden client that the relayer
-- calls and its prover, and the pauses between its scans; the bridge supervisor, the older listener
-- attester and the validation harness, the other crates.
pub mod Attester
pub mod Burn
pub mod Circle
pub mod Config
pub mod Prelude
pub mod Relayer
pub mod Signer
pub mod Sql
pub mod Store
pub mod Submission
pub mod Telemetry
pub mod Verify
pub mod Witnesses
