-- ===== src/Lib.antt =====
-- StellarQuorum: the SDK, from which the frontend, the scripts and other programs read and drive
-- the governance and token contracts on Stellar, the frontend's own logic, and the metrics of the
-- scripts.
--
-- The parts, and the files that model them:
--
-- - sdk/src/types.ts is Sdk/Types: records for the interfaces, data types for the unions of names.
-- - sdk/src/errors.ts is Sdk/Errors: the contracts' error codes (Codes), and how a host error's
--   text is parsed (contractErrorCode, parseGovernanceError, parseTokenError). A thrown value is a
--   record with its class and the fields that the SDK looks at.
-- - sdk/src/cache.ts is Sdk/Cache: ReadCache as a record, one function per operation. A read is two
--   steps, `start_read` up to its request and `settle_ok` or `settle_err` after it, so that other
--   reads and invalidations come between them (Actions). The identity of an entry object is its
--   token.
-- - sdk/src/batch.ts is Sdk/Batch: SimulationBatcher as a record with its queue, the microtasks
--   due, the flushes that wait for the provider (flights) and the log of what has been settled.
--   `enqueue`, `flush` and `continue` are the code between two awaits; Runs has every order of
--   them. Reply has the tests on the provider's replies, Post is postSimulationBatch over fetch.
-- - sdk/src/events.ts is Sdk/Events: topic names, fields and the decoders of all event types.
-- - sdk/src/freighter.ts is Sdk/Freighter: loading, connecting and signing, over a wallet.
-- - sdk/src/client.ts is Sdk/Client: Transport (the tests on errors, withTimeout), Retry (read),
--   Decoding (getProposal, decodeProposal, decodeStatus), Window (getProposals, getAllProposals,
--   getProposalsByStatus), Polling (submitAndWait), StatusWait (waitForProposalStatus),
--   SimulationErrors (mapGovernanceSimulationError), Transactions (the build methods), Reads (the
--   simulated reads, and getVote and hasVoted through the cache), InsecureRpc (allowsInsecureRpc),
--   Fees (estimateFees, declaredResourceFee).
-- - frontend/lib/notifications.ts is Frontend/Notifications: the notification state and the
--   operations on it. frontend/lib/env.ts is Frontend/Env: the checks of contract ids (Strkey) and
--   loadEnv.
-- - frontend/lib/types.ts is Frontend/Types; frontend/lib/proposals.ts is Frontend/Proposals, with
--   the fixture's data in Fixture; frontend/app/feed.xml/route.ts is Frontend/Feed;
--   frontend/components/AddToCalendar.tsx is Frontend/Calendar.
-- - frontend/app/create/page.tsx, with lib/useLocalStorage.ts and lib/validators.ts, is
--   Frontend/Create: the page's state, one function per handler, and its effect, which runs with
--   each operation that changes the stored draft. Review has the order in which the page lets the
--   handlers run.
-- - frontend/components/WalletProvider.tsx is Frontend/Wallet, frontend/lib/useLiveProposal.ts is
--   Frontend/Live, frontend/lib/rpc-health.ts is Frontend/Health: a state and its handlers each.
-- - frontend/lib/voting-power.ts is Frontend/Amounts, lib/voters.ts is Frontend/Voters, lib/time.ts
--   is Frontend/Time, lib/delegates.ts is Frontend/Delegates, components/ProposalList.tsx is
--   Frontend/Listing.
-- - scripts/seed-demo-proposals.mjs is Scripts/Seed, written in Scripts/Script, in which a script
--   is a function of the world: the calls (Seed), the deployment (Deploying) and main (Main).
--   Ordering has a record of what is sent and told, Keeping what each step leaves as it is.
-- - metrics.js is Metrics: the label sets (LabelSets), the three instruments (Instruments), and
--   createMetrics, its request handler and instrumentRemoteCall (Metrics).
--
-- The client reads proposals through the cache, its requests through the retry loop and, if it is
-- so configured, the batcher; the waits poll through the retry loop, which is why they take a
-- read's outcome and duration as they come. Base has what the modules share: Boolean tests on
-- natural numbers, lists, JavaScript's text and numbers as far as the code uses them, and results
-- of fallible code.
--
-- Numbers: a bigint or number that the contracts return is a natural number, a fee an integer; a
-- number that a caller passes is a `Number` where the code tests it (whole, fractional, negative,
-- infinite, NaN). A clock counts whole milliseconds. Text is a list of characters; letters beyond
-- ASCII keep their case.
--
-- Loops: the loops over a list are structural. The waits and the flush recurse on rounds: a wait
-- has one round more than the milliseconds of its timeout, which is enough when the interval is at
-- least a millisecond, since each round that does not end takes one; a flush has a round for each
-- read, and takes at least one read in each. The retry loop's rounds are its attempts. The seeding
-- script's waits are of the same kind as the client's. A number that is grouped in threes, and the
-- search for a double's unit, have as many rounds as the number itself, which divides or doubles
-- something in each.
--
-- Parameters: what the network does (when a request settles, and with what), the Stellar SDK
-- (making contract values, building and preparing transactions, XDR), the wallet, the parser of
-- URLs, random numbers, the clock, dates as the platform reads and prints them (Dates, Clock), the
-- order of a locale, and the doubles of the metrics (Numbers). `Array.prototype.sort` is a stable
-- insertion sort (Base/Sort), `Number` of a bigint is rounded as IEEE 754 says (Base/Double).
--
-- Of the contracts, Sdk/Events/Published has the structs of the events that the SDK decodes, for the
-- round trip, and Frontend/Feed/Xml has a reader of XML data, for the feed's.
--
-- Not modelled: the construction of the RPC server (I/O), counts of proposals from 2^53 on, handlers of
-- a render that is no longer the latest, the storage of notifications in the browser, what the pages
-- and components render, the rest of the frontend, the contracts (Rust), the Python SDK, the other
-- scripts, and how the seeding script loads the Stellar SDK and prints.
pub mod Base
pub mod Frontend
pub mod Metrics
pub mod Scripts
pub mod Sdk
