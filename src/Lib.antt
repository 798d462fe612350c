-- ===== src/Lib.antt =====
-- Chainpoint Core: the services that keep proof state and generate proofs.
--
-- Hashes come in through the API service and are aggregated; the aggregator, the calendar and the
-- Bitcoin services then publish what each step of anchoring has produced. The proof state service
-- consumes these messages, stores them in five tables of a database with a Redis cache in front,
-- and announces the hashes whose proofs can be built. The proof generation service consumes the
-- announcements, joins the stored paths and stores the proofs, which the API serves.
--
-- Files and the code that they model:
--
--   World, World/Ops, World/Calls: what the handlers read and write. The tables are those of
--     node-lib/lib/models/{AggState,CalState,AnchorBtcAggState,BtcTxState,BtcHeadState,Proof}.js.
--     A JSON text in a column or in the cache is the value that it stands for. Each external call
--     takes its outcome from a list in the world: it is done, refused without effect, or lost,
--     that is, it takes effect and the caller still sees an error. One SQL statement, and one
--     MULTI of Redis, is one call.
--   Exec: async functions that may throw, over a state that keeps what was written before a throw;
--     Exec/Keeps, Exec/Succeeds, Exec/Ensures and Exec/Steps: rules for what such functions do to
--     the state, when they return, what they return, and how they go on.
--   CachedState, with Tables (SQL statements), Cache (Redis commands with expiry), Cached (which
--     table and which cache belong together), Bulk and Single (the bodies that the source repeats
--     for each table): node-lib/lib/models/cachedProofState.js, its functions under their own
--     names (getCalStateObjectsByAggIdsAsync is get_cal_state_objects_by_agg_ids). Below it
--     Insert, Contents, Laws, Write, Frame, Healthy, Lookup, Read, Coherence and Failures prove.
--   StateService, with Messages and Batches: node-proof-state-service/server.js. Below it Settled,
--     Complete and Acks prove.
--   GenService, with Build: node-proof-gen-service/server.js and node-lib/lib/models/Proof.js.
--     Below it Verify and Settled prove.
--   UsageToken, with State, Calls, Replies, TokenUtils, StatusRequest (coreStatusRequestAsync) and
--     Checks: node-api-service/lib/endpoints/usage-token.js, node-api-service/lib/token-utils.js,
--     node-lib/lib/models/ActiveToken.js, hasMemberIPAsync of StakedCore.js (postTokenRefreshAsync
--     is post_token_refresh). A check takes what follows it as an argument; Replies has what the
--     handlers answer. Below it Silent, Frame, Inversion, Refresh, Audience, Credit, Granted and
--     Recovered prove.
--   BtcMon: node-btc-mon-service/server.js. A hex text is the list of its pairs of characters.
--     Below it InBlock, Confirmed and Progress prove.
--   Hashes, with Response: node-api-service/lib/endpoints/hashes.js (postHashV1Async is
--     post_hash), over the checks of UsageToken. Below it Frame, Inversion, Accepted, Hints,
--     Activated and Retired prove.
--   BtcTx, with Numbers: node-btc-tx-service/server.js. Below it Fee, Sending, Settled and Resent
--     prove.
--   Endpoints: node-api-service/lib/endpoints/{calendar,status}.js, with Rpc:
--     lib/tendermint-rpc.js, Peers: endpoints/peers.js, Nodes: endpoints/nodes.js, and Proofs:
--     endpoints/proofs.js, over the table that GenService writes. Below it Answers, Candidates,
--     Listed, Upserted and ReadBack prove.
--   Pipeline: the state service, the generator and the proofs endpoint over one database. Its
--     Consistent, Keeping and Handlers state what holds of the database at all times, and Run has
--     the steps of the system and what can be reached by them; Reads, Distinct, Batch, Row,
--     Sequence, Calendar and Covered follow a hash through a quiet run, and Whole joins them.
--   Eth, with Stats: node-api-service/lib/endpoints/eth.js. Below it Broadcast, Allowed and
--     Failing prove.
--   Connections: node-lib/lib/connections.js, its loops over how each attempt goes; Events: the
--     events of a service's connections as steps of a system. Below it Opened, Reconnected, Timed
--     and Kept prove.
--   Services: the services by the callbacks that they pass to connections.js, which are in the
--     Links of StateService, GenService, BtcMon, BtcTx and ApiServer, with each start. Below it
--     Laws and Linked prove.
--   ApiServer: node-api-service/server.js, its routes and its start. Below it Started proves.
--   Utils, with Ip and Ops: node-lib/lib/utils.js, with its regular expressions as functions on
--     the codes of a text. Below it Unanchored proves, and Ops too.
--   Cli: cli/init.js, cli/register.js and their scripts. Below it Registered proves.
--   ParseEnv, with Validators: node-lib/lib/parse-env.js. Below it Defaults proves.
--   Tests: runs, and the theorems at concrete inputs.
--
-- Bounds and fuel: a splice loop runs once for each batch; batches takes the length of the list as
-- fuel, which is at least the number of rounds, since each round with a positive size removes an
-- item; decimal takes a number as the fuel for its digits. Every other recursion is structural.
-- Numbers are unbounded: they are times, heights, confirmations, the claims of a token and the
-- amount of a purchase, which is below 2^53 where it is read.
--
-- Parameters: the network setting, the time in a version 1 UUID and the JSON schema of proofs
-- (GenEnv); the digests of a proof's verifier (Hashing); packages jsonwebtoken, node-jose, crypto,
-- uuid and ethers, and the status that another Core gives (TokenEnv, EthEnv), or the answers to
-- HTTP requests and package async-retry (StatusSource); the mode, the local time and the digest of
-- an answer's id (HashEnv); the Tendermint client, its encodings and the draw of random Nodes
-- (RpcClient, NodesEnv); package ethers, the contracts and what the providers answer (Ethers);
-- JavaScript's coercion of a text to a number, and envalid's validators; the numbers of JavaScript
-- that a fee is computed with, and the wallet (Doubles, TxEnv); the answers of the Bitcoin
-- providers and the Merkle tree over a block's ids (MonEnv). Ids are texts that are only compared.
--
-- Not modelled: interleavings of two handlers of one service at their awaits (each handler runs
-- alone over the world, with arbitrary outcomes of its calls); the texts of the errors that the
-- endpoints for tokens, hashes, proofs, Nodes and Ethereum answer; a channel that closes while a
-- handler runs; logging; the promises that order the start of the API; a cache entry of another
-- type at a key, a row whose JSON text is damaged, or a message whose JSON is not an object; the
-- text form of a date; a calendar transaction without data; a numeric claim of a token, or a
-- setting, that is a fraction, a numeric or empty text, an array or an object; the questions of
-- the command line tools and what they display, and the ABCI service.
mod Prelude
pub mod Exec
pub mod World
pub mod CachedState
pub mod StateService
pub mod GenService
pub mod UsageToken
pub mod BtcTx
pub mod BtcMon
pub mod Utils
pub mod Hashes
pub mod Endpoints
pub mod Pipeline
pub mod Eth
pub mod Connections
pub mod ApiServer
pub mod Services
pub mod Cli
pub mod ParseEnv
mod Tests
