-- ===== src/Lib.antt =====
-- The state and the wire formats on which NIL VPN's guarantees rest. The program is a set of
-- services and their clients: the Portal keeps accounts and issues blind-signed tokens, the
-- Coordinator redeems a token for a grant to use some nodes, a node checks the grant and opens a
-- tunnel, and the client's datapath frames packets for that tunnel. What is modelled is the code
-- that decides: who is granted what, how often, and until when.
--
-- Files and the code that they model, by paths from the repository's root:
-- - Redemption (crates/nil-coordinator/src/nullifier.rs): the nullifier ledger. Redemption.Cipher is
--   `ReplayCipher`; Redemption.Record is `StoredRecord`, `CommitOutcome`, `validate_commit` and
--   `live_outcome`; Redemption.Memory is `MemoryNullifierStore` with all its methods. The theorems
--   are in Memory.Spent, Memory.Replay and Memory.Prune.
-- - Grant (crates/nil-core/src/grant.rs): roles, identities, audiences and errors. Grant.Wire is
--   `mint`, Grant.Parse is `parse`, Grant.Verifier is `GrantVerifier` and the two verification
--   functions, Grant.Names and Grant.Hex the names and the hex codec; Grant.Roundtrip, Canonical,
--   Checks and Trust hold theorems.
--   Grant.ReplayCache is `GrantReplayCache` of crates/nil-node/src/grant_replay.rs.
-- - Node.Pool (crates/nil-node/src/pool.rs): `AddressPool`, the inner addresses of a node.
-- - Node.Retry (crates/nil-node/src/retry.rs): the tokens by which a node checks a client's address.
-- - Portal.Account (crates/nil-portal/src/account/model.rs), Portal.Payload
--   (crates/nil-portal/src/store/mod.rs) and Portal.Store (crates/nil-portal/src/store/memory.rs):
--   accounts, activations, issuance results and mint batches with their quotas. Portal.ResultCipher
--   and Portal.Columns are `ResultCipher` and the key columns of store/mod.rs; Portal.RateLimit is
--   crates/nil-portal/src/ratelimit.rs.
-- - Transport.ConnectIp (crates/nil-transport/src/connectip.rs): CONNECT-IP datagrams and QUIC
--   variable-length integers.
-- - Transport.UdpIp (crates/nil-transport/src/udpip.rs): IPv4 and UDP around an inner packet, with
--   the checksums of Core.Checksum (crates/nil-core/src/checksum.rs); Checksum.Receiver is what a
--   receiver checks, by the RFCs.
-- - Transport.Cascade (crates/nil-transport/src/cascade.rs): the order in which transports are
--   tried, and the sessions of the transport over it. What a transport and the liveness probe answer
--   is part of a rung.
-- - Transport.Selector (crates/nil-transport/src/selector.rs): the rungs that the verdict of the
--   network probe puts first, and the transport over the cascade of them.
-- - Crypto.Translog (crates/nil-crypto/src/translog.rs): the proof that a measurement is in a
--   transparency log. Translog.Tree is the log's Merkle tree, which the code only knows by its root;
--   Climb, Complete, Sound, Checkpoint, Logged and Codec hold theorems.
-- - Coordinator.Registry, Coordinator.Validation and Coordinator.PathSelection
--   (crates/nil-coordinator/src/pathsel.rs, with the types of crates/nil-proto/src/path.rs): the nodes,
--   the checks of a registry file, and the choice of a path. PathSelection.Diverse says what a path
--   is, and Found, Shuffle and Select hold theorems.
-- - Coordinator.RateLimit (crates/nil-coordinator/src/ratelimit.rs): the limiter of redemptions.
-- - Prelude: shared lists, dictionaries, words, slices and results.
--
-- How the code is written here. A method that takes a lock for its whole body is a function from the
-- state and its arguments to its answer and the next state, so a history of concurrent calls is a
-- list of calls; time is an argument of each call, and histories may take any times. A `HashMap` is
-- an association list of which only lookups, insertions, removals and the length are used. Integers
-- are natural numbers with the wrap-around, saturation or checked addition of the source written
-- out. Bytes are natural numbers; where a theorem needs them below 256 it says so.
--
-- Parameters. AES-256-GCM is the record `Aead` and Ed25519 with SHA-256 the record `Crypto`, with
-- the documented laws `IsAead` and `IsCrypto`: lengths, and that what was sealed opens and what was
-- signed verifies. No law says that a forgery fails. The random nonce of a seal is an argument.
-- The transparency log takes SHA-256, Ed25519 and Base64 as the record `Primitives`, and the retry tokens SHA-256; where two byte
-- strings with one hash would break a claim, the theorem's other alternative is that collision.
--
-- Loops are structural recursion. The search of the address pool takes the number of addresses as
-- its rounds, which is the bound in the source; the prune of the replay cache recurses on its heap,
-- which is a list in order of expiry. The fold of the carries of a checksum has two rounds as its
-- fuel, which is enough for every 32-bit sum, and `halvings` and `decimal` have the number itself,
-- which is more than its digits. The search for a path has the number of hops as its fuel, one for each nested call.
--
-- Not modelled: the network and file layers, the Postgres and file stores, attestation, the
-- operating-system datapaths, the client application, configuration and logging.
pub mod Prelude
pub mod Coordinator
pub mod Core
pub mod Crypto
pub mod Grant
pub mod Node
pub mod Portal
pub mod Redemption
pub mod Transport
