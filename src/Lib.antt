-- ===== src/Lib.antt =====
-- Models of the core of Trytet, a Wasm agent engine, with the theorems that make it correct.
--
-- The engine runs sandboxed agents (tets) that pay for their execution in fuel. Modelled are the
-- parts that keep the engine's books and decide: who owns how much fuel, which voucher and which
-- proposal counts, what an execution starts from and leaves, what a guest may ask of its host, what
-- it remembers, and which parts of a long session an agent's model still sees.
--
-- Economy    what fuel is worth and who has it.
--   Economy.Registry    src/economy/registry.rs. `VoucherRegistry` is the record of the three
--                       locked fields; `mint` and `transfer` are functions on it. `transfer` keeps
--                       the lock on the nonces to its end, and so it is one step. Its four
--                       numbered checks are the tests of `transfer`, `verify_and_settle` and
--                       `settle`, in the same order.
--   Economy.Vouchers    src/economy.rs. `VoucherManager.verify_and_claim`, split at its lookups;
--                       the clock is an argument.
--   Economy.Bridge      src/economy/bridge.rs. `process_deposit` asks the chain's listener, then
--                       Consensus, then mints through Economy.Registry.
--   Economy.Crypto      what the two above use of ed25519 and of hexadecimal texts, as records of
--                       parameters.
-- Consensus  src/consensus.rs, the majority rules that the bridge and the hive's aliases use.
-- Context    src/api/context: `models.rs` and `estimator.rs` as the modules of the same names, the
--            router of `router.rs` as Context.Router: hydration, the truncation rule, the three
--            eviction strategies and the loop. The floating-point operations are a record of
--            parameters.
-- Fortress   src/fortress.rs, the bandwidth quotas of tenants and the identity headers.
-- Vitality   src/network/vitality.rs, the liveness of the nodes of a hive.
-- Mesh       src/mesh.rs and its types of src/models.rs: the aliases of running tets and the
--            telemetry of their calls.
-- Hive       the teleportation of a tet: src/teleport.rs splits a snapshot into chunks and
--            src/hive/connection.rs puts them together again. Hive.Teleport has the whole departure,
--            with its permission and its two ways, and Hive.Commands each command of a connection,
--            with the peers of src/hive.rs and the parts of the node that it reaches. Hive.Departure,
--            Hive.Arrival and Hive.Resumption are about the two ends. It uses Sandbox, Mesh,
--            Vitality and Market.
-- Worker     src/mesh_worker.rs, the loop that runs calls and forks in Sandbox and answers them.
-- Builder    src/builder.rs and the request of src/resurrection.rs: the building of a signed
--            artifact, its check and loading.
-- Oci        src/registry/oci.rs, the client of a registry of artifacts and of states. The registry
--            is a record of operations with their laws.
-- Artifacts  the rest of src/registry: the content-addressed store with its eviction and the quorum,
--            and in Artifacts.Files the local registry and the cache of blobs.
-- Auth       src/auth.rs, API keys and the middleware that asks for them. Auth.Ledger is a ledger of
--            the keys issued, which Auth.Revocation and Auth.Access hold the key store against.
-- Api        src/api.rs and src/api/handlers/all.rs, the HTTP interface: the state of a node as its
--            handlers see it, the handlers that keep or change it, and the protected routes behind
--            Auth. Its handlers use Sandbox, Hive.Teleport and Artifacts.
-- Sandbox    src/sandbox/sandbox_wasmtime.rs, the engine around a run: the voucher that pays for it,
--            the snapshot that it starts from, what is stored, and the snapshots. The run itself
--            (`execute_inner`) is a parameter. It uses Economy.Vouchers and Mesh.
-- Engine     the types of src/models.rs and src/models/manifest.rs that the parts exchange, and the
--            classification of traps of src/sandbox/sandbox_wasmtime.rs.
-- Calls      src/sandbox/host_api, a function for each host call, in a monad of the caller's state
--            with traps and panics: Calls.Payments (pay, bill, withdraw, fork, reclaim),
--            Calls.Network (fetch, invoke, listen, migration, equilibrium, suspend, predict),
--            Calls.Models (memory and inference), Calls.Components (cartridges). Calls.Sequences
--            has a value for each call (`register_all`) and any number of them. Calls.Burning,
--            Calls.NetworkFuel, Calls.ModelFuel and Calls.Fuel follow the fuel of the caller;
--            Calls.Charges and Calls.Settlement are about its payments.
-- Cartridge  src/cartridge.rs, the cache and the metered run of cartridges.
-- Memory     src/memory.rs and src/shards.rs, the layers of a guest's vector memory: what is stored
--            in Memory, the search in Memory.Search.
-- Gateway    src/gateway.rs, the routes to tets and the proxy to other nodes.
-- Market     src/market.rs, the bids of a hive and the search for the cheapest.
-- Mcp        src/mcp, the tools offered over JSON-RPC: Mcp has the tools and the loading of their
--            cartridges, Mcp.Requests the calls and their answers, Mcp.Lines the loop that reads
--            lines. It uses Sandbox and Cartridge.
-- Jail       src/sandbox/security.rs, the joining of guest paths, and the watchdog.
-- Guest      the linear memory of a guest, as host calls see it: `validate_range` of
--            src/sandbox/sandbox_wasmtime.rs and src/sandbox/host_api/helpers.rs.
-- Prelude    what all share: tests, lists, hash maps, sets as lists, big-endian bytes.
--
-- Numbers. An unsigned integer of the source is a natural number; where the source adds, the model
-- keeps the wrap-around of a release build (`% 2 ^ 64`) or the saturation that the source asks for.
-- A subtraction stops at 0. A byte sequence is a list of numbers, as is a text where its bytes
-- matter; an `i32` is held as its bits.
--
-- Concurrency. An operation that holds a lock, or one entry of a concurrent map, is one step. A
-- history is any sequence of steps, and so any interleaving of the callers.
--
-- Loops and fuel. Loops over a list are structural. The eviction loop of the router runs on fuel,
-- one more than the number of blocks, where each round removes a block; cutting a snapshot into
-- chunks runs on as much fuel as there are bytes, where each round takes one at least, and so does
-- the loop of the MCP server over its input, with one more.
--
-- Maps. A hash map is an association list. Where the source iterates, the order of the list stands
-- for the order of the iteration; where the iteration chooses what is changed, as in the revocation of
-- a key, its order is an argument.
--
-- Parameters. A record of parameters stands for each library that a part uses: ed25519, hexadecimal
-- texts, floating-point numbers, wasmtime, JSON, the nearest-neighbour index, the paths of the host
-- and the network. Their laws are fields of the record, where a theorem needs one.
--
-- Not modelled: the Wasm runtime and what execute_inner does to it, the network stack, the console
-- and the handlers that only pass a request on, the files of memory layers with their reference
-- counts, and the inference backends, which are mostly input and output around the parts above.
pub mod Api
pub mod Artifacts
pub mod Auth
pub mod Builder
pub mod Calls
pub mod Cartridge
pub mod Consensus
pub mod Context
pub mod Economy
pub mod Engine
pub mod Fortress
pub mod Gateway
pub mod Guest
pub mod Hive
pub mod Jail
pub mod Market
pub mod Mcp
pub mod Memory
pub mod Mesh
pub mod Oci
pub mod Prelude
pub mod Sandbox
pub mod Vitality
pub mod Worker
