-- ===== src/Lib.antt =====
-- The Peerplays contract node: a program that follows a Peerplays blockchain, loads contracts
-- from shared libraries, gives each an object space in the chain database, and watches what they
-- write there.
--
-- The parts. `ContractNode` (Modules/ContractNode.cpp) makes a `ChainHandler`
-- (Modules/ChainHandler.cpp), which owns the chain database and a persistence database with a
-- record of each contract, and a `P2pHandler` (Modules/P2pHandler.cpp), the delegate of the P2P
-- node of graphene, which reads the chain database and signals the blocks that arrive; a slot of
-- the node pushes them. Infra/ has the templates on lists of types that the modules declare their
-- interfaces with.
--
-- The files. Prelude: names of the libraries, Boolean tests, lists measured by native numbers,
-- machine words, failures and actions. An action takes a state to a result and a state, and the
-- state comes back beside a failure too, since a C++ exception undoes no write. P2p/BlockIds is
-- get_block_ids, P2p/Synopsis get_blockchain_synopsis, cut into its branches and its loop,
-- P2p/Exchange the two of them on two nodes, P2p/Handler the other methods, with
-- `start_sync_from` for syncFrom, and the whole delegate as one function on its calls.
-- Chain/Records has ContractRecord, the class ChainHandler and the persistence database;
-- Chain/Registry is initializeContract, getSpaceId and observeContract, with the allocation of
-- numbers to names that it carries out in Chain/Registry/Allocation; Chain/Monitor is
-- TableMonitor and MultiTableMonitor; Chain/Genesis is initialize, open, the destructor,
-- setConfigPath and the genesis state; Chain/InMemory is a persistence database, which shows that
-- what is asked of one can be had. Node/Libraries is loadPlugin, loadPlugins and
-- searchForPlugins, Node/Plugins initializePlugin and initializePlugins, with the contract of
-- ExampleContract/ in Node/Plugins/Example, Node/Dump dumpContractDatabases with Chain/Inspect,
-- which is inspectContractDatabase, Node/Blocks the slot for blocks, Node/Course/Signals
-- waitForExit, signalHandler and exit, Node/Course/Run initializeBlockchain and run. Node/Sync
-- puts P2p/ and Node/ together: a node with the slots that run connects takes the blocks of
-- another, by the calls that graphene's P2P node makes; Node/Sync/Among has other peers call as
-- well, and Node/Sync/Stuck is a node on a fork. Node/Life is the running node, a step relation:
-- the signals, the tasks of the main thread and the calls of the P2P node come in any order;
-- Node/Life/Exit is main.cpp. Infra/TypeList is Infra/TypeList.hpp; a type is a value there, and
-- an instantiation that does not compile is `none`. Infra/StaticVariant is
-- Infra/StaticVariant.hpp: its storage remembers of which type the object in it was made, so that
-- a wrong cast, a second destructor and a lost object show. Infra/Modular is WalkModuleTree and
-- FetchSubmodule of Infra/Modular.hpp, DMarcFor of Infra/Infra.hpp and the accumulator of
-- Infra/ApiManager.hpp, on trees of modules; Infra/Demarcation is MethodDemarcation of Infra/Infra.hpp. Infra/Reflect is what the macros of
-- Infra/Reflect.hpp register of a struct. Infra/Strings is SplitStringT and the equality of
-- strings in Infra/Utilities.hpp, on lists of character codes, and Infra/Api the matching of
-- advertised APIs with a query and the static allocator in Infra/ApiManager.hpp. The Tests
-- modules run the theorems at concrete inputs.
--
-- Bounds and fuel. Block numbers are `uint32_t` and wrap, as `add32` and `sub32` write out; a
-- space id is a `uint8_t`. The loop of the synopsis runs on fuel, 33 turns: each turn at least
-- halves the distance to the top, which is below 2 ^ 32; that of get_block_ids on `limit + 2`.
-- Running out of fuel is a failure of its own, so that a theorem that gives a result says that
-- the loop has ended.
--
-- Graphene, boost, the file system and the dynamic loader are parameters: records of what they
-- answer, with laws for what the code relies on. Log lines are left out but where they are what a
-- method is for, in dumpContractDatabases. Not modelled: Infra/StringT.hpp, a copy of the
-- typestring library, the operations of ApiManager, which are declared only, and
-- Infra/Environment.hpp, a class with one variable that nothing uses.
pub mod Prelude
pub mod P2p
pub mod Chain
pub mod Node
pub mod Infra
