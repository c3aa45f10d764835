-- ===== src/Lib.antt =====
-- A model of smap, the memory tiering component of ubturbo, in plugins/smap/src: user-space code that
-- decides which pages of a process go between local and remote NUMA nodes, and the kernel table of
-- migration tasks. Functions keep the source's names in snake case.
--
-- Errno: the return values of the C functions; `done` is 0 and `fail e` is -e.
--
-- Strategy: plugins/smap/src/user/strategy/separate_strategy.c.
--   Actc, the page data of user/manage/manage.h; Threshold, `FindThreshold`; Collect, the passes
--   `CollectPages4K` and `CollectPagesVm`; Select, `BuildSelectKMlistAddr`, `BuildPairMlist`,
--   `FreeMlist` and `PairMigrationStrategy`; Swap,
--   `CalLowMigrateNumByBuckets` and `CalcSwapNum`. A call gets the parameters that it only reads as
--   `Params` and returns its status beside the new `Work`: the scan data of each node, the migration
--   lists and the offsets. A buffer of a list is the list of the positions written to it; the zeros
--   that `calloc` left behind them are not read. Arrays indexed by node, bucket or priority are
--   functions, read within the bounds of the source.
--
-- Result: the value beside a return value 0, or the error. Prelude.Words: C words; an `int` stands as
-- its bit pattern below 2 ^ 32. Limits: sizes of arrays.
--
-- `Plan` is plugins/smap/src/user/strategy/migration.c, the plans of the pairs.
--   Types, a plan, the budgets and `FindPairPidBudget`; Snapshot, `CollectNodeFreeSnapshot`; Build,
--   `BuildPairPlans`; Swap.Count, `CountPairSwapPages`; Swap.Build, `BuildPairSwapPlans`; Apply,
--   `ApplyPairPlansForState`. The plans and accounts that the source changes in place are returned
--   anew; with an error the caller keeps its own.
--
-- Migration: the message in migration.c.
--   Message, an entry and `GetMigListSuccessPages`; Threads, `BuildSubMigrateMsgs`,
--   `AggregateSubMigResults` and `AggregateSubThreadRet`; Accounts, `UpdateMigResult` with
--   `UpdateGroupedMigrationResult` of user/strategy/grouped_strategy.c; Compensation,
--   `BuildGroupedSwapCompPlans`; Send, `AddMigList`, `DecideThreadNum` and parts of the compensation.
--
-- Tasks: plugins/smap/src/tiering/ham_tasks_mgr.c, the table of migration tasks; each function that
-- runs under the lock is one step.
--
-- Pair: plugins/smap/src/user/manage/manage_pair.c, over lists of nodes.
--   Distribute, `DistributePairRequestPages`; Requests, `BuildEffectiveRemotePages` and
--   `PreservePairAccounts`, the second for one remote node; Allocate, `AllocateRemotePairRequest`;
--   Account, `CalibratePairAccount` for one remote node, with `RebuildPairAccount` and
--   `DistributePairAccount`. The targets that come out are those that `Plan` works towards.
--
-- Slots: plugins/smap/src/user/manage/manage.c, the slot of a managed process, whose reference count
--   keeps its attributes alive. Every access to an atomic variable is a step of its own, in any
--   order; the threads at the same place of the code are counted. The search for the slot of a
--   process among all slots is not modelled, nor is what is read through the slot. Refinement is the
--   abstract life of a process.
--
-- Rpc: the remote calls, src/smap. Bytes, the layout of a struct as an interface and little-endian
--   integers; Buffer, `TurboByteBuffer` with the allocator and `memcpy_s` as a parameter; Requests,
--   Tracking, Replies and Queries, the codecs of smap_handler_msg.cpp; Client, client/smap_client.cpp;
--   Server, the handlers of server/turbo_module_smap.cpp. An encoder is a list of pieces that are
--   copied in turn into memory with what lay there before; a decoder reads at offsets, and a read or
--   write through a null pointer is a result of its own. The functions of the library that a handler
--   calls are arguments that change a state. The transport of src/ipc is an argument: `Delivers` says
--   what is assumed of it, that it carries bytes of up to 32 MB with its header both ways.
--   An `int` is its bit pattern, widened with its sign where the source multiplies it by a size.
--
-- Strategy gives the migration lists that a message carries; Plan decides the page counts that
-- Strategy's `Params` holds; Migration takes back what the kernel did with the lists.
--
-- What the code gets from elsewhere is an argument: whether an allocation succeeds, `qsort`, the
-- processes that a lookup finds, which nodes are forbidden, read as constant during one call, what
-- the kernel writes back, the time. Outside Rpc, `memcpy_s` and
-- `memset_s` within their bounds succeed. Machine
-- words wrap where the source computes them; counters of a loop over an array stay below its length
-- and do not. Loops are structural or run on the number of rounds of the source; the outer loop of
-- `CountPairSwapPages` has 257 rounds, two more than the distance of the two ends of its buckets,
-- and each round brings the ends closer or empties a bucket.
--
-- Logging, files and ioctls are not modelled, and threads and locks only in Slots; nor are the kernel
-- drivers, which drive hardware and page tables, and the other services and plugins of the daemon.
pub mod Errno
pub mod Limits
pub mod Migration
pub mod Pair
pub mod Plan
pub mod Prelude
pub mod Result
pub mod Rpc
pub mod Slots
pub mod Strategy
pub mod Tasks
