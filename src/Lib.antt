-- ===== src/Lib.antt =====
-- A verification library for hostscore, which scans and benchmarks the hosts of the Sia network and
-- scores them: a node (cmd/hsd) keeps the database of hosts (hostdb), and a portal (cmd/hsc) collects
-- what the nodes find and serves it.
--
-- The parts and how they interact. Blocks announce hosts: updateChainState of the host store checks the
-- addresses (Net), enters the hosts and queues them for the scanner. The scanner decides how often
-- (Intervals), starts goroutines in batches, and hands each result back to the store, which keeps the
-- history and the tables. Benchmarks check prices first (Gouging) and are paid by the wallet (Wallet).
-- The portal fetches the changed records in batches, confirms them, and answers lists of hosts from a
-- cache (Cache). Every part stops by a thread group (ThreadGroup).
--
-- Files and code:
-- Prelude: shared names, Boolean tests on native numbers, lists, signed integers, strings as bytes.
-- Currency: types.Currency of go.sia.tech/core as an interface with laws; amounts are below 2 ^ 128.
-- Types: the settings and the price table of a host, by the fields of internal/utils/encoding.go.
-- Cache: cmd/hsc/cache.go. newCache, prune, getHost, getHosts and putHosts are new_cache, prune,
-- get_host, get_hosts and put_hosts; the locks make each one a step, so a run is a list of calls.
-- Cache.Bounds is about the size and the eviction, Cache.Lookup about the answers.
-- Gouging: hostdb/gouging.go, one definition per function. Gouging.Cost has the exact sector costs,
-- Gouging.Accepts the prices that pass.
-- Encoding: internal/utils/encoding.go on an interface for types.Encoder and types.Decoder.
-- ThreadGroup: internal/sync/threadgroup.go as a step relation over the calls of all threads.
-- ThreadGroup.Shutdown is about what Stop has done when it returns, ThreadGroup.Progress about its way
-- there; a registered function returns.
-- Scanner: queueScan and scanHosts of hostdb/scan.go and the ends of scanHost and of benchmarkHost
-- (hostdb/benchmark.go) on the lists, the map and the counters of hostdb/hostdb.go. A step is a
-- section under `mu`; the loops take fuel, and the length of the list is enough.
-- Intervals: calculateScanInterval (hostdb/scan.go), calculateBenchmarkInterval
-- (hostdb/benchmark.go), lastFailedScans, lastFailedBenchmarks and the test of getHostsForScan
-- (hostdb/store.go). Intervals.Streak is about the queries, Intervals.Doubling about the waits.
-- Net: internal/utils/net.go on an interface for the package net of Go.
-- Blocking: hostdb/hostfilter.go on the same interface; the store takes isBlocked as an argument.
-- Version: internal/build/version.go, for any strconv.Atoi; Version.Order is about the order.
-- Revision: updateRevisionOutputs of rhp/rhpv3.go, the payment of a host from a contract.
-- HostStore: hostdb/store.go with the types of hostdb/hostdb.go. update, updateScanHistory and
-- updateBenchmarks stand in HostStore, updateChainState in HostStore.Chain, getRecentUpdates,
-- finalizeUpdates and pruneOldRecords in HostStore.Updates. The answers of the database are
-- arguments, and the tables are lists of rows; a commit that fails ends the transaction, and the rows
-- fall back to the last commit.
-- Wallet: internal/walletutil/wallet.go: the reservations in Wallet and Wallet.Locks, the loops of
-- Fund that choose outputs in Wallet.Select, Fund itself in Wallet.Fund, and Redistribute
-- in Wallet.Redistribute, on fuel for as many rounds as outputs are missing, since each makes one.
-- WalletStore: internal/walletutil/store.go. The operations on elements stand in WalletStore,
-- applyChainUpdate and revertChainUpdate in WalletStore.Blocks, save, updateChainState, load and
-- NewDBStore in WalletStore.Saving. The tables are lists of rows in a transaction; WalletStore.Spec says
-- id by id what blocks are to do, and the modules Mirror, Loops, Refinement and Commits compare.
-- PeerStore: internal/syncerutil/store.go, with the calls of JSONPeerStore as a list with their times.
-- Portal: getHosts of cmd/hsc/database.go: Portal.Sorting is about the order of a listing, Portal.Pages
-- about its pages. Portal.Tiers is calculateAverages and calculateTiers; Portal.Tiers.Cuts is about their
-- slices, Portal.Tiers.Means about what they hold.
-- RateLimit: cmd/hsc/ratelimit.go, with the ticks of its goroutine as events among the requests.
-- Annotation: Annotate of wallet/wallet.go, Annotate of internal/walletutil/store.go and
-- relevantTransactions of internal/walletutil/wallet.go.
-- Costs: the cost of a month in cmd/hsc/score.go.
--
-- Bounds: amounts are natural numbers, and the interface of Currency says what happens from 2 ^ 128
-- on; times are nanoseconds, durations fit into 64 bits, and the codec wraps where the code does.
--
-- Not modelled: the rest of the RHP protocols (rhp) and the network exchanges of scanHost and
-- benchmarkHost; the weights of the scores (cmd/hsc/score.go) and the interactions (hostdb/hostentry.go), which are
-- floats; the signatures of announcements (hostdb/announce.go); the loading of the host
-- store; the start-up of the wallet and its signatures; SQL and HTTP glue (api, cmd, persist, external).
pub mod PeerStore
pub mod Portal
pub mod Prelude
pub mod Blocking
pub mod Cache
pub mod Currency
pub mod Types
pub mod Gouging
pub mod Encoding
pub mod ThreadGroup
pub mod Revision
pub mod Scanner
pub mod Intervals
pub mod Net
pub mod HostStore
pub mod Version
pub mod Wallet
pub mod WalletStore
pub mod RateLimit
pub mod Annotation
pub mod Costs
