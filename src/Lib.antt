-- ===== src/Lib.antt =====
-- actions-runner-scaleset-proxmox: a Go orchestrator that keeps a pool of Proxmox VMs ready to run
-- GitHub Actions jobs, as definitions that follow internal/ and theorems about them.
--
-- How the parts interact. The in-memory table of VMs (internal/store) is the shared state. The pool
-- manager (internal/pool) claims, completes, destroys, recycles and clones VMs by transactions of that
-- table; the scaler and the admin API call its handlers, and the GitHub reconciler (internal/gh)
-- compares its rows with what GitHub and Proxmox report and calls it to promote or to destroy. Small
-- packages decide without the table: the addresses of clones (internal/ipam), caps per repository
-- and organisation (internal/quotas), the class of a job (internal/priority), the profile for its
-- labels (internal/router) and the template of a clone (internal/canary). A clone is admitted against
-- the capacity of its node by a ledger of reservations (internal/nodecap), which knows the VMs of the
-- pool by their tags (internal/tags). The configuration (internal/config) is checked once, before the
-- parts are built from it.
--
-- What stands where:
--   Prelude           tests, lists, finite sets, Go maps as association lists, signed integers, the
--                     loop that keeps a first best element, texts as code points, 64-bit integers,
--                     chains of checks that end at the first error
--   Store             internal/store: State, PoolKind, Vm; Store.Table the indexes of schema.go and the
--                     interface to go-memdb; Read, Write and Acquire the methods of store.go
--   Store.*           their laws: Validity, Transitions, Guards, Lookup, Rows, Claims, Capacity, Bursts,
--                     and Steps for the interleavings of transactions
--   Store.Model       a plain map from VMIDs to rows, which the store implements
--   Pool.Sizing       computeCloneNeeds and burstDeficit
--   Pool.Config       ProfileSettings, normaliseProfiles, profileOf, defaultProfile
--   Pool.Parked       drainEvicted, claimParked, parkAll (internal/pool/capacity.go)
--   Pool.Eviction     fitsNode, planEviction, startEviction (internal/pool/capacity.go)
--   Pool.Adoption     classifyAdoption, adoptOne
--   Pool.Handlers     SetRunnerID, StampJobMetadata, MarkRunning, PromoteToRunning, ForceDestroy,
--                     Preempt, MarkCompleted, shouldRecycle
--   Pool.Sweeps       shrinkHotPool, shrinkWarmPool, recycleOldVMs, sweepStuckRows, promoteN
--   Pool.Vmids        allocateVMID, allocateVMIDAndInsertRow
--   Pool.Targets      SetDesiredCount, SetTargetSizes
--   Pool.Workers      the writes of runClone, runBootInline, markPoisonOrDestroy, handleCloneFailure,
--                     rollback, fallbackDestroy and destroy
--   Pool.DestroyQueue destroyAsync, destroyDispatcher, drainDestroyQueueLocked, the drain gate
--   Nodecap           internal/nodecap: the ledger of Accountant, fetch, ReserveFreeing, Bind, Release,
--                     Fits, Snapshot
--   Nodeselector      internal/nodeselector: the single and round-robin selectors, the affinity and capacity
--                     wrappers
--   Tags              internal/tags: Encode, Decode, Initial and the owner, profile and template tags
--   Gh                internal/gh: ghStateLabel, stateTransitionTable, applyMatrix, sweepProxmoxOrphans;
--                     Gh.Listing listRunnersByPrefix, Gh.Registrations cleanupOrphanRunners
--   Config            internal/config: the checks of Validate for scale sets; Config.Profiles those for
--                     profiles, Config.Fields those for single fields, Config.Startup Validate itself,
--                     Config.Defaults normalizeScalesets, Config.Resolve resolveProfiles
--   Config.Routing    routerForScaleset of internal/app, with internal/router
--   Config.Schedules  scheduleRunnerForScaleset of internal/app, with internal/schedule
--   Schedule          internal/schedule: NewRunner, replayActiveAtStartup, nextFireAfter, handleFire,
--                     handleExpire
--   Ipam              internal/ipam: NewStatic, Allocate, Release
--   Quotas            internal/quotas: Validate, New, Resolve
--   Priority          internal/priority: New, Classify
--   Router            internal/router: New, Route, CoverageGaps
--   Canary            internal/canary: Pick, RecordClone, RecordFailure, Promote, hashMod100
-- Runs and instances of the theorems stand in the Examples module of each part.
--
-- State and concurrency. Each method of the store is one write transaction of hashicorp/go-memdb: a
-- function from the table to the table that it leaves and a result. Concurrent callers are sequences
-- of such transactions (Store.Steps.Step). A handler that reads the table and writes it later takes two
-- tables, and a loop that writes rows one by one takes the transactions of the other goroutines
-- between its writes (Pool.Sweeps.Others). Effects other than writes, such as a queued destroy, are
-- values that a definition returns.
--
-- Parameters. go-memdb is Store.Table.Memdb: lookup by VMID, iteration over an index, replacing insert
-- and delete, with the laws that its documentation gives; Store.Sample.list_db is a list that obeys
-- them. Outcomes of Proxmox and GitHub calls, the clock, IsRecentlyDestroyed of the provisioner and
-- the semaphore are arguments; so are the cached snapshots and the float64 products of internal/nodecap,
-- whether a cron expression parses, and the checks of validateStruct. The float64 comparison of
-- internal/canary is a field of its state.
--
-- Numbers. VMIDs, ids, counts, sizes and times are natural numbers, with 0 for an unset field and for
-- Go's zero time; differences that may be negative are integers. Go's 64-bit range is not reached by
-- such counts; the 32-bit stores of the live targets, the 64-bit hash and the byte counts of
-- internal/nodecap keep their wrap-around. Fuel is the length of the VMID range in Pool.Vmids, which is
-- all that the loop visits, the tries and pages that listRunnersByPrefix allows itself, and
-- the span of time that replayActiveAtStartup looks back over.
--
-- What is not modelled: calls of the Proxmox and GitHub APIs and the HTTP, Raft, metrics and tracing
-- code around them (internal/provisioner, internal/adminapi, internal/cluster, internal/observability,
-- internal/githubauth, cmd, and internal/app but for what is named above), since they are I/O and
-- wiring; the YAML and environment decoding of internal/config, by third-party packages and reflection,
-- its defaults outside the scale sets, and the checks of time knobs in Resolve; logging. The waiting of
-- the schedule loop, the least-loaded node selector, internal/scaler and the search for nodes in
-- internal/pool/capacity.go are not modelled either.
pub mod Prelude
pub mod Store
pub mod Pool
pub mod Nodecap
pub mod Nodeselector
pub mod Tags
pub mod Gh
pub mod Ipam
pub mod Quotas
pub mod Priority
pub mod Router
pub mod Canary
pub mod Schedule
pub mod Config
