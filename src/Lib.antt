-- ===== src/Lib.antt =====
-- view-limits: quota-aware dispatch. The program caches the quota status of configured routes,
-- lets a hook ask whether a dispatch may proceed, and ranks candidate models for a task.
--
-- Parts and files, with paths from the root of the repository:
--   * Gate models lib/gate.js: Gate/Decide is `decide` and `summarize`, Gate/Time is
--     `parseStrictIsoTimestamp`. A decision is a value; a message is what it is about. Instants
--     are milliseconds from the start of year 0, so that they are natural numbers.
--   * Monitor models lib/monitor-schema.js with the tables of lib/recipes/option-specs.js and the
--     regions of lib/config.js: Monitor/Validate is `validateMonitor`, Monitor/Options is
--     `validateRecipeOptions`, Monitor/Secrets the regular expressions, Monitor/Revision
--     `configRevision` and `isConfigObsolete`, Monitor/Labels `validateLabel`. The gate calls the
--     validation and the revision.
--   * Routes models lib/routes.js: `resolveRoute` finds the route that the gate is asked about.
--   * Eligibility models lib/eligibility.js: Eligibility/Inputs is what `evaluate` reads,
--     Eligibility/Checks its checks in their order, Eligibility/Verdict the result and its reasons.
--   * Score models lib/score-candidates.js: Score/Facets and Score/Scorers are the six scorers,
--     Score the candidate's score and the ranking; a scorer that throws gives none.
--   * Scheduler models lib/dashboard/scheduler.js: the variables of `createScheduler` as a record,
--     a call, a tick of the timer or the settling of a collection as an event.
--   * Lock models lib/lock.js: Lock/Contender is one call of `acquireMutationLock`, Lock/System any
--     number of them over one directory, interleaved in any order; a file access is one step, a
--     ticket may fail to be read or parsed and then counts as number 0, and processes die and pids
--     are used again between any two steps. Lock/Within is
--     `acquireMutationLockWithin`. lib/refresh-owner.js runs the same protocol.
--   * Profile models lib/task-profile.js: Profile/Build is `buildProfile` and `fallbackProfile`,
--     Profile/Response `validateClassifierResponse`.
--   * Readiness models lib/jev-readiness.js and Jev lib/jev-client.js: `evaluateReadiness`,
--     `classify`, `verifyModelSupport`.
--   * Recommend models lib/recommend.js, which composes Readiness, Jev, Profile, Eligibility and
--     Score; Recommend/Candidates is what becomes of each candidate, Recommend/Outcome the advice.
--   * Effective models lib/effective-config.js: `resolveEffectiveConfig`, with Effective/Recipes for
--     lib/recipes/index.js and Effective/Hosts for the hosts of regions in lib/config.js. It calls
--     the validation, the revision and the classification of Monitor.
--   * Cache models `attachRevisions` of lib/cache.js, which writes what the gate reads back;
--     Cache/Entry models `readCache`, `recoveryBoundedFreshUntil` and `isFresh` of the same file and
--     `entryFor` of lib/collector.js, with Dates for what the engine does to dates.
--   * Collector models the rest of lib/collector.js: Collector/Plan is `planRoutes` and the effects
--     of `resolveDeps`, by what they answer, Collector/Fetches the fetches and the Xiaomi session,
--     Collector/Passes the two passes, Collector/Collect `collect` with the document of `writeCache`,
--     Collector/View `classifyNative`, `applyNativeVerdict` and `collectView`. It calls Cache, the
--     validation of Monitor and the recipes of Effective; the gate reads what it publishes. A throw
--     of `collect` is none.
--   * Facts holds the facts that eligibility and scoring read; Value the JavaScript values; Base
--     numbers, texts, lists and sorting; Examples the concrete inputs.
--   * Registry models lib/capability-registry.js: the interface that eligibility and scoring take,
--     Registry/Build `createRegistry`, which refuses a document by giving none, and
--     Registry/Entries the built-in entries.
--
-- Parameters stand for what the source does not define: Engine for `toLowerCase`, Printer for
-- `String(v)`, Clockwork for `Date.parse` outside the ECMAScript format (inside it, Gate/Time writes
-- out what the language prescribes), Dates for dates and for the arithmetic of a time to live that
-- is not a natural number, Url and Locator for the URL parser, Hash for the hash of a text, Digest
-- for the hash of a JSON text, Json for `JSON.parse`, an Answer for what a transport gives, World
-- for the clock and the attempts that wait for the lock. Documents are finite JSON values, so every
-- loop is structural recursion; a repeated key reads as its first occurrence. Only the loop of
-- `acquireMutationLockWithin` has fuel: one attempt for each millisecond to the deadline is enough.
--
-- Not modelled: `mergeEntries` and the tables of summaries; files, processes, sockets, key chains,
-- HTTP adapters, the command line and the page, since they are input and output; the wrappers of
-- `observeNative`, the provider lifecycle and the view model; the English texts of messages and
-- summaries; the request document of the classifier; a `providers` of the configuration that is
-- there but is not an object.

pub mod Base
pub mod Value
pub mod Facts
pub mod Registry
pub mod Eligibility
pub mod Routes
pub mod Monitor
pub mod Gate
pub mod Lock
pub mod Profile
pub mod Readiness
pub mod Jev
pub mod Score
pub mod Scheduler
pub mod Effective
pub mod Cache
pub mod Collector
pub mod Recommend
pub mod Examples
