-- ===== src/Lib.antt =====
-- DNSLeaf: a DNS server that blocks names, caches answers and forwards queries, with a web panel.
--
-- The parts and the files that model them. Go source names a method of `DNSLeaf` or a function of the
-- file; a path is from the root of the repository.
--
-- A query comes to `resolveDNS` (dns_server.go), modelled in Resolver.antt: one function per stage, in
-- the order of the source (portal, rate limit, access policy, disabled resolver, safe search, decision,
-- configured records, cache, upstreams). The state of a query is the record `State`: the counters, the
-- clients, the cache, the tables of hits and a log of events, one for each call of `addLog`. The
-- configuration, the rules and the unhealthy upstreams are read only (`Rules`), as under the read lock
-- of the source. `World` holds the libraries, the network
-- and the orders of iteration.
--
--   Messages, Deps    packages dns, net and regexp, as records of functions
--   Config            the structs of main.go
--   Rules             rules and patterns: blocklists.go, 168 to 285
--   Gravity           the sorted array of remote domains and its indexes: blocklists.go, 588 to 630
--   Blocklist         `parseBlocklist`, `parseBlocklistLine` (blocklists.go)
--   Blocking          the blocked rules and their sources: blocklists.go, 570 to 663
--   Schedule          timed rules: `scheduledDecisionLocked`, `scheduledRuleActive`, `parseClock`
--   Addresses         `normalizeClientIP`, `ipInList`, `isLANIP`, `clientAllowed` (dns_policy.go)
--   Decision          `blockDecision` and the profiles: blocklists.go, 670 to 844
--   Answers           blocked, safe search, override and local answers (dns_policy.go)
--   Cache             `getCached`, `setCache`, `messageCacheTTL`, `decrementMessageTTL` (upstream.go)
--   Upstream          `forward` and the health of upstreams (upstream.go)
--   RateLimit         `rateLimited`, `noteAnomaly`, `capTimeHitMap` (dns_policy.go)
--   Clients           `addStat` (main.go), `trackClient` (dns_policy.go)
--   Resolver          `resolveDNS`, `cacheKeyForMessage` (dns_server.go)
--   Auth.Login        the limit on failed logins (runtime_api.go)
--   Auth.Sessions     sessions and `requireAuth` (auth.go), `handleLogin` (runtime_api.go)
--   Auth.Users        `handleUsers` (runtime_api.go)
--   Checks            addresses, DNS names and IP ranges (config.go, dns_policy.go); Checks.Records
--                     `validateRecord`, Checks.Endpoints `parseUpstreamEndpoint`
--   Validate          `validateConfig` and `migrateConfig` (config.go); Validate.Report its issues
--   Guard             `configGuard` (auth.go), `saveConfigLocked` (config.go)
--   Loading           `loadOneBlocklist` and its callers, Loading.Reading `readBlocklistSource`
--                     (blocklists.go)
--   Policy            `handleBlocked`, `handleAllowed`, `handleBlockedIPs`, `handleRegexRules`
--                     (policy_api.go); Policy.Lists `handleBlocklists`, `handleBlocklistEntries`,
--                     `handleBlockGroups`
--   Records           `handleRecords`, `importRecordsFromReader` (records_api.go)
--   Profiles          `handleClients`, `handleProfiles` and the paths below them (clients_api.go)
--   Settings          `handleSettings` (settings_api.go); Settings.Upstreams `handleUpstreams`
--                     (clients_api.go)
--   Logs              `addLog`, `addServerLog`, `addAudit` (main.go), `trimQueryLogLocked` (config.go),
--                     Logs.Names `anonymizeClientIP`, `clientName` (dns_policy.go)
--   Prelude           numbers, strings, maps and lists, and their laws
--
-- A request to the panel runs a handler behind `configGuard`. The record `Panel` of Guard.antt is what
-- such a request works on: the configuration in memory and in the file, the blocking state, the
-- sessions, the cache and the audit. A handler of Policy or Records is a function on it that gives the
-- reply, from which the status follows; a handler of Profiles or Settings needs the configuration, or
-- the record `Clientele` with the clients that were seen. A change of the lists or groups ends in
-- `rebuild_blocklists` of Loading, which fills the blocking state that `blockDecision` reads.
--
-- Numbers. Counts are natural numbers; `int` is the type ℤ of Prelude.Int. A time is a number of
-- nanoseconds, and a duration that the source multiplies wraps at 64 bits (`seconds`). Counters do not
-- wrap. A string is a list of bytes; folding of case and tests of spaces are those of ASCII.
--
-- Maps. A Go map is an association list. Where the source iterates over a map, the order is an argument
-- `range` with the laws `IsRange`: it visits each entry once, in any order. A map that is nil is
-- `none` where that shows, in `client_names` and `profiles`, and the empty map elsewhere.
--
-- Time. A query to the resolver has a reading of the clock for each call that makes one (`Times`); any
-- other operation has one reading, also where `handleLogin` reads the clock twice in a row.
--
-- Fuel. `search_loop` runs on the length of the interval, which halves each round; the decimal digits
-- of a cache key have fuel 5, for numbers below 65536. Every other loop is structural.
--
-- Left out: reading and writing of files, the network, HTTP, JSON and terminals, operating system
-- calls, `handleSelfSignedTLS`, the form of `handleImportRecords`, the loading of the
-- configuration with its defaults, the state on disk, and the lines of progress of a load. The decoded
-- body of a request, the hash of a password, a random address and the host name in an address are
-- arguments. The copy of the configuration by `cloneConfig` is an argument of Guard, with the law
-- `IsClone` that a copy is equal to the original up to two maps that may be nil. Resolver notes a call of `addLog` as an event; Logs
-- models what `addLog` does. Upstream takes the endpoint of a target as an argument, and
-- Checks.Endpoints parses it. Locks are not modelled: an operation under a lock is one function.
pub mod Prelude
pub mod Deps
pub mod Rules
pub mod Gravity
pub mod Config
pub mod Schedule
pub mod Blocking
pub mod Checks
pub mod Logs
pub mod Loading
pub mod Guard
pub mod Policy
pub mod Records
pub mod Profiles
pub mod Settings
pub mod Validate
pub mod Blocklist
pub mod Addresses
pub mod Decision
pub mod Messages
pub mod Cache
pub mod RateLimit
pub mod Auth
pub mod Upstream
pub mod Answers
pub mod Clients
pub mod Resolver
pub mod Tests
