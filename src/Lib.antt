-- ===== src/Lib.antt =====
-- freebuff-proxy-scaleway, an HTTP proxy in Go that serves chat requests over several upstream
-- tokens. A request asks the pool (internal/pool) for a lease. The pool orders its tokens by their
-- session snapshots (internal/session), skips those that a remembered refusal, a quota or a daily
-- cap rules out, passes the session-create gate for an admission, and takes a run from the token's
-- run manager (internal/runs). The chat engine (internal/server) sends the request through the
-- lease, and once more through another one if that may help. Every refusal of the upstream
-- (internal/upstream) is classified; some become a cooldown of the token, and what is left becomes
-- the reply to the client. Beside that path stand the cache of reasoning content
-- (internal/reasoningcache) and the log ring of the dashboard (internal/logring).
--
-- Which file models which part:
--   Base             helpers: lists, maps, comparisons, texts, durations, remainders
--   Upstream/Errors, Upstream/Failure
--                    internal/upstream/errors.go: the fields of the refusals, and all of them
--                    as one type
--   Upstream/Delay, Upstream/Fields, Upstream/Text
--                    internal/upstream/ratelimit.go and client_session.go: the conversions of
--                    delays and times, the readers of JSON fields, the four regular expressions
--   Upstream/RateLimit, Upstream/Classify
--                    internal/upstream/ratelimit.go: parseRateLimit, parseIpCapped, classifyError,
--                    Client.classify and its ledger
--   Server/Chat      internal/server/engine.go: chatAttempt; what the pool, the upstream and the
--                    context answer in a round is a `Turn`, the effects are a list of events
--   Server/Reply     internal/server/errors.go and anthropic_errors.go: the reply of writeError to
--                    every error, and the ledger that thins out warnings
--   Session/Snapshot internal/session/session.go: SessionSnapshot, Usable, MatchesModel,
--                    HasGlmEntitlement
--   Session/Manager  internal/session/session.go, grace.go and store.go: the cached state, commit,
--                    the quotas that survive a session, Snapshot
--   Session/Ensure   internal/session/session.go: EnsureSessionForModel and asyncReAdmit's end
--   Session/Refresh  internal/session/session_admission.go: refresh, with pollPersisted
--   Session/Admission
--                    internal/session/session_admission.go and session.go: adoptOrCreate,
--                    createSessionForModel, the invalidations, EndSession, Shutdown
--   Session/Poll     internal/session/session_poll.go: Poll
--   Session/Storm    internal/session/session_admission.go: the re-admit storm detector
--   Session/Answer, Session/Unavailable
--                    internal/session/session_poll.go and model_unavailable.go: statusError, the
--                    models that the upstream refuses for a while
--   Runs/Cooldown    internal/runs/cooldown.go: Cooldown, ClearCooldowns, CooldownRateLimit,
--                    CooldownIpCapped, CooldownBan, CooldownCountryBlocked and the four readers; its
--                    Lock gives the fields their meaning, one lock with a deadline, a cause and a
--                    daily budget; Refused joins it with the classification
--   Runs/Manager     internal/runs/runs.go, steps.go and drain.go: the lease of Acquire, Release,
--                    ReleaseAbandoned, Invalidate, Maintain, rotate, FinishAllRuns, enqueueFinish
--                    and finishIfReadyCtx; `Step` is an interleaving of their sections
--   Pool/Gate        internal/pool/create_gate.go: acquire, release, setLimits; `Step` is an
--                    interleaving of requests, of permits that come back and of reloads
--   Pool/Quota       internal/pool/quota.go and scarce.go: quotaRemaining, quotaLimitError,
--                    isQuotaExhaustedError
--   Pool/Scarce      internal/pool/scarce.go: scarceHeld, scarceActive
--   Pool/Usage       internal/pool/quota.go: recordChat, usageCount, usageResetIn
--   Pool/Spend       internal/pool/spend.go: spendLedger with rollBucket, needsRollover, bucketStart,
--                    and recordSpend, recordSpendLimited, spendSnapshot on the index of a token
--   Pool/Unfit       internal/pool/unfit.go: MarkModelUnfit, ClearModelUnfitBefore, ModelUnfit
--   Pool/Order       internal/pool/acquire.go: acquireOrder
--   Pool/Bridge      internal/pool/bridge_cache.go: bridgeTouch, bridgeEvictLocked, bridgeMaintain,
--                    bridgeEvictToken and the cache side of bridgeEntryFor; the eviction loop has
--                    the length of the order as fuel, since a round that drops an entry shortens it
--   Pool/Buckets     internal/pool/acquire.go: the refusals that a pass collects, the best of each
--                    kind, and the precedence at the end of leaseFromOrder
--   Pool/Refusals    internal/pool/acquire.go: what a failed admission or run start does to its token
--   Pool/Failover    internal/pool/acquire.go: the loop of leaseFromOrder, and the order of a
--                    follower of Acquire
--   ReasoningCache   internal/reasoningcache/cache.go: Put, Get, GetByToolID, GetByHash, Prune
--   Logring          internal/logring/logring.go: push, recent and the counters
--
-- Conventions. An instant is a natural number of nanoseconds, 0 for the zero time.Time; a duration
-- that is not positive is 0; a float64 counts millionths of its unit, and an instant of the
-- upstream that is not after 1970 is the instant 1. A function reads the clock once, and a pass
-- over the tokens reads it once for all of them. A mutex makes a method one step, so that methods
-- are functions on the state; where the order of steps matters (Pool/Gate, Runs/Manager) they are a
-- step relation. Between two sections of a session manager other goroutines may do anything that a
-- theorem does not rule out: a function from managers to managers. Go maps are association lists,
-- slices are lists, and a pointer whose identity matters is a number. A panic is `none` or
-- `panicked`.
--
-- Fuel: the eviction loops of the reasoning cache and of the bridge cache have the length of their
-- list as fuel, and it is enough because every round removes an entry (ReasoningCache/Lookups,
-- Pool/Bridge/Room). The loop of chatAttempt has two rounds as fuel, and no request needs a third
-- (Server/Chat/Leases). The bounds of the session loops, five and ten, are those of the source.
--
-- Parameters are the SHA-256 sum, strings.ToLower, json.Unmarshal, time.Parse, http.ParseTime,
-- strconv's parsers (together a `Decoder`), convert.NormalizeRequest, the texts of Error() where
-- only their equality matters, the next Pacific midnight and the calendar of America/Los_Angeles (a
-- `Zone`), the random draw of the jitter, and what the session manager, the gate and the run
-- manager answer to a pass, and which bridge entries have leases or a scarce session. The run
-- manager is modelled without its recorded steps, its store and its Shutdown.
--
-- Not modelled: the handlers of the HTTP server, their streams and message texts, the transport and
-- the log-in of the upstream client, format conversion, the configuration, the dashboard and its
-- front end, telemetry, notifications, network and TLS set-up (all of them I/O or rendering), the
-- model registry, the requests of the bridge mode, its lifecycle, the period boundaries that
-- internal/pool/spend.go derives when there is no zone database, and the file behind the session
-- store.
pub mod Base
pub mod Upstream
pub mod Runs
pub mod Session
pub mod Pool
pub mod Logring
pub mod ReasoningCache
pub mod Server
