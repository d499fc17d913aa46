-- ===== src/Lib.antt =====
-- Verification of the betting and streaming platform of this repository.
--
-- The repository is a monorepo: packages/domain holds the entities and the policies, apps/backend the
-- use cases, adapters and jobs that run them against a database, a cache and a chain, and apps/frontend
-- the clients. The development models the domain package, the use cases that compose it, and the indexers
-- and locks beneath them.
--
-- Base: helpers. Base/Tests has Boolean tests on numbers and results that may throw, Base/Lists and
--   Base/Texts the array and string methods that the code calls, Base/Decimal how a number is printed.
-- Matches: packages/domain/src/matches. Status.antt is policies/BettablePolicy.ts (classify_status is
--   classifyStatus, is_bettable is isBettable), Entity.antt is entities/Match.ts, LiveSync.antt
--   SyncLiveMatchesUseCase of apps/backend/src/application/matches with the row that it writes, and
--   Closing.antt CloseLiveMatchesMarketsUseCase, with the query of its candidates in
--   Closing/Candidates.antt (close_live_matches_markets). Knockout.antt is
--   policies/KnockoutMatchPolicy.ts, Resolution.antt ResolveFinishedMatchesUseCase (resolve_finished),
--   Halftime.antt ResolveHalftimeMarketUseCase (execute and execute_all), and FullSync.antt
--   SyncMatchesUseCase (sync_matches), which writes its rows as the live sync does. Retention.antt is
--   CleanupOldMatchesUseCase, which deletes matches that no bet and no prediction needs.
-- Predictions: packages/domain/src/predictions (Values.antt the value objects, Entity.antt the entity)
--   and, in Settlement.antt, SettlePredictionsUseCase of apps/backend/src/application/predictions.
-- Moderation: packages/domain/src/reporting and the use cases of apps/backend/src/application that act
--   on reports. Policies.antt holds policies/ReportQuorumPolicy.ts (evaluate_quorum),
--   BanEscalationPolicy.ts (next_ban) and ReporterEligibilityPolicy.ts (is_eligible). Bans.antt,
--   Reports.antt and Actions.antt are the entities with the tables behind them, which the Supabase*
--   repositories of infrastructure/persistence/repositories query: a table is the list of its rows, a
--   query the filter that it writes, an update a change of the rows that pass its filter, and an
--   insert is refused where the primary key or a unique index of migrations/036_reports_bans.sql
--   refuses it. Banning.antt has BanAccountUseCase (ban_account), LiftExpiredBansUseCase
--   (lift_expired), CreateManualBanUseCase and LiftBanUseCase, each a function from the world to its
--   answer and the world after it. Threshold.antt and Threshold/Acting.antt are
--   EvaluateReportThresholdUseCase (decide and evaluate), Filing.antt CreateReportUseCase
--   (file_report), which calls the evaluation as the code does, and
--   Reversal.antt ReverseActionUseCase (reverse_action).
-- Streams: packages/domain/src/streams/entities/Stream.ts (Entity.antt) and StreamLifecycleService of
--   apps/backend/src/infrastructure/services with EndStreamUseCase (Lifecycle.antt), on the rows of
--   SupabaseStreamRepository; the streaming provider is a port that may fail.
-- Markets: packages/domain/src/markets (Manifest.antt is DefaultMarkets.ts, Sorting.antt
--   sortMarketsByManifest.ts) and, in Labels.antt, selectionToBetLabel.ts of
--   packages/domain/src/blockchain-indexing/policies.
-- Indexing: how the events of the contracts reach the tables. Cursor.antt is BaseIndexer.ts of
--   apps/backend/src/infrastructure/blockchain/indexers with the checkpoint of
--   SupabaseIndexerCheckpointRepository (advance_cursor_once is advanceCursorOnce, walk its loop,
--   run_batch a tick under the lock), Bets.antt the writes of SupabaseBetRepository (settle_market,
--   cancel_market, record_claim, insert_if_absent), and PariMatch.antt PariMatchEventIndexer
--   (dispatch, and process_range for processBatch with the query of the contracts).
--   Leaderboard.antt is LeaderboardIndexer on the tables of scores, epochs and claims
--   (process_leaderboard for processBatch, handle for what it does with a log).
-- Rewards.antt: AdvanceEpochUseCase (execute_upkeep) and GetMyClaimableEpochsUseCase (get_claimable) of
--   apps/backend/src/application/leaderboard.
-- Locks.antt: RedisLockService of apps/backend/src/infrastructure/cache with the scripts of
--   RedisClient.ts (acquire, release, renew, and wait_for for the loop of withLock). The store is a
--   record of operations with the laws that its documentation states.
-- Tests: the results below at concrete inputs, and runs of the definitions.
--
-- Conventions. A method that mutates `props` returns the new record, and a method that throws returns
-- `throws` with a constructor that stands for the message. `new Date()` and injected clocks are
-- arguments; a date is its time value in milliseconds. A field that may be undefined or null is an
-- `Option`: the code reads the two alike. Counts, scores and ids are natural numbers. Floating point
-- numbers do not occur in the models: the odds are read in thousandths, and a division before a
-- comparison is written as a product on the other side. Texts that the code walks are lists of code
-- units, and texts that it only compares, or writes in lower case, are strings; case mapping is that of ASCII, since the texts
-- that are mapped are hexadecimal addresses and keys; a regular expression that ignores case has ASCII
-- letters only. Repositories and services are ports: arguments of the definitions that use them.
-- Every loop over data is a recursion on a list. Three loops take fuel: the printing of a decimal, whose
-- fuel is the number itself plus one, which is enough since each round divides by ten; the loop of the
-- cursor, whose fuel is the safe head plus two, which is enough wherever a chunk has a block; and the
-- waiting for a lock, for which a fuel that is enough is stated with the time it may wait.
--
-- Not modelled: the React clients, HTTP controllers and routes, the other database and chain adapters, the
-- chat, the profiles, the prices and the ranks of the leaderboard, the cache, job scheduling, dependency
-- injection, logging, and the Solidity contracts.
pub mod Base
pub mod Matches
pub mod Predictions
pub mod Moderation
pub mod Streams
pub mod Markets
pub mod Indexing
pub mod Rewards
pub mod Locks
pub mod Tests
