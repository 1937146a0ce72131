-- ===== src/Lib.antt =====
-- Football IQ Challenge: the back end apps/api and the package packages/contracts.
--
-- Players enter contests with a slip of ten predictions and pay a fee into the contest's escrow.
-- When the fixtures of a contest have results, the predictions are scored, the entries ranked, and
-- the escrow paid out. Money moves only through a double-entry ledger; deposits come in by a
-- payment gateway and its webhooks, and withdrawals are held, reviewed and paid out.
--
-- Files, with the code they model:
--   Prelude     library names, Boolean tests, lists, integers and tables under primary keys
--   Errors      exceptions as values: ledger.errors.ts and the `code` of each Nest exception
--   Contracts   packages/contracts/src: enums, markets, points, risk meter, event topics
--   Ledger      apps/api/src/modules/wallet/ledger: validateLines, post
--   Slip        apps/api/src/modules/predictions/slip-validator.ts
--   Scoring     apps/api/src/modules/scoring: Markets is the engine, Service the service
--   Settlement  apps/api/src/modules/settlement: Ranking and Prizes are ranking.ts, Distribution the
--               service
--   Database    apps/api/prisma/schema.prisma: the columns that are read, and the form of a handler
--   Wallet      apps/api/src/modules/wallet/wallet-accounts.service.ts
--   Entries     apps/api/src/modules/predictions/entries.service.ts
--   Contests    apps/api/src/modules/contests/contests.service.ts
--   Results     apps/api/src/modules/sports/results.service.ts
--   Payments    apps/api/src/modules/payments: deposits.service.ts and webhooks.service.ts
--   Withdrawals apps/api/src/modules/withdrawals: the service, bank accounts and the fraud score
--   Auth        apps/api/src/modules/auth: Otp, Tokens, and Service with the guard of access tokens
--   Difficulty  apps/api/src/modules/difficulty: the engine, and Service
--   Settings    apps/api/src/modules/admin/settings-admin.controller.ts
--   Sports      apps/api/src/modules/sports: the port's shapes and the football-data.org mapping,
--               Sync and Poller
--   Outbox      apps/api/src/infrastructure/outbox/outbox.relay.ts
--   Stats       apps/api/src/modules/stats/stats.service.ts
--   Worker      apps/api/src/modules/event-handlers/domain-events.worker.ts
--   System      the handlers together, as steps on the tables
--   Examples    the theorems at concrete inputs
--
-- A handler is an `Action`: from the tables it returns a value or an error, with the tables as it
-- leaves them. A write outside a transaction stays when the handler throws later, and `transaction`
-- rolls back, as Prisma's `$transaction` does. Ids are numbers, a new row gets an unused one, and
-- the time is an argument. The one fuel is that of `to_text`, the number itself, which has no more
-- digits than that. Rounding finds by how many binary digits a number is too long in eleven halvings,
-- which reach 2047 digits; a number of that length is above every double.
--
-- Parameters: SHA-256, argon2 and the signature of access tokens, what PaymentGatewayPort answers
-- (the signature check of a webhook included), encryption and decryption of account numbers, what
-- the provider of sports data answers, and the queue that the relay feeds. Random values are
-- arguments.
-- Not modelled: the interleaving of two transactions, HTTP controllers that only pass values on, the
-- second provider of sports data, the leaderboard's cache, the delivery of notifications, and the
-- web application. The risk meter's arithmetic is exact here. The difficulty engine computes with
-- the doubles of Difficulty/Double: multiples of 2 ^ -1074, without the largest double as a bound,
-- which its numbers do not come near.
pub mod Prelude
pub mod Errors
pub mod Ledger
pub mod Contracts
pub mod Slip
pub mod Scoring
pub mod Settlement
pub mod Database
pub mod Difficulty
pub mod Wallet
pub mod Auth
pub mod Entries
pub mod Payments
pub mod Withdrawals
pub mod Contests
pub mod Results
pub mod Settings
pub mod Sports
pub mod Outbox
pub mod Stats
pub mod Worker
pub mod System
pub mod Examples
