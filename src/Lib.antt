-- ===== src/Lib.antt =====
-- dogecade: tokens for arcade machines, bought with Dogecoin. A model of the services that move
-- money and of the dispatcher that turns it into pulses of a machine's coin switch.
--
-- A player asks for an address (services/purchase.go) out of a pool (services/pool.go). The chain
-- watcher reports payments to the deposit pipeline (services/deposit_pipeline.go), which follows a
-- deposit from seen to confirmed and credited and hands it to a hook: the one of purchases posts
-- tokens to the ledger (services/ledger.go), the one of direct pay (services/direct_pay.go) queues
-- pulses for the machine that the address serves. A redemption (services/redemption.go) queues a
-- pulse and takes a token. The dispatcher (relay/dispatcher.go) sends pending pulses, tries again
-- later, and in the end gives a pulse up and returns its token. Alerts (services/alerts.go) and
-- settings (services/settings.go) serve all of them. Paths are below internal/, but for those in cmd/.
--
-- Addresses enter the pool in batches that an admin imports (services/address_batch.go), once the
-- keyring (keyring/keyring.go) has found them valid. Admins work through the pages of web/, behind
-- the guards of auth/, and what they change is written down (services/admin_audit.go).
--
-- Payments come from the node: a watcher (chain/corewatcher.go) polls it and sends what it lists on
-- two channels, and a consumer (in cmd/dogecade/main.go) hands each to the pipeline. Players and
-- admins sign in with an identity provider (auth/), and a command line beside the server sets an
-- arcade up.
--
-- Which file models what. A Go method in CamelCase is the definition of the same words in
-- snake_case.
--
-- - Common: shared names; signed integers over the native numbers with Go's division, and the
--   wrap-around of int64 (`to_int64`); Boolean tests; lists; texts.
-- - Store: the tables of store/migrations as lists of rows (Store/Rows), the statements of a
--   service as a monad over a world (Store/Statements), rules for what a sequence of statements
--   ensures (Store/Rules), and for what it may change (Store/Changes).
-- - Ledger: LedgerService: balance, credit_purchase, debit_redemption, refund, history,
--   admin_adjust.
-- - Alerts: InsertAlertIfNotExists, ListUnacked, Ack.
-- - Settings: the getters and setters; Settings/Decimal is strconv's decimal text.
-- - Pool: PoolService: assign, release, retire, the queries, check_low_water.
-- - Redemption: RedemptionService.Redeem.
-- - Purchase: PurchaseService.StartPurchase and the hook of NewPurchaseCreditHook.
-- - DirectPay: DirectPayService and the hook of NewDirectPayAwareCreditHook.
-- - Machines: MachinesService (services/machines.go): the edits of machines and the look-ups.
-- - RotationJob: RotationJob.CheckAll (services/rotation.go).
-- - Deposits: DepositPipeline: handle_event, handle_reorg; the credit hook is a parameter, which
--   Deposits/Hook fills. Deposits/StateMachine has the states of a deposit and their arrows, and
--   Deposits/Payout goes from an event to the credit.
-- - Chain: CoreWatcher and the consumer of its channels as steps of one state (`Pipeline`);
--   Chain/Run is every order of their steps.
-- - Relay: Dispatcher: dispatch_once and what it calls.
-- - BoardHealth: BoardHealthChecker.CheckAll (relay/health.go).
-- - NodeHealth: NodeHealthChecker.Check (chain/health.go). DepositList: the list of deposits
--   (services/deposits.go) and of redemptions (web/admin_dashboard.go) for the admin.
-- - Keyring: ValidateAddress and Base58Check; Keyring/Digits is math/big's reading and writing.
-- - AddressBatch: AddressBatchService.ImportBatch.
-- - Users: UsersService: get_or_create_by_subject_hash, get_by_id, merge.
-- - Boards: RelaysService: boards, bindings. Audit: AdminAuditService: log, list.
-- - Session: SessionManager (auth/session.go): issue, from_request.
-- - SignIn: Login, Callback, Exchange and the list of admins (auth/).
-- - Web: requests and answers, RequireAuth and RequireAdmin (auth/handlers.go); the handlers of
--   web/admin_routes.go in Web/Settings, Web/Machines and Web/Accounts, those of
--   web/customer_routes.go in Web/Customer, the dashboard and the list of deposits in Web/Overview.
-- - Config: Load and its checks (config/config.go).
-- - Commands: the commands of cmd/dogecade/main.go beside the server.
-- - Tests: a small arcade on which each theorem is tried.
--
-- The database. A world holds the tables, the number of statements run so far, and which of them
-- fail. A statement either fails and changes nothing or does its work at once; a transaction that
-- fails, at its begin, in its body or at its commit, brings the tables back (`atomically`). Most
-- theorems hold in every world, so for every statement that may fail: `AllOrNothing d Q` says that
-- a call that fails leaves the tables `d` and that one that succeeds meets `Q`; `Ensures Q` speaks
-- of successes only, where the code is not one transaction. In a `calm` world nothing fails; the
-- theorems on exact answers are about that one. store/store.go opens SQLite with one connection,
-- so no other statement runs inside a transaction; between the statements of different calls any
-- order is possible, and a call starts in any world.
--
-- Numbers. Ids, times and counters are natural numbers; amounts, prices and balances are signed.
-- The backoff and the gap of the dispatcher are int64 and wrap around; sums of the ledger are
-- not bounded. Times are whole seconds, where the code stores RFC 3339 text; the dispatcher's
-- clock is in nanoseconds. Two definitions need fuel: a decimal number is written in 20 digits,
-- enough below 2^64, and the digits of a number in another base are found in as many rounds as
-- the number, which is enough for every base above one.
--
-- Strings are bytes where the code looks into them (keys, cookies, settings, forms) and texts
-- where it only compares them.
--
-- Runs. The watcher and its consumer take turns in any order, and other parts of the program may
-- write between any two of their steps, but not to the deposits or the cursor, which no other part
-- writes. A step of the consumer is a whole call of the pipeline; the watcher's statement on the
-- cursor could fall between two statements of such a call, which reads and writes other rows.
-- Whatever state the loop is in, its context may be cancelled. The buffers hold ten events, as in
-- the code, and a send into a full one waits.
--
-- Not modelled: the event stream of a purchase, the node's RPC, the timers of the loops, the search
-- for users by name (SQL's LIKE), templates and QR codes, the opening of the database. Of a page the
-- template and the message are modelled, not what it shows. Of a board the dispatcher and the check
-- know only whether it answers and how long that takes, which are parameters, as are the answers of
-- the node and of the identity provider, what Go's net and net/url read, Go's float64, SHA-256, JSON,
-- base64, HMAC, random tokens, and the order in which Go ranges over a map.
pub mod Common
pub mod Keyring
pub mod Store
pub mod Ledger
pub mod Alerts
pub mod Settings
pub mod Pool
pub mod Redemption
pub mod Purchase
pub mod DirectPay
pub mod Deposits
pub mod Chain
pub mod Audit
pub mod Users
pub mod Boards
pub mod Session
pub mod AddressBatch
pub mod NodeHealth
pub mod DepositList
pub mod Relay
pub mod BoardHealth
pub mod Web
pub mod SignIn
pub mod Commands
pub mod Machines
pub mod RotationJob
pub mod Config
pub mod Tests
