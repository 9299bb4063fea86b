-- ===== src/Lib.antt =====
-- NoorixFin is a personal and family finance application: a NestJS API over a Postgres database
-- (apps/api), a web client (apps/web), an offline-first mobile client with its own SQLite database
-- (apps/mobile), and shared packages (packages/). Amounts are integers of a currency's minor unit,
-- and each transaction is a journal entry with postings whose debits equal its credits. The mobile
-- client writes to a durable queue, which it drains to the API with the mutation's id as the
-- idempotency key, and then pulls what has changed, page by page.
--
-- The parts and their files:
--
-- Money (packages/money/src/index.ts). `Money.Number` has the JavaScript numbers, integers of a
-- double with rounding to 53 bits; `Money.Arith` addMinorUnits, subtractMinorUnits and
-- negateMinorUnits; `Money.Currency` the registry; `Money.Parse` parseMinorUnits,
-- serializeMinorUnits and majorStringToMinorUnits on lists of code units; `Money.Balance`
-- validateBalance. The display functions, which use fractional doubles or Intl, are left out.
--
-- Ledger (apps/api/src/transactions/transactions.service.ts). `Ledger` has the rows of the tables,
-- `Ledger.Postings` buildPostings, `Ledger.Request` what a call takes, and `Ledger.Create`
-- createTransaction, one function for each part of the handler, with the tables passed on as a
-- state. Each PostgREST call either fails, as a record of faults says, or does what the table and its
-- row-level security say: no policy lets a user delete rows of journal_entries, so the clean-up's
-- DELETE matches none. The random ids, the clock and the SHA-256 of the key are parameters. Requests
-- run one at a time: the primary key and the unique index on the user and the key's hash are part of
-- the insert, so the answer for a lost race is modelled. The notification rules that run afterwards
-- write to none of these tables and are left out.
--
-- `Ledger.Balance` is the abstract ledger: what every account holds, as a quotient of pairs of totals,
-- with the move of an amount from one account to another. `Ledger.Create.Moves` relates
-- createTransaction to it. `Ledger.Reverse` is reverseTransaction with the SQL function that it calls
-- (supabase/migrations/00019_reverse_entry_atomic.sql), whose answer may be lost; `Ledger.Tags` the
-- tags; `Ledger.Items` and `Ledger.Entries` listTransactions and getTransaction, where the instant
-- that the database reads in a timestamp and the sort with localeCompare are parameters, the amounts
-- are exact numbers and attachments are left out.
--
-- Import (apps/api/src/imports/imports.service.ts). `Import.Csv` is csvRecords with the loop's
-- look-ahead as a character to skip, `Import.Amount` the amounts of a statement up to decimalToMinor,
-- `Import.Rows` parseCsv and normalized, where undefined is `none` and the JavaScript library's
-- spaces, header names, Number and Date are parameters, `Import.Job` the tables and `Import.Run`
-- create: the job, the staging of rows 500 at a time, bounded by the number of rows, and the loop
-- that calls `Ledger.Create` for each row, which `Import.Run.Moves` relates to the abstract ledger. The parsers of OFX and QIF files are left out.
--
-- Planning (apps/api/src/planning/planning.service.ts). `Planning` has the errors and the amounts,
-- `Planning.Budgets` upsertBudget and deleteBudget, `Planning.Goals`, `Planning.Calendar`,
-- `Planning.Recurring` and `Planning.Debts` the other routes that write, on the writes that
-- `Planning.Tables` has; a write that the database refuses has its error as a fault. The reports are SQL
-- functions and are left out.
--
-- Queue (apps/mobile/src/sync/queue.ts, with apiFetch and ApiError of apps/mobile/src/lib/api.ts).
-- `Queue` has the table `_mutation_queue` as a list of rows and each operation on it,
-- `Queue.Transport` the requests and their replies, `Queue.Loop` drain. The JSON library, the
-- clock, the random numbers, the session and the network are parameters, one value for each round.
-- The loop runs on fuel, one more than there are rows.
--
-- Sync (apps/api/src/sync/sync.service.ts). `Sync` has the filter that a cursor position becomes,
-- as a list of PostgREST conditions with what they mean, the query of one source, and getDelta
-- over all sources. Timestamps and UUIDs are numbers in their order there. `Sync.Cursor` has
-- decodeCursor, with its two patterns, on texts; base64url, JSON.parse and Date.parse are
-- parameters. A table is the list of its rows in the order that the query asks for, of which PostgREST
-- returns at most `max_rows` (supabase/config.toml).
--
-- Idempotency (apps/api/src/common/interceptors/idempotency.interceptor.ts). `Idempotency` has
-- admit, reserve, complete and release, and the interleaving of requests as a step relation, in
-- which the database works and each reserve is one step.
--
-- Engine (apps/mobile/src/sync/engine.ts, with upsertRows of apps/mobile/src/db/index.ts).
-- `Engine` has one run: the drain of `Queue`, then the pull of at most 1000 pages, which is the
-- recursion's bound, each page one transaction. The server, the failures and the local schema are
-- parameters. `Engine.Overlap` is sync, the guard against overlapping runs, with the calls
-- and the ends of runs as a step relation.
--
-- Pagination (packages/domain/src/pagination.ts). `Pagination` has clampLimit and toPage; the
-- conversion of a string to a number is a parameter.
--
-- `Common` has what these share: tests on numbers, lists and their lemmas, integers, texts, and
-- the type of a result or an error. The modules named Tests have concrete inputs.
--
-- Not modelled: the user interfaces, generated clients, SQL, the framework's wiring, and the
-- services that are not named above.
mod Common
pub mod Money
pub mod Ledger
pub mod Queue
pub mod Sync
pub mod Idempotency
pub mod Engine
pub mod Pagination
pub mod Import
pub mod Planning
