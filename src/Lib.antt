-- ===== src/Lib.antt =====
-- A scheduler of emails: users upload a file of leads and a message, an API stores one row per lead and
-- queues a job for it, and workers take the jobs, ask a rate limiter in Redis for the right to send,
-- claim the row in PostgreSQL, hand the message to a mail server and record what came of it.
--
-- The parts of the program, from the root of the repository, and the files that model them:
-- - apps/backend/prisma/schema.prisma: Schema, the rows as records and the unique constraints as
--   Boolean tests between two rows. Base/Table is the interface of a table: its state is abstract, its
--   rows are a list, and the two statements that the code uses have their documented effects as laws.
--   A database of lists of rows is an instance, which the examples use.
-- - apps/backend/src/rate-limit/sender-rate-limiter.ts: RateLimit. RateLimit/Server is the interface of
--   the Redis commands with expiry times; `reserve` and `seed` are the methods, `reserve_script` and
--   `seed_script` the Lua scripts, which the server runs one at a time.
-- - apps/backend/src/worker/email-processor.ts: Worker/Delivery (how an error is read), Worker/Statements
--   (the transactions) and Worker (the processor: `process` is its body). A transaction is a function
--   from the database to `none`, if it throws, or the database after it. Random tokens and the times are
--   arguments, and the mailer is a function to what it returns or throws.
-- - apps/backend/src/queue/email-queue.ts and reconcile.ts: Queue. A call's effect on BullMQ is the list
--   of jobs that it adds, at a time of its own for each page of a batch. The loop over pages runs on
--   fuel; as many rounds as there are rows to queue, and one more, are enough.
-- - Workers: any number of workers, the reconciliation and the inserts of the API over one shared
--   database and one Redis server. A worker's run is cut where the code waits for an answer, and a
--   history is a list of events in any order, with workers that die at any point.
-- - apps/backend/src/email/lead-parser.ts: Leads. The CSV parser, the UTF-8 decoder, the test of
--   addresses and `extname` are parameters.
-- - apps/backend/src/email/scheduling-service.ts and identifiers.ts: Scheduling. What other requests do
--   between the statements of `createEmailBatch` is two functions on the database, given as arguments;
--   its transaction is serializable, so it runs at once or is refused by the database, as an argument
--   says. Scheduling/Rows says what is inserted, and Scheduling/Later what later writes leave of it.
--   UUIDs are printed, and digests taken, by parameters. The loop of `chunks` runs on the length of its
--   list, which is enough for any chunk size above 0.
-- - apps/backend/src/email/router.ts: Api (`POST /email-batches`) and Api/Senders (`POST /senders` and
--   `PATCH /senders/:senderId`). A route is a function from the request and the database to its answer
--   and the database; zod's coercion of the request comes before it, and the bounds of its schemas are
--   written out.
-- - the rest of router.ts: Api/Lists (the paginated lists, whose rows are sorted by insertion where the
--   code asks PostgreSQL for an order) and Api/Reads (the routes that only read). Base/Order has the
--   sort. The encodings of a cursor are parameters.
-- - apps/backend/src/config/env.ts: Config. The exception of the schema is `none`, less its issues.
-- - apps/backend/src/observability/logger.ts: Logging. A line is the list of its fields.
-- - apps/backend/src/app.ts, http and auth/require-auth.ts: Http, what answers a request whose handler
--   threw, or which has no user.
-- - the rest of apps/backend/src/auth: Session. Redis, the JSON of a session and what passport does at a
--   logout, with the id of the session that it regenerates, are parameters.
-- - apps/frontend/src/components/ComposeModal.tsx: Compose. The parameters of its platform are the CSV
--   parser, zod's tests and the browser's encoding of a field of a form; Compose/Texts has the lemmas on
--   trimmed and split texts.
-- - apps/frontend/src/pages/DashboardPage.tsx, App.tsx, api/client.ts and components/EmailTable.tsx:
--   Dashboard, without what they draw.
-- - apps/backend/src/worker.ts and server.ts: Processes, the actions of a run in their order.
-- - apps/backend/src/email/mailer.ts: Smtp. The transporter of nodemailer is a parameter.
-- - apps/backend/src/worker/rate-seed.ts: RateSeed, the loop over the senders with its aggregates.
-- - apps/backend/src/auth/google-user.ts and google-profile.ts: GoogleUser, the rows of a login.
--
-- Numbers are natural numbers: an id stands for a UUID, and is never computed with, and a
-- time is a number of milliseconds since the epoch, far inside the range in which JavaScript's numbers
-- are exact. A text is a list of UTF-16 code units.
--
-- Not modelled: the set-up of express, passport, BullMQ, nodemailer and Redis clients, the
-- command-line tools, and what the pages of the web client draw.
--
-- Samples holds the rows that the Examples modules share; those apply the theorems at concrete inputs.
pub mod Base
pub mod Schema
pub mod Samples
pub mod RateLimit
pub mod Worker
pub mod Queue
pub mod Workers
pub mod Leads
pub mod Scheduling
pub mod Api
pub mod RateSeed
pub mod GoogleUser
pub mod Config
pub mod Logging
pub mod Http
pub mod Session
pub mod Compose
pub mod Dashboard
pub mod Processes
pub mod Smtp
