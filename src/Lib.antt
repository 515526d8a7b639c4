-- ===== src/Lib.antt =====
-- A model of the backend of convoscore, which scores customer-support conversations with a language
-- model: backend/app in the repository. A conversation becomes a job, a row of `conversations`,
-- through the API or through objects in a bucket; its id goes to an SQS queue; workers take the
-- messages, claim the job, call a provider and store the score or decide on a retry.
--
-- Prelude, Table, Sort, Text and Json hold what the parts share: Boolean tests, lists, the integers,
-- tables with a primary key as lists of rows, ORDER BY with LIMIT and OFFSET, Python's `str` as its
-- code points, and the values of `json.loads`. Then, by the files of backend/app:
--   models.py                Models: the enumerations and rows, and the database `Db`
--   schemas.py               Schemas: the conversation input; `model_validate` is pydantic's
--                            validation of it, `none` a ValidationError
--   scoring/*.py             Scoring.Contract, Pricing, Prompt, Provider and Fake
--   demo.py, api/demo.py     Demo: the tokens for failures on purpose and the provider that spends
--                            them; Api.Demo: the handlers that set them
--   repository.py            Repository.Jobs: a function on `Db` for each statement, which takes the
--                            database's clock; Repository.Ingest: the record of the objects;
--                            Repository.Reads: pages and aggregates
--   _session in worker.py    Runtime: transactions that roll back, in a world where before each one
--   and ingestor.py          the other processes may commit anything, and where every transaction
--                            and every request may fail, as an `Env` decides by the number of
--                            the call; a request that fails may still have been carried out
--   queue.py                 Queue: the wrapper of one SQS queue, with its cached URL
--   worker.py                Retry: the retry policy; Worker: the handling of a message, with the
--                            names of the source's methods, and the main loop;
--                            Observability.Gauges and Spend: its gauges and the metrics of a call
--   api/serializers.py       Api.Serializers: rows to responses
--   api/deps.py              Api.Session: the one transaction of a request, open while its handler
--                            runs and committed after the response, as the locked FastAPI does it
--   api/conversations.py     Api.Conversations: submission, which publishes inside its transaction,
--                            and the handlers that read
--   api/stats.py             Api.Stats and Api.Health, with `readyz` of api/main.py
--   api/observability.py     Observability: labels and samples of requests; Observability.Gauges:
--   and metrics.py           job states and the collector that skips a failed callback;
--                            Observability.Scrape: the gauges that are read from the database
--   storage.py, ingestor.py  Storage and Ingestor: one pass over the bucket, and the loop
--   db.py                    Database: the waits at start-up, with the clock as an argument
--   config.py, factories.py  Configuration: settings, their bounds, the choice of the provider
--   logging.py, heartbeat.py Logging: the fields of a line; Heartbeat: the probe of the file's age
--   migrate.py and           Migrations: the revisions as statements on a schema, what the columns and
--   alembic/versions/*.py    constraints accept, the rows as values (Migrations.Rows and Objects), and
--                            the run under the advisory lock (Migrations.Runner); Migrations.Checks
--                            puts the rows of the pipeline to them
-- Pipeline has no file of its own in the source: it puts the transactions of all processes into one
-- history, in the order of their commits. Pipeline.Machine is the abstract machine of a job, with four
-- phases and no table. System puts the handlers themselves together: worker loops, submissions and
-- ingestor loops on one database, each disturbed before every transaction by others, as reachability
-- by operations of the pipeline.
--
-- Times are microseconds, costs units of 1e-8 USD, prices cents per million tokens, and a UUID is a
-- number. An UPDATE with a WHERE clause is atomic, as in PostgreSQL, and is `update_where` on the
-- rows with a count of the rows it matched; the statements of one transaction see one state of the
-- database. What an open request has written is a function that its commit applies to the database
-- of that moment. Only the waits of Database and the run of the migrations, which begins with one,
-- need fuel: one more than the number of sleeps that fill the timeout; every other loop of the source
-- runs over a list, and the main loops over the list of what they are given until the stop request.
--
-- Parameters stand for what lies outside the repository: pydantic's coercions, the digest, Python's
-- string case, its floats (with monotone, exact rounding where the results are small), the OpenAI
-- SDK, SQS, S3 and `json.loads`. Not modelled: FastAPI's parsing and routing, the declarations of the
-- metrics and most places that count, the logging calls, signals and sleeping, the engine and the
-- clients, Alembic with its set-up and its order of revisions, and the front end. The rows of
-- `demo_failure_tokens` are not compared with their columns, nor the columns of `conversations` that
-- are not among the `own_columns` of Migrations.Checks: those take what users, the provider and the
-- settings choose, counts and error texts.
pub mod Prelude
pub mod Table
pub mod Configuration
pub mod Database
pub mod Heartbeat
pub mod Logging
pub mod Observability
pub mod Sort
pub mod Text
pub mod Json
pub mod Models
pub mod Schemas
pub mod Scoring
pub mod Demo
pub mod Repository
pub mod Pipeline
pub mod Runtime
pub mod System
pub mod Migrations
pub mod Queue
pub mod Retry
pub mod Worker
pub mod Storage
pub mod Ingestor
pub mod Api
pub mod Tests
