-- ===== src/Lib.antt =====
-- ScribeFlow: a library of the properties of its HTTP API, of the worker, of both together, and of
-- the web page.
--
-- The program. A client uploads an audio file to the API (api/src). The API checks the name and the
-- type of the file, looks for a completed job with the same SHA-256 digest, and otherwise moves the
-- file to its place on a shared volume, inserts a row into the table of jobs and publishes a message
-- to RabbitMQ. The worker (worker) takes messages, transcribes and updates the row. The client asks
-- the API for the job, and exports its transcript as SRT or VTT. The web page (web) does the same
-- through a proxy that adds the API key.
--
-- Which file models what; functions keep their names in snake_case.
--   Prelude, Text, Floats   what the program uses of JavaScript: integers and the two divisions,
--                           strings as lists of UTF-16 code units, UTF-8, numbers. Floating-point
--                           numbers are the record `Floats`, an argument of what uses them.
--   Subtitles               api/src/transcriptions/srt.util.ts. Subtitles/Reader describes the two
--                           formats by readers of our own, which the code does not have.
--   Upload                  api/src/storage/upload-validation.ts
--   Auth                    api/src/auth/api-key.guard.ts and public.decorator.ts
--   Queue.Topology          api/src/queue/topology.ts and worker/queue_topology.py: the calls that
--                           each side makes of the broker, and what a broker with the declared
--                           queues routes where
--   Queue.Publisher         api/src/queue/publisher.service.ts as a step relation: asynchronous tasks
--                           wait at their `await`, and the broker's events let them go on
--   Storage                 api/src/storage/storage.service.ts, with the volume as a list of paths
--                           with bytes
--   Jobs                    api/src/transcriptions/entities/job.entity.ts and
--                           api/src/transcriptions/dto/job-response.dto.ts
--   Store                   the table of jobs behind TypeORM: an interface of calls and laws, and a
--                           table in memory that meets them (Store.Memory). Store.Journal is any
--                           table with a journal of what is saved, to state what is written when
--   Service                 api/src/transcriptions/transcriptions.service.ts over Store, Storage,
--                           Upload and Queue.Publisher: a state monad with errors, whose state is
--                           the table, the files, the messages that the exchange has taken and the
--                           publisher
--   Service.Stages          the same `create` an `await` at a time
--   Config                  api/src/config/env.validation.ts
--   Controller              api/src/transcriptions/transcriptions.controller.ts and the upload options
--                           of transcriptions.module.ts, over Service
--   Controller.Query        api/src/transcriptions/dto/list-query.dto.ts and export-query.dto.ts
--   Health                  api/src/health/health.controller.ts, over Queue.Publisher
--   Web.Uri, Web.Proxy      web/lib/api.ts and the route handlers under web/app/api/transcriptions,
--                           with `encodeURIComponent`
--   Web.Page, Web.Clock     the state of web/app/page.tsx, an event at a time, and its `formatClock`
--   Web.View                what web/app/page.tsx shows of that state
--   Api                     a whole request: the routes of Swagger, the body parser, the prefix of
--                           api/src/main.ts, the routes that the controllers declare, the guard of
--                           api/src/app.module.ts, the storage of uploads of transcriptions.module.ts,
--                           and the handlers
--   Api.Proxied             the requests of Web.Proxy, as Api takes them
--   Worker.Retry            worker/retry.py
--   Worker.Database         worker/db.py over Store: the query and the updates of a row
--   Worker.Message          the body and the headers of a message, as worker/main.py reads them
--   Worker.Handler          `handle_message` and `handle_failure` of worker/main.py: a state monad with
--                           exceptions and with the death of the worker, whose state is the table,
--                           the retry queue, the dead queue and what the broker was told
--   Worker.Seconds          Python's floats as an argument, with the laws that planning relies on
--   Worker.Chunks           the pure functions of worker/transcriber.py
--   Worker.Audio            worker/audio.py
--   Worker.Transcriber      `transcribe` of worker/transcriber.py
--   Worker.Progress         `make_progress_reporter` of worker/main.py
--   Worker.Startup          `connect` and `close` of worker/db.py, `connect_with_retry` and `run` of
--                           worker/main.py: the calls from the start of the worker to its end
--   Worker.Pipeline         `run_pipeline` of worker/main.py over these, for Worker.Handler
--   System                  Service and Worker.Handler over one table, with the queues between them:
--                           requests, deliveries, expiries and late writes of progress as events
--   System.Interleaved      the same with requests that go on in turns, and an API that may die
--
-- What is an argument. `unicode_lower` is `toLowerCase` beyond ASCII; `digest` is SHA-256, of which
-- nothing is assumed, collisions included; `is_uuid` is the test of ParseUUIDPipe; the conversions
-- of class-transformer and the messages of class-validator are functions; a new id and the time of a
-- request are arguments of `create`. The record `Outcomes` says of each call of a library in a
-- request whether it resolves, and how the broker ends the confirmation of a message; so each
-- theorem about `create` holds for each combination of failures. For a delivery to the worker the
-- record `Fates` does the same: each call of the database and the broker returns, raises or sees the
-- worker die, with or without effect, and the pipeline ends with a transcript, an error or not at
-- all. Worker.Pipeline computes such an end from how each run of ffprobe and ffmpeg and each
-- iteration over whisper's segments ends. The record `Endings` is the same for the start and the
-- shutdown of the worker. `matches` is Express's matching of a path against a route, and `swagger`
-- what the routes that main.ts mounts for Swagger answer; a request says how the body parser fails.
-- The record `Python` is json, uuid, str and int; `Json` says that the JSON of the API is read back
-- by the worker.
--
-- Bounds and fuel. `to_decimal` runs on fuel: `suc n` for the number n, which has fewer digits than
-- that. `journey`, the deliveries of one message to the worker, takes the number of deliveries that
-- are allowed, and stops at a message that has no copy in the retry queue; the theorem shows that
-- four are enough. `plan_chunks` runs on fuel too, one round for each chunk: more fuel than the
-- audio has seconds is enough if the chunks are a second long or longer. Whole seconds are exact
-- floats below 2 ^ 53. Integers are unbounded: lengths and times of the program stay below 2 ^ 53.
--
-- What is not modelled. The start and the shutdown of the API, the wiring of modules, logging, the
-- pages of Swagger, the arguments of ffmpeg and ffprobe, and the layout of the page. A delivery to
-- the worker runs without another event in between, but for writes of progress that come late; a
-- request may be interrupted at each `await` (System.Interleaved). A call that fails has no effect
-- in the API, but for a confirmation that is lost. Two uploads of the same bytes at one time are two
-- jobs in the program, and no theorem says otherwise. Ids are compared as texts, so a request with
-- the id of a job in upper case, which the column of type uuid takes for the same, finds nothing
-- here. CHUNK_SEC and CHUNK_THRESHOLD_SEC are natural numbers, where the worker's settings take
-- negative ones too. `int` at a header is a number, a TypeError or a ValueError, and not the
-- OverflowError that it raises at an infinite float. The removal of a temporary directory does not
-- fail.
pub mod Prelude
pub mod Text
pub mod Floats
pub mod Subtitles
pub mod Upload
pub mod Auth
pub mod Queue
pub mod Storage
pub mod Jobs
pub mod Store
pub mod Service
pub mod Config
pub mod Controller
pub mod Health
pub mod Api
pub mod Web
pub mod Worker
pub mod System
