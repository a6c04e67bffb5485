-- ===== src/Lib.antt =====
-- event-media-platform: the backend of an event photo service, apps/backend/src.
--
-- The program is a set of services over a Postgres database, an object store and BullMQ queues. The
-- API and the ingest worker run on one host; the media worker runs on a rented GPU box that the API
-- starts and stops.
--
-- Parts and files:
--   Prelude      the names, tests, list lemmas, texts and results that all parts share
--   Enum         enum.ts and the queue roles of types.ts
--   Gpu          services/gpu-lifecycle.service.ts with the records of system-config.repository.ts
--   Assets       the asset rows and their unique index, repositories/asset.repository.ts
--   Import       services/import.service.ts and repositories/import.repository.ts
--   Limiter      utils/rate-limiter.ts and the ledger it refines
--   Expiry       services/event-expiry.service.ts, with the update of services/event.service.ts
--   Auth         services/auth.service.ts and the queries it makes
--   Upload       services/upload.service.ts and services/quota.service.ts, on the rows of Assets
--   Org          services/organization.service.ts, on the rows of Auth and the limits of Upload
--   Gallery      list and listForOrg of services/asset.service.ts, page by page
--   Cleanup      services/cleanup.service.ts, and deleteMany of services/asset.service.ts
--   Webhook      utils/svix-signature.ts
--   Faces        detection and recognition of services/face.service.ts, repositories/face.repository.ts,
--                face-search.repository.ts and person.repository.ts
--   Examples     the theorems at concrete inputs
--
-- State and operations. A service's state is a record: for the GPU box `World` holds the saved
-- lifecycle row, the fields of the service object and the trace of what was saved and sent; for the
-- import `Db` holds the rows of import_job, import_item and asset, the objects of the bucket and the
-- queued jobs; organizations work on the rows that the sign in reads. An operation is a function from the state to the state, named after its method in snake
-- case (handleGpuLifecycleSweep is `sweep`, handleImportFile is `handle_import_file`); a branch that
-- throws is a value of a result type. What the outside answers (JarvisLabs, the webhook, BullMQ,
-- telemetry, the cloud provider, the object store, other requests and the clock) is an argument of the
-- operation: `Env`, `Client`, `FileEnv`, `UploadEnv`, `Crypto`,
-- `Codec`, `WebhookCrypto`, `Detection`. Nothing is assumed of these answers beyond the hypotheses a
-- theorem names.
--
-- Numbers. Ids, checksums and names are natural numbers, with 0 for the empty text where the code tests
-- for it; times are milliseconds, and the dates of photos count from the earliest moment of a Date. A
-- comparison of a difference of times is written as a sum, so that it means the same on natural numbers.
--
-- Bounds. The loops of the folder listing run on a number of rounds, one to a page: a page leaves less to
-- list than there was before it, so that a finite tree needs no more rounds than its size. A client that
-- follows the cursors of a list makes a number of requests; as many as there are rows are enough,
-- as they are for the rounds in which faces are queued for recognition. All
-- other loops are structural.
--
-- Not modelled: the framework, SQL other than the queries named, log lines, the texts of messages, the
-- calls of the ML sidecar, of image and video tools and of the mailer, controllers, templates and the
-- web client.
pub mod Prelude
pub mod Enum
pub mod Gpu
mod Examples
pub mod Assets
pub mod Auth
pub mod Import
pub mod Expiry
pub mod Limiter
pub mod Upload
pub mod Org
pub mod Gallery
pub mod Cleanup
pub mod Webhook
pub mod Faces
