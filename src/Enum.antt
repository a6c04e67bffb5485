-- ===== src/Enum.antt =====
-- apps/backend/src/enum.ts and the queue tables of apps/backend/src/types.ts.
use event_media_platform.Prelude.{Bool, true, false, List, [], ◌∷◌}

pub data WorkerRole : Type 0 where
  api ingest media : WorkerRole

abbrev pub eq_role : WorkerRole → WorkerRole → Bool
eq_role WorkerRole.api WorkerRole.api = true
eq_role WorkerRole.ingest WorkerRole.ingest = true
eq_role WorkerRole.media WorkerRole.media = true
eq_role _ _ = false

pub data QueueName : Type 0 where
  media_process video_transcode face_detection facial_recognition : QueueName
  smart_search person_thumbnail selfie import match notification : QueueName
  storage_cleanup background : QueueName

-- Object.values(QueueName)
abbrev pub queue_names : List QueueName
queue_names =
    QueueName.media_process ∷ QueueName.video_transcode ∷ QueueName.face_detection
    ∷ QueueName.facial_recognition ∷ QueueName.smart_search ∷ QueueName.person_thumbnail
    ∷ QueueName.selfie ∷ QueueName.import ∷ QueueName.match ∷ QueueName.notification
    ∷ QueueName.storage_cleanup ∷ QueueName.background ∷ []

-- QUEUE_ROLES of types.ts
abbrev pub queue_role : QueueName → WorkerRole
queue_role QueueName.media_process = WorkerRole.media
queue_role QueueName.video_transcode = WorkerRole.media
queue_role QueueName.face_detection = WorkerRole.media
queue_role QueueName.facial_recognition = WorkerRole.ingest
queue_role QueueName.smart_search = WorkerRole.media
queue_role QueueName.person_thumbnail = WorkerRole.media
queue_role QueueName.selfie = WorkerRole.media
queue_role QueueName.import = WorkerRole.ingest
queue_role QueueName.match = WorkerRole.ingest
queue_role QueueName.notification = WorkerRole.ingest
queue_role QueueName.storage_cleanup = WorkerRole.ingest
queue_role QueueName.background = WorkerRole.ingest

pub data JobStatus : Type 0 where
  success failed skipped : JobStatus
