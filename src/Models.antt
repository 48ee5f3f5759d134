-- ===== src/Models.antt =====
-- internal/models/models.go: the status types and their tests, and the mapping between the v1 and v2
-- statuses of internal/dbstore/tasks.go. A status column holds one of the declared constants, so the
-- `default` branches of the switches, for other texts, are not modelled.
pub mod Mapping
pub mod Texts
mod Examples
use cocopilot.Prelude.{Bool, true, false, List, [], ◌∷◌}

pub data TaskStatus : Type 0 where
  not_picked in_progress complete failed : TaskStatus

pub data TaskStatusV2 : Type 0 where
  queued claimed running succeeded failed needs_review cancelled : TaskStatusV2

pub data RunStatus : Type 0 where
  running succeeded failed cancelled : RunStatus

pub data TaskType : Type 0 where
  analyze modify test review doc release rollback plan : TaskType

pub data Bucket : Type 0 where
  queued active success failed review cancelled : Bucket

-- TaskStatusV2.IsTerminal, IsTaskTerminal
abbrev pub is_terminal : TaskStatusV2 → Bool
is_terminal TaskStatusV2.succeeded = true
is_terminal TaskStatusV2.failed = true
is_terminal TaskStatusV2.cancelled = true
is_terminal _ = false

-- TaskStatusV2.IsActive, IsTaskActive
abbrev pub is_active : TaskStatusV2 → Bool
is_active TaskStatusV2.claimed = true
is_active TaskStatusV2.running = true
is_active _ = false

abbrev pub is_queued : TaskStatusV2 → Bool
is_queued TaskStatusV2.queued = true
is_queued _ = false

-- RunStatus.IsTerminal, IsRunTerminal
abbrev pub run_is_terminal : RunStatus → Bool
run_is_terminal RunStatus.running = false
run_is_terminal _ = true

abbrev pub run_is_active : RunStatus → Bool
run_is_active RunStatus.running = true
run_is_active _ = false

abbrev pub bucket_for_status : TaskStatusV2 → Bucket
bucket_for_status TaskStatusV2.queued = Bucket.queued
bucket_for_status TaskStatusV2.claimed = Bucket.active
bucket_for_status TaskStatusV2.running = Bucket.active
bucket_for_status TaskStatusV2.succeeded = Bucket.success
bucket_for_status TaskStatusV2.failed = Bucket.failed
bucket_for_status TaskStatusV2.needs_review = Bucket.review
bucket_for_status TaskStatusV2.cancelled = Bucket.cancelled

-- TaskStatusBuckets, the entry "terminal" of the map
abbrev pub terminal_bucket : List TaskStatusV2
terminal_bucket =
    TaskStatusV2.succeeded ∷ TaskStatusV2.failed ∷ TaskStatusV2.needs_review
    ∷ TaskStatusV2.cancelled ∷ []

-- MapTaskStatusV1ToV2: a failed v1 status falls into the `default` case.
abbrev pub v1_to_v2 : TaskStatus → TaskStatusV2
v1_to_v2 TaskStatus.not_picked = TaskStatusV2.queued
v1_to_v2 TaskStatus.in_progress = TaskStatusV2.running
v1_to_v2 TaskStatus.complete = TaskStatusV2.succeeded
v1_to_v2 TaskStatus.failed = TaskStatusV2.queued

-- MapTaskStatusV2ToV1
abbrev pub v2_to_v1 : TaskStatusV2 → TaskStatus
v2_to_v1 TaskStatusV2.queued = TaskStatus.not_picked
v2_to_v1 TaskStatusV2.claimed = TaskStatus.in_progress
v2_to_v1 TaskStatusV2.running = TaskStatus.in_progress
v2_to_v1 TaskStatusV2.succeeded = TaskStatus.complete
v2_to_v1 TaskStatusV2.failed = TaskStatus.complete
v2_to_v1 TaskStatusV2.needs_review = TaskStatus.complete
v2_to_v1 TaskStatusV2.cancelled = TaskStatus.complete
