-- ===== src/Models/Texts.antt =====
-- internal/models/models.go: the texts of the constants.
use cocopilot.Prelude.{String}
use cocopilot.Models.{TaskStatus, TaskStatusV2, TaskType}

abbrev pub status_v1_text : TaskStatus → String
status_v1_text TaskStatus.not_picked = "NOT_PICKED"
status_v1_text TaskStatus.in_progress = "IN_PROGRESS"
status_v1_text TaskStatus.complete = "COMPLETE"
status_v1_text TaskStatus.failed = "FAILED"

abbrev pub status_v2_text : TaskStatusV2 → String
status_v2_text TaskStatusV2.queued = "QUEUED"
status_v2_text TaskStatusV2.claimed = "CLAIMED"
status_v2_text TaskStatusV2.running = "RUNNING"
status_v2_text TaskStatusV2.succeeded = "SUCCEEDED"
status_v2_text TaskStatusV2.failed = "FAILED"
status_v2_text TaskStatusV2.needs_review = "NEEDS_REVIEW"
status_v2_text TaskStatusV2.cancelled = "CANCELLED"

abbrev pub task_type_text : TaskType → String
task_type_text TaskType.analyze = "ANALYZE"
task_type_text TaskType.modify = "MODIFY"
task_type_text TaskType.test = "TEST"
task_type_text TaskType.review = "REVIEW"
task_type_text TaskType.doc = "DOC"
task_type_text TaskType.release = "RELEASE"
task_type_text TaskType.rollback = "ROLLBACK"
task_type_text TaskType.plan = "PLAN"
