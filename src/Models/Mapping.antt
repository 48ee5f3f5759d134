-- ===== src/Models/Mapping.antt =====
-- What the status mappings keep and lose.
use cocopilot.Prelude.{◌≡◌, ◌≢◌, ◌⊎◌, ◌↔◌, true, arith}
use cocopilot.Models.{TaskStatus, TaskStatusV2, is_terminal, is_active, v1_to_v2, v2_to_v1}

-- A v1 status survives the way through v2 and back unless it is FAILED, which comes back as
-- NOT_PICKED.
pub v2_to_v1-v1_to_v2 :
    (s : TaskStatus)
    → ((s ≢ TaskStatus.failed) × (v2_to_v1 (v1_to_v2 s) ≡ s))
      ⊎ ((s ≡ TaskStatus.failed) × (v2_to_v1 (v1_to_v2 s) ≡ TaskStatus.not_picked))
v2_to_v1-v1_to_v2 s = ground arith

-- A v2 status is active exactly when it maps to IN_PROGRESS, and one that maps to COMPLETE is
-- terminal or NEEDS_REVIEW.
pub v2_to_v1_active :
    (s : TaskStatusV2)
    → ((is_active s ≡ true) ↔ (v2_to_v1 s ≡ TaskStatus.in_progress))
      × (v2_to_v1 s ≡ TaskStatus.complete
          → (is_terminal s ≡ true) ⊎ (s ≡ TaskStatusV2.needs_review))
v2_to_v1_active s = ground arith
