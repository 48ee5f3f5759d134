-- ===== src/Models/Examples.antt =====
-- The statuses at concrete values.
use cocopilot.Prelude.{◌≡◌, ◌⊎◌, ◌≢◌}
use cocopilot.Models.{TaskStatus, v1_to_v2, v2_to_v1}
use cocopilot.Models.Mapping.{v2_to_v1-v1_to_v2}

v2_to_v1-v1_to_v2_example :
    ((TaskStatus.failed ≢ TaskStatus.failed)
      × (v2_to_v1 (v1_to_v2 TaskStatus.failed) ≡ TaskStatus.failed))
    ⊎ ((TaskStatus.failed ≡ TaskStatus.failed)
        × (v2_to_v1 (v1_to_v2 TaskStatus.failed) ≡ TaskStatus.not_picked))
v2_to_v1-v1_to_v2_example = v2_to_v1-v1_to_v2 TaskStatus.failed
