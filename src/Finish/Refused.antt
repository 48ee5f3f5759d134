-- ===== src/Finish/Refused.antt =====
-- When a completion is refused.
use cocopilot.Prelude.Dict.{Dict}
