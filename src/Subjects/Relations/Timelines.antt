-- ===== src/Subjects/Relations/Timelines.antt =====
-- The chains of events under the calls about relationships.
use timeline.Subjects.Audit.{Audit}
