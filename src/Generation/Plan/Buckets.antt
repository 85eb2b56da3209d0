-- ===== src/Generation/Plan/Buckets.antt =====
-- What becomes of each requirement and of each visit of the calendar, one by one.
use ultrakil_scheduling_syst.Prelude.{nat_eq, string_eq, pair_eq}
