-- ===== src/Catalog.antt =====
-- apps/api/src/catalog: the calendar arithmetic that the other parts rest on.
pub mod Periods
pub mod Windows
pub mod Dates
pub mod Preview
