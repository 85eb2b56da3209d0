-- ===== src/Config.antt =====
-- apps/api/src/config/constants.ts: the figures that the rules and the capacity share.
use ultrakil_scheduling_syst.Prelude.{ℕ}

-- Crew-minutes of a branch-day whose workforce was never imported.
abbrev pub default_daily_capacity_minutes : ℕ
default_daily_capacity_minutes = 720

abbrev pub default_employee_workday_minutes : ℕ
default_employee_workday_minutes = 480

-- Minimum transfer time between jobs at different service sites.
abbrev pub default_different_site_travel_buffer_minutes : ℕ
default_different_site_travel_buffer_minutes = 60
