-- ===== src/Domain.antt =====
-- The database's enumerations (apps/api/prisma/schema.prisma), and dates.
--
-- A `YYYY-MM-DD` text is a `DateOnly`: the number of the day, counted from 1 March of year 0.
-- Texts of that form and day numbers are ordered alike, so the comparisons of the texts in the
-- source (`<=`, `localeCompare`, `===`) are those of the numbers.
use ultrakil_scheduling_syst.Prelude.{ℕ, Eq, dec_eqb, dec_eqb_iff, String}

abbrev pub DateOnly : Type 0
DateOnly = ℕ

-- Minutes from midnight.
abbrev pub Minute : Type 0
Minute = ℕ

pub data BranchCode : Type 0 where
  colombo kandy : BranchCode

pub data VisitPlacement : Type 0 where
  booked anchored spread earliest : VisitPlacement

pub data DataProvenance : Type 0 where
  unknown source derived defaulted manager_confirmed : DataProvenance

pub data Weekday : Type 0 where
  monday tuesday wednesday thursday friday saturday sunday : Weekday

pub data FrequencyUnit : Type 0 where
  week month : FrequencyUnit

pub data DeploymentType : Type 0 where
  mobile permanently_stationed : DeploymentType

pub data CrewRole : Type 0 where
  supervisor technician driver helper : CrewRole

unfoldable pub BranchCode-discrete : Discrete BranchCode
BranchCode-discrete = hlevel

unfoldable pub VisitPlacement-discrete : Discrete VisitPlacement
VisitPlacement-discrete = hlevel

unfoldable pub Weekday-discrete : Discrete Weekday
Weekday-discrete = hlevel

instance abbrev pub branch_eq : Eq BranchCode
branch_eq = record { beq = dec_eqb BranchCode-discrete; beq_iff = dec_eqb_iff BranchCode-discrete }

instance abbrev pub placement_eq : Eq VisitPlacement
placement_eq = record {
  beq = dec_eqb VisitPlacement-discrete;
  beq_iff = dec_eqb_iff VisitPlacement-discrete;
}

instance abbrev pub weekday_eq : Eq Weekday
weekday_eq = record { beq = dec_eqb Weekday-discrete; beq_iff = dec_eqb_iff Weekday-discrete }

-- The spelling of a branch and of a placement in a text.
unfoldable pub branch_name : BranchCode → String
branch_name colombo = "COLOMBO"
branch_name kandy = "KANDY"

unfoldable pub placement_name : VisitPlacement → String
placement_name booked = "BOOKED"
placement_name anchored = "ANCHORED"
placement_name spread = "SPREAD"
placement_name earliest = "EARLIEST"
