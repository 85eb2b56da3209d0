-- ===== src/Eligibility/Messages.antt =====
-- apps/api/src/scheduling/eligibility/rules.ts and apps/api/src/workforce/pms-grade.ts: the texts
-- of the conflicts. `lower` is `toLowerCase` on the letters that the enumerations are spelled in.
use Prim.Native.String
use ultrakil_scheduling_syst.Prelude.{
  ◌≡◌, refl, ℕ, ◌+◌, ◌-◌, ◌*◌, ◌/◌, ◌%◌, List, [], ◌∷◌, String, if◌then◌else◌, leb, ltb, nat_eqb,
  get_or_else, lookup, string_eq,
}
use ultrakil_scheduling_syst.Prelude.Int.{ℤ, pos, negsuc}
use ultrakil_scheduling_syst.Prelude.Text.{concat, join, show, pad2}
use ultrakil_scheduling_syst.Domain.{DateOnly}

-- Floor division: of a minute before midnight the hour is negative and the remainder is too, as
-- `Math.floor` and `%` have it.
unfoldable pub format_minute : ℤ → String
format_minute (pos n) = concat (pad2 (n / 60) ∷ ":" ∷ pad2 (n % 60) ∷ [])
format_minute (negsuc n) =
    let hours : ℕ = n / 60 + 1 in
    let rest : ℕ = (n + 1) % 60 in
    concat (
      "-"
      ∷ show hours
      ∷ ":"
      ∷ (if nat_eqb rest 0 then "00" else concat ("-" ∷ show rest ∷ []))
      ∷ [])

-- The civil date of a day number: the year from 1 March, and the month and day within it.
pub record CivilDate : Type 0 where
  pub year : ℕ
  pub month : ℕ
  pub day : ℕ

unfoldable pub civil : DateOnly → CivilDate
civil z =
    let era : ℕ = z / 146097 in
    let doe : ℕ = z % 146097 in
    let yoe : ℕ = (doe - doe / 1460 + doe / 36524 - doe / 146096) / 365 in
    let doy : ℕ = doe - (365 * yoe + yoe / 4 - yoe / 100) in
    let mp : ℕ = (5 * doy + 2) / 153 in
    let d : ℕ = doy - (153 * mp + 2) / 5 + 1 in
    let m : ℕ = if ltb mp 10 then mp + 3 else mp - 9 in
    let y : ℕ = yoe + era * 400 + (if leb m 2 then 1 else 0) in
    record { year = y; month = m; day = d }

unfoldable pub show_date : DateOnly → String
show_date date =
    concat
      (show (civil date).year ∷ "-" ∷ pad2 (civil date).month ∷ "-" ∷ pad2 (civil date).day ∷ [])

abbrev letters : List (String × String)
letters =
    ("A", "a")
    ∷ ("B", "b")
    ∷ ("C", "c")
    ∷ ("D", "d")
    ∷ ("E", "e")
    ∷ ("F", "f")
    ∷ ("G", "g")
    ∷ ("H", "h")
    ∷ ("I", "i")
    ∷ ("J", "j")
    ∷ ("K", "k")
    ∷ ("L", "l")
    ∷ ("M", "m")
    ∷ ("N", "n")
    ∷ ("O", "o")
    ∷ ("P", "p")
    ∷ ("Q", "q")
    ∷ ("R", "r")
    ∷ ("S", "s")
    ∷ ("T", "t")
    ∷ ("U", "u")
    ∷ ("V", "v")
    ∷ ("W", "w")
    ∷ ("X", "x")
    ∷ ("Y", "y")
    ∷ ("Z", "z")
    ∷ []

unfoldable pub lower : String → String
lower String.[] = ""
lower (String.◌∷◌ c s) =
    let letter : String = String.◌∷◌ c String.[] in
    String.◌++◌ (get_or_else (lookup letter letters) letter) (lower s)

-- `PMS_GRADE_COLUMN_LABELS`, joined as the remediation joins them.
unfoldable pub pms_supervisor_remediation : String → String
pms_supervisor_remediation branch = concat (
    "Every job needs one PMS-grade supervisor on site. Add a crew member from "
    ∷ branch
    ∷ " whose Grade column on the Workforce screen reads "
    ∷ join ", " ("PMS" ∷ "SPMS" ∷ [])
    ∷ " or "
    ∷ "APMS"
    ∷ "."
    ∷ [])

test_format :
    (format_minute (pos 545) ≡ "09:05")
    × (show_date 740000 ≡ "2026-03-20")
    × (lower "ANNUAL_LEAVE" ≡ "annual_leave")
unfolding format_minute concat pad2 show lower show_date civil lookup
test_format = (refl, refl, refl)
