-- ===== src/Optimizer/RunRecovery.antt =====
-- apps/api/src/scheduling/optimizer/schedule-run-recovery.ts: the settlement of a run whose
-- delivery failed for good, and of a cancellation whose lease ran out. The two tables are maps by
-- id; `updateMany` with a unique id in its condition changes that row or none, and returns whether
-- it did. A time is a number, and a comparison with an absent time fails.
use ultrakil_scheduling_syst.Prelude.{
  ℕ, Bool, true, false, not, ◌&&◌, ◌||◌, Option, none, some, List, [], ◌∷◌, String, if◌then◌else◌,
  Eq, ◌==◌, nat_eq, string_eq, leb, ltb, lookup, insert, is_some,
}
pub mod Settlement
pub mod Callbacks
pub mod Examples

pub data ScheduleRunStatus : Type 0 where
  queued running succeeded failed cancelled superseded : ScheduleRunStatus

pub data DispatchProvider : Type 0 where
  bullmq qstash : DispatchProvider

pub data DispatchStatus : Type 0 where
  pending published dispatch_cancelled : DispatchStatus

pub record ScheduleRun : Type 0 where
  pub status : ScheduleRunStatus
  pub cancel_requested_at : Option ℕ
  pub execution_lease_id : Option String
  pub execution_lease_expires_at : Option ℕ
  pub job_id : Option String
  pub finished_at : Option ℕ
  pub progress_percent : ℕ
  pub error_code : Option String
  pub error_message : Option String

-- The recorded terminal failure: the four columns are set and cleared together.
pub record TerminalFailure : Type 0 where
  pub message_id : String
  pub code : String
  pub message : String
  pub recorded_at : ℕ

pub record DispatchOutbox : Type 0 where
  pub schedule_run_id : String
  pub provider : DispatchProvider
  pub status : DispatchStatus
  pub message_id : Option String
  pub terminal_failure : Option TerminalFailure

pub record RecoveryStore : Type 0 where
  pub runs : List (String × ScheduleRun)
  pub outbox : List (String × DispatchOutbox)

pub data QstashOutcome : Type 0 where
  run_failed deferred ignored : QstashOutcome

-- Whether the row was changed, and the rows after.
pub record Updated (A : Type 0) : Type 0 where
  pub count : Bool
  pub rows : List (String × A)

module _ {A : Type 0} where
  abbrev pub update_row : (A → Bool) → (A → A) → String → List (String × A) → Option A → Updated A
  update_row where_ data_ id rows none = record { count = false; rows = rows }
  update_row where_ data_ id rows (some row) =
      if where_ row
      then record { count = true; rows = insert id (data_ row) rows }
      else record { count = false; rows = rows }

  unfoldable pub update_many : (A → Bool) → (A → A) → String → List (String × A) → Updated A
  update_many where_ data_ id rows = update_row where_ data_ id rows (lookup id rows)

abbrev pub is_running : ScheduleRunStatus → Bool
is_running running = true
is_running _ = false

abbrev pub is_active : ScheduleRunStatus → Bool
is_active queued = true
is_active running = true
is_active _ = false

abbrev pub is_undelivered : DispatchStatus → Bool
is_undelivered pending = true
is_undelivered published = true
is_undelivered _ = false

abbrev pub is_qstash : DispatchProvider → Bool
is_qstash qstash = true
is_qstash bullmq = false

-- `{ lte: now }`, and `{ gt: now }` on the value read back.
abbrev pub is_by : ℕ → Option ℕ → Bool
is_by now none = false
is_by now (some time) = leb time now

abbrev pub is_after : ℕ → Option ℕ → Bool
is_after now none = false
is_after now (some time) = ltb now time

abbrev pub is_absent_or : String → Option String → Bool
is_absent_or id none = true
is_absent_or id (some other) = other == id

-- A cancellation that nobody is left to honour: requested, and the lease expired or absent.
abbrev pub is_abandoned : ℕ → ScheduleRun → Bool
is_abandoned now run =
    is_running run.status
    && is_some run.cancel_requested_at
    && (is_by now run.execution_lease_expires_at || not (is_some run.execution_lease_expires_at))

abbrev pub cancel_run : ℕ → ScheduleRun → ScheduleRun
cancel_run now run = record run {
  status = cancelled;
  finished_at = some now;
  progress_percent = 100;
  execution_lease_id = none;
  execution_lease_expires_at = none;
}

-- `settleExpiredScheduleRunCancellation`
unfoldable pub settle_expired_cancellation : ℕ → String → RecoveryStore → Bool × RecoveryStore
settle_expired_cancellation now run_id store =
    let settled : Updated ScheduleRun =
      update_many (is_abandoned now) (cancel_run now) run_id store.runs in
    (settled.count, record store { runs = settled.rows })

-- `consumeTerminalFailure`: fenced by every recorded value.
abbrev pub is_marked : String → TerminalFailure → DispatchOutbox → Bool
is_marked run_id terminal row =
    row.schedule_run_id == run_id && is_qstash row.provider && has_marker row.terminal_failure
  where
    has_marker : Option TerminalFailure → Bool
    has_marker none = false
    has_marker (some marker) =
        marker.message_id == terminal.message_id
        && marker.code == terminal.code
        && marker.message == terminal.message
        && marker.recorded_at == terminal.recorded_at

abbrev pub consume_marker : DispatchOutbox → DispatchOutbox
consume_marker row = record row { status = dispatch_cancelled; terminal_failure = none }

unfoldable pub consume_terminal_failure :
    String → String → TerminalFailure → RecoveryStore → RecoveryStore
consume_terminal_failure run_id dispatch_id terminal store =
    let consumed : Updated DispatchOutbox =
      update_many (is_marked run_id terminal) consume_marker dispatch_id store.outbox in
    record store { outbox = consumed.rows }

-- The first step of `failScheduleRunForQStash`: the callback is made durable.
abbrev pub awaits : String → String → DispatchOutbox → Bool
awaits run_id message_id row =
    row.schedule_run_id == run_id
    && is_qstash row.provider
    && is_undelivered row.status
    && is_absent_or message_id row.message_id

unfoldable pub record_terminal_failure :
    String → String → TerminalFailure → RecoveryStore → Bool × RecoveryStore
record_terminal_failure run_id dispatch_id terminal store =
    let recorded : Updated DispatchOutbox =
      update_many (awaits run_id terminal.message_id)
        (λ row. record row { terminal_failure = some terminal }) dispatch_id store.outbox in
    (recorded.count, record store { outbox = recorded.rows })

-- No worker holds the run: no lease, or one that has expired.
abbrev pub can_fail : TerminalFailure → ScheduleRun → Bool
can_fail terminal run =
    not (is_some run.cancel_requested_at)
    && is_active run.status
    && is_absent_or terminal.message_id run.job_id
    && (not (is_some run.execution_lease_id)
        || is_by terminal.recorded_at run.execution_lease_expires_at)

abbrev pub fail_run : TerminalFailure → ScheduleRun → ScheduleRun
fail_run terminal run = record run {
  status = failed;
  finished_at = some terminal.recorded_at;
  error_code = some terminal.code;
  error_message = some terminal.message;
  job_id = some terminal.message_id;
}

abbrev pub is_leased : ℕ → Option ScheduleRun → Bool
is_leased now none = false
is_leased now (some run) = is_running run.status && is_after now run.execution_lease_expires_at

-- The transaction of `failScheduleRunForQStash`.
unfoldable pub settle_terminal_failure :
    String → String → TerminalFailure → RecoveryStore → QstashOutcome × RecoveryStore
settle_terminal_failure run_id dispatch_id terminal store =
    let fails : Updated ScheduleRun =
      update_many (can_fail terminal) (fail_run terminal) run_id store.runs in
    let cancels : Updated ScheduleRun =
      update_many (is_abandoned terminal.recorded_at) (cancel_run terminal.recorded_at) run_id
        store.runs in
    if fails.count
    then (
      run_failed,
      consume_terminal_failure run_id dispatch_id terminal (record store { runs = fails.rows }),
    )
    else if cancels.count
    then (
      ignored,
      consume_terminal_failure run_id dispatch_id terminal (record store { runs = cancels.rows }),
    )
    else if is_leased terminal.recorded_at (lookup run_id store.runs)
    then (deferred, store)
    else (ignored, consume_terminal_failure run_id dispatch_id terminal store)

-- `failScheduleRunForQStash`
unfoldable pub fail_schedule_run_for_qstash :
    String → String → TerminalFailure → RecoveryStore → QstashOutcome × RecoveryStore
fail_schedule_run_for_qstash run_id dispatch_id terminal store =
    let recorded : Bool × RecoveryStore =
      record_terminal_failure run_id dispatch_id terminal store in
    if recorded.0
    then settle_terminal_failure run_id dispatch_id terminal recorded.1
    else (ignored, store)
