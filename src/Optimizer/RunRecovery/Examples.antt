-- ===== src/Optimizer/RunRecovery/Examples.antt =====
-- A run whose delivery failed while a worker still holds it, and after the lease ran out.
use ultrakil_scheduling_syst.Prelude.{
  ℕ, ◌≡◌, ◌≢◌, refl, ◌↔◌, ◌⊎◌, true, none, some, [], ◌∷◌, string_eq, if◌then◌else◌, lookup, insert,
}
use ultrakil_scheduling_syst.Optimizer.RunRecovery.{
  running, cancelled, ScheduleRunStatus, ScheduleRun, qstash, published, dispatch_cancelled,
  TerminalFailure, DispatchOutbox, RecoveryStore, run_failed, deferred, settle_expired_cancellation,
  settle_terminal_failure, fail_schedule_run_for_qstash, record_terminal_failure,
  consume_terminal_failure, update_many,
}
use ultrakil_scheduling_syst.Optimizer.RunRecovery.Settlement.{
  IsHeld, settle_terminal_failure-IsHeld,
}
use ultrakil_scheduling_syst.Optimizer.RunRecovery.Callbacks.{
  IsAbandoned, with_marker, fail_schedule_run_for_qstash_marker, settle_expired_cancellation_lem,
}

abbrev run : ScheduleRunStatus → ScheduleRun
run status = record {
  status = status;
  cancel_requested_at = none;
  execution_lease_id = some "lease";
  execution_lease_expires_at = some 50;
  job_id = none;
  finished_at = none;
  progress_percent = 40;
  error_code = none;
  error_message = none;
}

abbrev row : DispatchOutbox
row = record {
  schedule_run_id = "run";
  provider = qstash;
  status = published;
  message_id = none;
  terminal_failure = none;
}

abbrev store : ScheduleRunStatus → RecoveryStore
store status = record { runs = ("run", run status) ∷ []; outbox = ("dispatch", row) ∷ [] }

abbrev at : ℕ → TerminalFailure
at time = record { message_id = "m"; code = "TIMEOUT"; message = "late"; recorded_at = time }

test_outcomes :
    ((fail_schedule_run_for_qstash "run" "dispatch" (at 40) (store running)).0 ≡ deferred)
    × ((fail_schedule_run_for_qstash "run" "dispatch" (at 60) (store running)).0 ≡ run_failed)
unfolding fail_schedule_run_for_qstash record_terminal_failure settle_terminal_failure
    consume_terminal_failure update_many lookup insert
test_outcomes = (refl, refl)

settle_terminal_failure-IsHeld_example :
    ((settle_terminal_failure "run" "dispatch" (at 40) (store running)).0 ≡ deferred)
    ↔ IsHeld 40 (run running)
unfolding lookup
settle_terminal_failure-IsHeld_example =
    settle_terminal_failure-IsHeld "run" "dispatch" (at 40) (store running) (run running) refl refl

fail_schedule_run_for_qstash_marker_example :
    (((fail_schedule_run_for_qstash "run" "dispatch" (at 60) (store running)).0 ≡ deferred)
      × (lookup "dispatch"
            (fail_schedule_run_for_qstash "run" "dispatch" (at 60) (store running)).1.outbox
          ≡ some (with_marker (at 60) row)))
    ⊎ (((fail_schedule_run_for_qstash "run" "dispatch" (at 60) (store running)).0 ≢ deferred)
        × (lookup "dispatch"
              (fail_schedule_run_for_qstash "run" "dispatch" (at 60) (store running)).1.outbox
            ≡ some (record row { status = dispatch_cancelled; terminal_failure = none })))
unfolding lookup
fail_schedule_run_for_qstash_marker_example =
    fail_schedule_run_for_qstash_marker "run" "dispatch" (at 60) (store running) row (run running)
      refl refl refl

-- Cancellation was asked for at 45, and the lease ran out at 50.
abbrev abandoned : RecoveryStore
abandoned = record (store running) {
  runs = ("run", record (run running) { cancel_requested_at = some 45 }) ∷ [];
}

settle_expired_cancellation_lem_example :
    (((settle_expired_cancellation 60 "run" abandoned).0 ≡ true)
      ↔ IsAbandoned 60 (record (run running) { cancel_requested_at = some 45 }))
    × (lookup "run" (settle_expired_cancellation 60 "run" abandoned).1.runs
        ≡ some (
            if (settle_expired_cancellation 60 "run" abandoned).0
            then record {
              status = cancelled;
              cancel_requested_at = some 45;
              execution_lease_id = none;
              execution_lease_expires_at = none;
              job_id = none;
              finished_at = some 60;
              progress_percent = 100;
              error_code = none;
              error_message = none;
            }
            else record (run running) { cancel_requested_at = some 45 }))
unfolding lookup
settle_expired_cancellation_lem_example =
    settle_expired_cancellation_lem 60 "run" abandoned
      (record (run running) { cancel_requested_at = some 45 }) refl

test_settled : (settle_expired_cancellation 60 "run" abandoned).0 ≡ true
unfolding settle_expired_cancellation update_many lookup
test_settled = refl
