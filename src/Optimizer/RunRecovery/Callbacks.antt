-- ===== src/Optimizer/RunRecovery/Callbacks.antt =====
-- apps/api/src/scheduling/optimizer/schedule-run-recovery.ts: `failScheduleRunForQStash` as a whole,
-- and `settleExpiredScheduleRunCancellation`.
use ultrakil_scheduling_syst.Prelude.{
  ℕ, ◌≤◌, ◌≡◌, ◌≢◌, refl, ◌∙◌, ap, ◌↔◌, ◌⊎◌, inl, inr, true, false, not, ◌||◌, Option, none, some,
  String, if◌then◌else◌, nat_eq, string_eq, lookup, insert, lookup-insert_self, is_some, Bool-cases,
  beq_refl, arith,
}
use ultrakil_scheduling_syst.Optimizer.RunRecovery.{
  ScheduleRunStatus, running, cancelled, ScheduleRun, TerminalFailure, DispatchOutbox,
  dispatch_cancelled, RecoveryStore, deferred, update_many, is_running, is_active, is_by,
  is_abandoned, cancel_run, settle_expired_cancellation, is_marked, awaits, record_terminal_failure,
  fail_schedule_run_for_qstash,
}
use ultrakil_scheduling_syst.Optimizer.RunRecovery.Settlement.{marker_after, over_stays}

-- A cancellation that nobody is left to honour.
abbrev pub IsAbandoned : ℕ → ScheduleRun → Type 0
IsAbandoned now run =
    (run.status ≡ running)
    × ((asked : ℕ) × (run.cancel_requested_at ≡ some asked))
    × ((run.execution_lease_expires_at ≡ none)
        ⊎ ((end : ℕ) × (run.execution_lease_expires_at ≡ some end) × (end ≤ now)))

abbrev pub with_marker : TerminalFailure → DispatchOutbox → DispatchOutbox
with_marker terminal row = record row { terminal_failure = some terminal }

module _ (run_id dispatch_id : String) (terminal : TerminalFailure) (store : RecoveryStore) where
  recorded :
      (row : DispatchOutbox)
      → lookup dispatch_id store.outbox ≡ some row
      → awaits run_id terminal.message_id row ≡ true
      → record_terminal_failure run_id dispatch_id terminal store ≡ (
        true,
        record store { outbox = insert dispatch_id (with_marker terminal row) store.outbox },
      )
  unfolding record_terminal_failure update_many
  recorded row e h = rw (e, h) refl

  recorded_runs : (record_terminal_failure run_id dispatch_id terminal store).1.runs ≡ store.runs
  unfolding record_terminal_failure
  recorded_runs = refl

  marked :
      (row : DispatchOutbox)
      → awaits run_id terminal.message_id row ≡ true
      → is_marked run_id terminal (with_marker terminal row) ≡ true
  marked row h =
      let m = beq_refl terminal.message_id in
      let c = beq_refl terminal.code in
      let t = beq_refl terminal.message in
      let r = beq_refl terminal.recorded_at in ground (arith, m, c, t, r)

  -- A terminal callback for the delivery that a run awaits is never lost and never kept for ever: it
  -- stays recorded exactly as it came when it is deferred, and in every other outcome its marker is
  -- gone and the delivery is closed.
  pub fail_schedule_run_for_qstash_marker :
      (row : DispatchOutbox) (run : ScheduleRun)
      → lookup dispatch_id store.outbox ≡ some row
      → lookup run_id store.runs ≡ some run
      → awaits run_id terminal.message_id row ≡ true
      → (((fail_schedule_run_for_qstash run_id dispatch_id terminal store).0 ≡ deferred)
          × (lookup dispatch_id
                (fail_schedule_run_for_qstash run_id dispatch_id terminal store).1.outbox
              ≡ some (with_marker terminal row)))
        ⊎ (((fail_schedule_run_for_qstash run_id dispatch_id terminal store).0 ≢ deferred)
            × (lookup dispatch_id
                  (fail_schedule_run_for_qstash run_id dispatch_id terminal store).1.outbox
                ≡ some (record row { status = dispatch_cancelled; terminal_failure = none })))
  unfolding fail_schedule_run_for_qstash
  fail_schedule_run_for_qstash_marker row run e there h = rw (recorded row e h) (
      marker_after run_id dispatch_id terminal
        (record store { outbox = insert dispatch_id (with_marker terminal row) store.outbox })
        (with_marker terminal row) run
        (lookup-insert_self dispatch_id (with_marker terminal row) store.outbox) there
        (marked row h))

  -- A run that is over — succeeded, failed, cancelled or superseded — is never changed by a callback,
  -- and neither is any other run.
  pub fail_schedule_run_for_qstash_over :
      (run : ScheduleRun)
      → lookup run_id store.runs ≡ some run
      → is_active run.status ≡ false
      → (fail_schedule_run_for_qstash run_id dispatch_id terminal store).1.runs ≡ store.runs
  unfolding fail_schedule_run_for_qstash
  fail_schedule_run_for_qstash_over run e over =
      let after = (record_terminal_failure run_id dispatch_id terminal store).1 in
      elim (Bool-cases (record_terminal_failure run_id dispatch_id terminal store).0) [
        | inl t ↦ rw t (
            over_stays run_id dispatch_id terminal after run (ap (lookup run_id) recorded_runs ∙ e)
              over
            ∙ recorded_runs)
        | inr f ↦ rw f refl
      ]

IsAbandoned-iff :
    (now : ℕ) (run : ScheduleRun) → (is_abandoned now run ≡ true) ↔ IsAbandoned now run
IsAbandoned-iff now run =
    let status = running_iff run.status in
    let asked = some_iff run.cancel_requested_at in
    let lease = free_iff now run.execution_lease_expires_at in
    (
      λ h. (status.0 (ground arith), asked.0 (ground arith), lease.0 (ground arith)),
      λ h. let (s, a, l) = h in rw (status.1 s, asked.1 a, lease.1 l) refl,
    )
  where
    running_iff : (s : ScheduleRunStatus) → (is_running s ≡ true) ↔ (s ≡ running)
    running_iff s = ground arith

    some_iff : (o : Option ℕ) → (is_some o ≡ true) ↔ ((a : ℕ) × (o ≡ some a))
    some_iff none = (λ h. absurd (cc), λ h. let (a, e) = h in absurd (cc))
    some_iff (some a) = (λ h. (a, refl), λ h. refl)

    free_iff :
        (n : ℕ) (o : Option ℕ)
        → ((is_by n o || not (is_some o)) ≡ true)
          ↔ ((o ≡ none) ⊎ ((end : ℕ) × (o ≡ some end) × (end ≤ n)))
    free_iff n none = (λ h. inl refl, λ h. refl)
    free_iff n (some t) = (
      λ h. inr (t, refl, ground arith),
      λ h. elim h [
        | inl e ↦ absurd (cc)
        | inr q ↦ let (u, e, l) = q in let same : t ≡ u = cc in ground (arith, same)
      ],
    )

-- A cancellation is settled exactly when it was requested of a running run whose lease has expired
-- or is absent; then the run is cancelled, finished at that time in full and holds no lease, with
-- all else as it was, and otherwise it is as it was.
pub settle_expired_cancellation_lem :
    (now : ℕ) (run_id : String) (store : RecoveryStore) (run : ScheduleRun)
    → lookup run_id store.runs ≡ some run
    → (((settle_expired_cancellation now run_id store).0 ≡ true) ↔ IsAbandoned now run)
      × (lookup run_id (settle_expired_cancellation now run_id store).1.runs
          ≡ some (
              if (settle_expired_cancellation now run_id store).0
              then record {
                status = cancelled;
                cancel_requested_at = run.cancel_requested_at;
                execution_lease_id = none;
                execution_lease_expires_at = none;
                job_id = run.job_id;
                finished_at = some now;
                progress_percent = 100;
                error_code = run.error_code;
                error_message = run.error_message;
              }
              else run))
unfolding settle_expired_cancellation update_many
settle_expired_cancellation_lem now run_id store run e =
    rw e (elim (Bool-cases (is_abandoned now run)) [
      | inl t ↦ rw t (
        (λ h. (IsAbandoned-iff now run).0 t, λ h. refl),
        lookup-insert_self run_id (cancel_run now run) store.runs,
      )
      | inr f ↦
          rw f ((λ h. absurd (cc), λ h. absurd (let t = (IsAbandoned-iff now run).1 h in cc)), e)
    ])
