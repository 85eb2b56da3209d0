-- ===== src/Optimizer/RunRecovery/Settlement.antt =====
-- apps/api/src/scheduling/optimizer/schedule-run-recovery.ts: which runs a terminal callback
-- settles, which it leaves, and that no callback is lost or kept for ever.
use ultrakil_scheduling_syst.Prelude.{
  ℕ, ◌<◌, ◌≡◌, ◌≢◌, refl, ◌↔◌, ◌⊎◌, inl, inr, Bool, true, false, Option, none, some, String,
  if◌then◌else◌, nat_eq, string_eq, lookup, insert, lookup-insert_self, is_some, Bool-cases, arith,
}
use ultrakil_scheduling_syst.Optimizer.RunRecovery.{
  ScheduleRunStatus, running, ScheduleRun, TerminalFailure, DispatchOutbox, RecoveryStore,
  QstashOutcome, run_failed, deferred, ignored, update_many, is_running, is_active, is_by, is_after,
  is_abandoned, cancel_run, is_marked, consume_marker, consume_terminal_failure, can_fail, fail_run,
  is_leased, settle_terminal_failure,
}

-- A lease has its holder and its end together.
abbrev pub IsLeaseWhole : ScheduleRun → Type 0
IsLeaseWhole run = is_some run.execution_lease_id ≡ is_some run.execution_lease_expires_at

-- A worker may still finish the run: it is running, under a lease that ends after `now`.
abbrev pub IsHeld : ℕ → ScheduleRun → Type 0
IsHeld now run =
    (run.status ≡ running) × ((end : ℕ) × (run.execution_lease_expires_at ≡ some end) × (now < end))

running_iff : (status : ScheduleRunStatus) → (is_running status ≡ true) ↔ (status ≡ running)
running_iff status = ground arith

after_iff :
    (now : ℕ) (o : Option ℕ) → (is_after now o ≡ true) ↔ ((end : ℕ) × (o ≡ some end) × (now < end))
after_iff now none = (λ h. absurd (cc), λ h. let (t, e, l) = h in absurd (cc))
after_iff now (some t) = (
  λ h. (t, refl, ground arith),
  λ h. let (u, e, l) = h in let same : t ≡ u = cc in ground (arith, same),
)

leased_iff : (now : ℕ) (run : ScheduleRun) → (is_leased now (some run) ≡ true) ↔ IsHeld now run
leased_iff now run =
    let on = running_iff run.status in
    let late = after_iff now run.execution_lease_expires_at in
    (λ h. (on.0 (ground arith), late.0 (ground arith)), λ h. rw (on.1 h.0, late.1 h.1) refl)

-- A run that a worker holds is neither failed nor cancelled.
held_neither :
    (terminal : TerminalFailure) (run : ScheduleRun)
    → IsLeaseWhole run
    → is_leased terminal.recorded_at (some run) ≡ true
    → (can_fail terminal run ≡ false) × (is_abandoned terminal.recorded_at run ≡ false)
held_neither terminal run whole h =
    let live : is_after terminal.recorded_at run.execution_lease_expires_at ≡ true = ground arith in
    let (there, early) = live_lease terminal.recorded_at run.execution_lease_expires_at live in
    (ground (arith, whole, there, early), ground (arith, there, early))
  where
    live_lease :
        (now : ℕ) (o : Option ℕ)
        → is_after now o ≡ true
        → (is_some o ≡ true) × (is_by now o ≡ false)
    live_lease now none h = absurd (cc)
    live_lease now (some t) h = (refl, ground arith)

-- The four ends of the transaction, by its three conditions.
abbrev settle_cases :
    Bool
    → Bool
    → Bool
    → QstashOutcome × RecoveryStore
    → QstashOutcome × RecoveryStore
    → QstashOutcome × RecoveryStore
    → QstashOutcome × RecoveryStore
    → QstashOutcome × RecoveryStore
settle_cases b c d x y z w = if b then x else if c then y else if d then z else w

-- A property of the two ends that consume the marker, of a settled run and of one left, and of the
-- end that keeps it.
settle_cases_elim :
    (P : QstashOutcome × RecoveryStore → Type 0) (b c d : Bool)
    (x y z w : QstashOutcome × RecoveryStore)
    → (b ≡ true → P x)
    → (c ≡ true → P y)
    → (d ≡ true → P z)
    → P w
    → P (settle_cases b c d x y z w)
settle_cases_elim P true c d x y z w hx hy hz hw = hx refl
settle_cases_elim P false true d x y z w hx hy hz hw = hy refl
settle_cases_elim P false false true x y z w hx hy hz hw = hz refl
settle_cases_elim P false false false x y z w hx hy hz hw = hw

module _ (run_id dispatch_id : String) (terminal : TerminalFailure) (store : RecoveryStore) where
  abbrev failed_end : ScheduleRun → QstashOutcome × RecoveryStore
  failed_end run = (
    run_failed,
    consume_terminal_failure run_id dispatch_id terminal
        (record store { runs = insert run_id (fail_run terminal run) store.runs }),
  )

  abbrev cancelled_end : ScheduleRun → QstashOutcome × RecoveryStore
  cancelled_end run = (
    ignored,
    consume_terminal_failure run_id dispatch_id terminal
        (record store { runs = insert run_id (cancel_run terminal.recorded_at run) store.runs }),
  )

  abbrev left_end : QstashOutcome × RecoveryStore
  left_end = (ignored, consume_terminal_failure run_id dispatch_id terminal store)

  -- What the transaction does to a run that is there, by its three conditions.
  settled_by :
      (run : ScheduleRun)
      → lookup run_id store.runs ≡ some run
      → settle_terminal_failure run_id dispatch_id terminal store
        ≡ settle_cases
            (can_fail terminal run)
            (is_abandoned terminal.recorded_at run)
            (is_leased terminal.recorded_at (some run))
            (failed_end run)
            (cancelled_end run)
            (deferred, store)
            left_end
  unfolding settle_terminal_failure update_many
  settled_by run e = rw e (elim (Bool-cases (can_fail terminal run)) [
    | inl t ↦ rw t refl
    | inr f ↦ rw f (elim (Bool-cases (is_abandoned terminal.recorded_at run)) [
      | inl t ↦ rw t refl
      | inr g ↦ rw g refl
    ])
  ])

  -- The transaction defers a callback exactly while a worker may still finish the run, unless a
  -- manager's cancellation can be settled; a lease is whole.
  pub settle_terminal_failure-IsHeld :
      (run : ScheduleRun)
      → lookup run_id store.runs ≡ some run
      → IsLeaseWhole run
      → ((settle_terminal_failure run_id dispatch_id terminal store).0 ≡ deferred)
        ↔ IsHeld terminal.recorded_at run
  settle_terminal_failure-IsHeld run e whole = rw (settled_by run e) (
    settle_cases_elim (λ o. o.0 ≡ deferred → IsHeld terminal.recorded_at run)
        (can_fail terminal run) (is_abandoned terminal.recorded_at run)
        (is_leased terminal.recorded_at (some run)) (failed_end run) (cancelled_end run)
        (deferred, store) left_end (λ t h. absurd (cc)) (λ t h. absurd (cc))
        (λ t h. (leased_iff terminal.recorded_at run).0 t) (λ h. absurd (cc)),
    λ h.
        let live = (leased_iff terminal.recorded_at run).1 h in
        let (p, q) = held_neither terminal run whole live in rw (p, q, live) refl,
  )

  consumed :
      (after : RecoveryStore) (row : DispatchOutbox)
      → lookup dispatch_id after.outbox ≡ some row
      → is_marked run_id terminal row ≡ true
      → lookup dispatch_id (consume_terminal_failure run_id dispatch_id terminal after).outbox
        ≡ some (consume_marker row)
  unfolding consume_terminal_failure update_many
  consumed after row e marked =
      rw (e, marked) (lookup-insert_self dispatch_id (consume_marker row) after.outbox)

  -- The transaction keeps the marker of a callback that it defers, and consumes that of any other.
  pub marker_after :
      (row : DispatchOutbox) (run : ScheduleRun)
      → lookup dispatch_id store.outbox ≡ some row
      → lookup run_id store.runs ≡ some run
      → is_marked run_id terminal row ≡ true
      → (((settle_terminal_failure run_id dispatch_id terminal store).0 ≡ deferred)
          × (lookup dispatch_id (settle_terminal_failure run_id dispatch_id terminal store).1.outbox
              ≡ some row))
        ⊎ (((settle_terminal_failure run_id dispatch_id terminal store).0 ≢ deferred)
            × (lookup dispatch_id
                  (settle_terminal_failure run_id dispatch_id terminal store).1.outbox
                ≡ some (consume_marker row)))
  marker_after row run e there marked = rw (settled_by run there) (
      settle_cases_elim
        (λ o.
          ((o.0 ≡ deferred) × (lookup dispatch_id o.1.outbox ≡ some row))
          ⊎ ((o.0 ≢ deferred) × (lookup dispatch_id o.1.outbox ≡ some (consume_marker row))))
        (can_fail terminal run) (is_abandoned terminal.recorded_at run)
        (is_leased terminal.recorded_at (some run)) (failed_end run) (cancelled_end run)
        (deferred, store) left_end
        (λ t. inr (
          λ h. cc,
          consumed (record store { runs = insert run_id (fail_run terminal run) store.runs }) row e
              marked,
        ))
        (λ t. inr (
          λ h. cc,
          consumed
              (record store {
                runs = insert run_id (cancel_run terminal.recorded_at run) store.runs;
              })
              row e marked,
        ))
        (λ t. inl (refl, e)) (inr (λ h. cc, consumed store row e marked)))

  runs_consumed :
      (after : RecoveryStore)
      → (consume_terminal_failure run_id dispatch_id terminal after).runs ≡ after.runs
  unfolding consume_terminal_failure
  runs_consumed after = refl

  -- A run that is over keeps every column.
  pub over_stays :
      (run : ScheduleRun)
      → lookup run_id store.runs ≡ some run
      → is_active run.status ≡ false
      → (settle_terminal_failure run_id dispatch_id terminal store).1.runs ≡ store.runs
  over_stays run e over = rw (settled_by run e) (
      settle_cases_elim (λ o. o.1.runs ≡ store.runs) (can_fail terminal run)
        (is_abandoned terminal.recorded_at run) (is_leased terminal.recorded_at (some run))
        (failed_end run) (cancelled_end run) (deferred, store) left_end
        (λ t. absurd (ground (arith, over))) (λ t. absurd (ground (arith, over))) (λ t. refl)
        (runs_consumed store))
