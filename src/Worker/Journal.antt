-- ===== src/Worker/Journal.antt =====
-- The append-only side of a worker transaction (apps/worker/src/store.ts): run events, platform
-- events, audit rows, metric samples and the delivery of a digest. None of them touches a run or a
-- grant: they take the core of the database and return a journal.
use agent_builder.Common.{
  ℕ, ◌+◌, max, String, Bool, true, false, not, ◌&&◌, ◌||◌, List, [], ◌∷◌, Option, none, some,
  Result, ok, err, ◌==◌, leb, ltb, opt_eq, if◌then◌else◌, any, find_first, find_row,
}
use agent_builder.Worker.Json.{Fields}
use agent_builder.Worker.Model.{
  Run, Core, Journal, Catalog, RunEvent, DeliveryAttempt, DeliveryState, delivered, DigestSnapshot,
  Cursor, same_delivery,
}

abbrev pub system_actor : String
system_actor = "system:worker"

abbrev pub find_run : ℕ → List Run → Option Run
find_run = find_row (λ r. r.id)

-- `_max.sequence ?? 0` over the events of a run.
unfoldable pub latest_sequence : ℕ → List RunEvent → ℕ
latest_sequence run [] = 0
latest_sequence run (e ∷ es) =
    let rest = latest_sequence run es in if e.run == run then max e.sequence rest else rest

pub record EventInput : Type 0 where
  pub phase : String
  pub state : String
  pub message : String
  pub duration_ms : Option ℕ
  pub cost : Option ℕ
  pub metadata : Fields

-- The row that `appendRunEvent` creates for a run.
abbrev run_event : Run → EventInput → Journal → RunEvent
run_event r input j = record {
  workspace = r.workspace;
  department = r.department;
  run = r.id;
  sequence = latest_sequence r.id j.run_events + 1;
  phase = input.phase;
  state = input.state;
  message = input.message;
  duration_ms = input.duration_ms;
  cost = input.cost;
  metadata = input.metadata;
}

unfoldable pub append_run_event : Core → ℕ → EventInput → Journal → Result Journal
append_run_event core run input j = elim (find_run run core.runs) [
  | none ↦ err "EXECUTION_RUN_MISSING_FOR_EVENT"
  | some r ↦ ok (record j { run_events = run_event r input j ∷ j.run_events })
]

unfoldable pub append_platform_event : Core → ℕ → String → Fields → Journal → Result Journal
append_platform_event core run kind summary j = elim (find_run run core.runs) [
  | none ↦ err "EXECUTION_RUN_MISSING_FOR_PLATFORM_EVENT"
  | some r ↦ ok (record j {
    platform_events =
        record {
          workspace = r.workspace;
          department = r.department;
          kind = kind;
          entity_type = "ExecutionRun";
          entity_id = run;
          summary = summary;
          actor = system_actor;
        }
        ∷ j.platform_events;
  })
]

-- `auditEvent.create({ data: auditData(...) })`, scoped by the run's own workspace.
unfoldable pub append_audit : String → Run → Fields → Journal → Journal
append_audit action r details j = record j {
  audit =
      record {
        workspace = r.workspace;
        department = r.department;
        actor = system_actor;
        action = action;
        entity_type = "ExecutionRun";
        entity_id = r.id;
        details = details;
      }
      ∷ j.audit;
}

pub data Delivery : Type 0 where
  delivery_made : Delivery
  delivery_failed : String → Delivery

abbrev delivery_state : Delivery → DeliveryState
delivery_state delivery_made = delivered
delivery_state (delivery_failed code) = DeliveryState.failed

abbrev is_made : Delivery → Bool
is_made delivery_made = true
is_made (delivery_failed code) = false

abbrev delivery_error : Delivery → Option String
delivery_error delivery_made = none
delivery_error (delivery_failed code) = some code

abbrev pub is_cursor_of : DigestSnapshot → Cursor → Bool
is_cursor_of s c = c.workspace == s.workspace && (c.scope_key == s.scope_key && c.actor == s.actor)

unfoldable pub find_cursor : DigestSnapshot → List Cursor → Option Cursor
find_cursor s cursors = find_first (is_cursor_of s) cursors

-- `attentionCursor.updateMany`, guarded by `lastDeliveredEventSequence < eventSequenceThrough`.
unfoldable pub advance_cursor : DigestSnapshot → ℕ → List Cursor → List Cursor
advance_cursor s now [] = []
advance_cursor s now (c ∷ cs) =
    (if is_cursor_of s c && ltb c.last_sequence s.sequence_through
      then record c { last_sequence = s.sequence_through; last_delivered_at = some now }
      else c)
    ∷ advance_cursor s now cs

-- The attempt row, unless the snapshot has one under this key, or is delivered already and this
-- is no failure.
unfoldable pub add_attempt :
    DigestSnapshot → ℕ → Delivery → ℕ → List DeliveryAttempt → List DeliveryAttempt
add_attempt s run d now rows =
    let same_key =
      any
        (λ a.
          a.snapshot == s.id && (a.key_run == run && same_delivery a.key_state (delivery_state d)))
        rows in
    let already = any (λ a. a.snapshot == s.id && same_delivery a.state delivered) rows in
    if same_key
    then rows
    else if not already || not (is_made d)
    then record {
      workspace = s.workspace;
      department = s.department;
      snapshot = s.id;
      key_run = run;
      key_state = delivery_state d;
      state = delivery_state d;
      error = delivery_error d;
      delivered_at = if is_made d then some now else none;
    }
      ∷ rows
    else rows

-- The writes of `recordDigestDelivery` once its reads have passed.
unfoldable pub deliver : DigestSnapshot → ℕ → Delivery → ℕ → Journal → Journal
unfolding add_attempt advance_cursor
deliver s run d now j = record j {
  deliveries = add_attempt s run d now j.deliveries;
  cursors = if is_made d then advance_cursor s now j.cursors else j.cursors;
}

-- The check of the cursor, made for a delivery alone: a window that begins at or before the
-- cursor was delivered before.
unfoldable pub deliver_checked : DigestSnapshot → ℕ → Delivery → ℕ → Journal → Result Journal
unfolding deliver find_cursor
deliver_checked s run (delivery_failed code) now j = ok (deliver s run (delivery_failed code) now j)
deliver_checked s run delivery_made now j = elim (find_cursor s j.cursors) [
  | none ↦ err "DIGEST_CURSOR_MISSING"
  | some c ↦
      if leb s.sequence_from c.last_sequence then ok j else ok (deliver s run delivery_made now j)
]

abbrev pub same_scope : DigestSnapshot → Run → Bool
same_scope s r = s.workspace == r.workspace && opt_eq s.department r.department

unfoldable pub deliver_snapshot :
    Option DigestSnapshot → Run → Delivery → ℕ → Journal → Result Journal
unfolding deliver_checked
deliver_snapshot none r d now j = err "DIGEST_SCOPE_MISMATCH"
deliver_snapshot (some s) r d now j =
    if same_scope s r then deliver_checked s r.id d now j else err "DIGEST_SCOPE_MISMATCH"

unfoldable pub record_digest_delivery : Core → Catalog → ℕ → Delivery → ℕ → Journal → Result Journal
unfolding deliver_snapshot
record_digest_delivery core catalog run d now j = elim (find_run run core.runs) [
  | none ↦ err "EXECUTION_RUN_MISSING_FOR_DIGEST_DELIVERY"
  | some r ↦ elim r.digest_snapshot [
    | none ↦ ok j
    | some id ↦ deliver_snapshot (find_row (λ s. s.id) id catalog.snapshots) r d now j
  ]
]
