-- ===== src/Worker/Heartbeat.antt =====
-- `heartbeat` and `withSerializableTransaction` (apps/worker/src/store.ts).
use agent_builder.Common.{
  ℕ, zero, suc, ◌+◌, String, Bool, true, false, not, ◌&&◌, ◌||◌, List, [], ◌∷◌, Option, none, some,
  Result, ok, err, ◌>>=◌, ◌==◌, opt_eq, if◌then◌else◌, is_some, is_none, keep,
}
use agent_builder.Worker.Model.{Run, Grant, Channel, Db}
use agent_builder.Worker.Grants.{find_grant_of, update_run}
use agent_builder.Worker.Cancel.{lock_run}
use agent_builder.Worker.Complete.{
  channel_key, production_required, current_release_of, promoted_at_of, is_withdrawn, out_of_window,
}

pub record HeartbeatResult : Type 0 where
  pub owned : Bool
  pub cancellation_requested : Bool

-- A scalar subquery: null where no row has the key, an error where two have it.
unfoldable pub only_channel : List Channel → Result (Option Channel)
only_channel [] = ok none
only_channel (c ∷ []) = ok (some c)
only_channel (c ∷ d ∷ rest) = err "21000"

unfoldable pub channel_of : Run → List Channel → Result (Option Channel)
unfolding only_channel
channel_of r channels = only_channel (keep (λ c. c.key == channel_key r.project) channels)

-- `authorityInvalid` for a row that the update returned.
unfoldable pub authority_invalid : Run → Grant → Option Channel → Option ℕ → ℕ → Bool
authority_invalid r g channel epoch now =
    is_withdrawn g.state
    || (out_of_window g now
        || (production_required r.development_draft r.provider_kind
            && (not (opt_eq (current_release_of channel) (some r.release))
                || (is_none epoch || not (opt_eq (promoted_at_of channel) epoch)))))

unfoldable pub renew : ℕ → ℕ → Run → Run
renew lease_ms now r = record r {
  heartbeat_at = some now;
  lease_expires_at = some (now + lease_ms);
  updated_at = now;
}

abbrev not_owned : HeartbeatResult
not_owned = record { owned = false; cancellation_requested = true }

unfoldable pub heartbeat_row : Run → Grant → ℕ → Option ℕ → ℕ → Db → Result (HeartbeatResult × Db)
unfolding channel_of authority_invalid renew update_run
heartbeat_row r g lease_ms epoch now db = do
  channel ← channel_of r db.catalog.channels
  ok (
    record {
      owned = true;
      cancellation_requested =
          authority_invalid r g channel epoch now || is_some r.cancel_requested_at;
    },
    record db { core = update_run r.id (renew lease_ms now) db.core },
  )

abbrev held : Option Run → List Grant → Option (Run × Grant)
held none grants = none
held (some r) grants = elim (find_grant_of r.grant grants) [ none ↦ none | some g ↦ some (r, g) ]

-- `heartbeat`: without a running run of the worker and its grant, no row is updated.
unfoldable pub heartbeat : ℕ → ℕ → ℕ → Option ℕ → ℕ → Db → Result (HeartbeatResult × Db)
unfolding lock_run heartbeat_row
heartbeat run worker lease_ms epoch now db =
    elim (held (lock_run run worker db.core) db.core.grants) [
      | none ↦ ok (not_owned, db)
      | some (r, g) ↦ heartbeat_row r g lease_ms epoch now db
    ]

-- How one attempt at a serializable transaction ends.
pub data Attempt {ℓ} (A : Type ℓ) : Type ℓ where
  done : A → Attempt A
  serialization_failure : String → Attempt A
  other_error : String → Attempt A

-- The loop over the attempts left, from attempt `i` on: only a serialization failure is tried
-- again, and not after the last attempt.
unfoldable pub retry_from {ℓ} : {A : Type ℓ} → ℕ → ℕ → (ℕ → Attempt A) → Result A
retry_from zero i operation = err "SERIALIZABLE_TRANSACTION_RETRY_EXHAUSTED"
retry_from (suc left) i operation =
    let again = retry_from left (suc i) operation in
    elim (operation i) [
      | done a ↦ ok a
      | serialization_failure code ↦ if i == 3 then err code else again
      | other_error code ↦ err code
    ]

unfoldable pub with_serializable_transaction {ℓ} : {A : Type ℓ} → (ℕ → Attempt A) → Result A
unfolding retry_from
with_serializable_transaction operation = retry_from 4 0 operation
