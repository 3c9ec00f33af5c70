-- ===== src/Worker/Outcomes/Heartbeat.antt =====
-- The branches of `heartbeat` (apps/worker/src/store.ts) as a rule.
use agent_builder.Common.{ℕ, inl, inr, Option, Ensures-then, Option-cases}
use agent_builder.Worker.Model.{Run, Core, Db}
use agent_builder.Worker.Grants.{find_grant_of, update_run}
use agent_builder.Worker.Cancel.{lock_run}
use agent_builder.Worker.Heartbeat.{heartbeat, heartbeat_row, channel_of, renew}
use agent_builder.Worker.Outcomes.{CoreEnsures, IsHeld, lock_run-IsHeld}

pub heartbeat_core {κ} :
    (P : Core → Type κ) (run worker lease_ms : ℕ) (epoch : Option ℕ) (now : ℕ) (db : Db)
    → P db.core
    → ((r : Run) → IsHeld run worker db.core r → P (update_run r.id (renew lease_ms now) db.core))
    → CoreEnsures P (heartbeat run worker lease_ms epoch now db)
unfolding heartbeat heartbeat_row
heartbeat_core P run worker lease_ms epoch now db same renews =
    elim (Option-cases (lock_run run worker db.core)) [
      | inl e ↦ rw (e, heartbeat) same
      | inr (r, e) ↦ elim (Option-cases (find_grant_of r.grant db.core.grants)) [
        | inl missing ↦ rw (e, heartbeat, missing) same
        | inr (g, found) ↦
            rw (e, heartbeat, found)
              (Ensures-then _ (channel_of r db.catalog.channels) _
                (λ channel. renews r (lock_run-IsHeld run worker db.core r e)))
      ]
    ]
