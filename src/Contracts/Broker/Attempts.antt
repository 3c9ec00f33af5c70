-- ===== src/Contracts/Broker/Attempts.antt =====
-- Expiry that is tried again and again (packages/contracts/src/workstation-broker-domain.ts).
use agent_builder.Common.{
  ℕ, ◌≡◌, ◌+◌, ◌*◌, inl, inr, refl, sym, ap, true, false, List, [], ◌∷◌, Option, none, some,
  find_first, some_inj, ◌∙◌, Result, ok, err, ◌++◌, ltb, leb, if◌then◌else◌, Bool-cases, arith,
}
use agent_builder.Contracts.Broker.Types.{
  WorkstationState, control_plane_ready, waiting_for_user, leased, executing, completed, failed,
  cancelled, expired, Snapshot, DigestItem,
}
use agent_builder.Contracts.Broker.{is_waiting, is_expired_state, within_window_or_null}
use agent_builder.Contracts.Broker.Resume.{
  expire_waiting_execution, not_yet, expired_snapshot, digest_item,
}
use agent_builder.Contracts.Broker.Lifecycle.{Reached, IsOffered}
use agent_builder.Contracts.Broker.Expiry.{waiting-IsOffered, Reached-IsWellFormed}

-- An attempt whose error is passed over, and the attempts at a list of times.
abbrev attempt : Snapshot → Result (Snapshot × Option DigestItem) → Snapshot × List DigestItem
attempt s (err e) = (s, [])
attempt s (ok (t, none)) = (t, [])
attempt s (ok (t, some d)) = (t, d ∷ [])

abbrev pub expire_all : Snapshot → List ℕ → Snapshot × List DigestItem
expire_all s [] = (s, [])
expire_all s (now ∷ times) =
    let (t, items) = attempt s (expire_waiting_execution s now) in
    let (last, more) = expire_all t times in (last, items ++ more)

waiting_not-expired : (w : WorkstationState) → is_waiting w ≡ true → is_expired_state w ≡ false
waiting_not-expired waiting_for_user e = refl
waiting_not-expired control_plane_ready e = absurd (ground arith)
waiting_not-expired leased e = absurd (ground arith)
waiting_not-expired executing e = absurd (ground arith)
waiting_not-expired completed e = absurd (ground arith)
waiting_not-expired failed e = absurd (ground arith)
waiting_not-expired cancelled e = absurd (ground arith)
waiting_not-expired expired e = absurd (ground arith)

offered-within :
    (s : Snapshot) → IsOffered s → within_window_or_null s.freshness_window_seconds ≡ true
offered-within s o = rw o.freshness (ground (arith, o.at_least, o.at_most))

-- A waiting run expires at its time, and not before.
expire-waiting :
    (s : Snapshot) (now : ℕ) (o : IsOffered s)
    → is_waiting s.state ≡ true
    → expire_waiting_execution s now ≡ (
        if ltb now (o.since + o.seconds * 1000)
        then err "The waiting run has not reached its expiry"
        else ok (expired_snapshot s, some (digest_item s now)))
unfolding expire_waiting_execution
expire-waiting s now o w =
    rw
      (
        offered-within s o,
        waiting_not-expired s.state w,
        w,
        ap (λ x. not_yet x now) o.expiry,
        offered-within s o,
      )
      refl

expire-again :
    (s : Snapshot) (now : ℕ)
    → IsOffered s
    → expire_waiting_execution (expired_snapshot s) now ≡ ok (expired_snapshot s, none)
unfolding expire_waiting_execution
expire-again s now o = rw (offered-within s o) refl

expire_all-again :
    (s : Snapshot) (times : List ℕ)
    → IsOffered s
    → expire_all (expired_snapshot s) times ≡ (expired_snapshot s, [])
expire_all-again s [] o = refl
expire_all-again s (now ∷ times) o = rw (expire-again s now o, expire_all-again s times o) refl

-- What the attempts come to: nothing, or the expiry at the first time that is not before it.
abbrev pub expired_at : Snapshot → Option ℕ → Snapshot × List DigestItem
expired_at s none = (s, [])
expired_at s (some now) = (expired_snapshot s, digest_item s now ∷ [])

-- Whenever and however often the expiry of a reached run is tried that waits for its user, the run
-- expires at the first attempt that is not before its expiry, that attempt alone makes a digest item,
-- and without such an attempt the run is as it was.
pub expire_all-first :
    (s : Snapshot) (at : ℕ) (times : List ℕ)
    → Reached s
    → s.state ≡ waiting_for_user
    → s.expires_at ≡ some at
    → expire_all s times ≡ expired_at s (find_first (λ now. leb at now) times)
expire_all-first s at times r w e = run times
  where
    offered : IsOffered s
    offered = (waiting-IsOffered s (Reached-IsWellFormed s r) (rw w refl)).0

    same : offered.since + offered.seconds * 1000 ≡ at
    same = some_inj (sym offered.expiry ∙ e)

    run :
        (times : List ℕ) → expire_all s times ≡ expired_at s (find_first (λ now. leb at now) times)
    run [] = refl
    run (now ∷ times) = elim (Bool-cases (ltb now at)) [
      | inl q ↦
          rw (expire-waiting s now offered (rw w refl), same, q, run times) (rw (before q) refl)
      | inr q ↦
          rw (expire-waiting s now offered (rw w refl), same, q, expire_all-again s times offered)
            (rw (after q) refl)
    ]
      where
        before : ltb now at ≡ true → leb at now ≡ false
        before q = ground (arith, q)

        after : ltb now at ≡ false → leb at now ≡ true
        after q = ground (arith, q)
