-- ===== src/RuntimeSafety/Refines.antt =====
-- src/runtime_safety.rs: the lease against one on a clock that does not wrap.
use rp2350_keymouse_bridge_f.Common.{
  ℕ, ◌+◌, ◌%◌, ◌≤◌, ◌<◌, ◌≡◌, refl, arith, Option, none, some, Bool, true, false, ◌==◌, leb,
  if◌then◌else◌, u64_mod, Bool-cases, inl, inr, subst,
}
use rp2350_keymouse_bridge_f.Safety.{u64_half_range, deadline_reached}
use rp2350_keymouse_bridge_f.Safety.Lease
use rp2350_keymouse_bridge_f.Safety.Lease.{should_release}
use rp2350_keymouse_bridge_f.Coordinator.{lease_expired}
use rp2350_keymouse_bridge_f.RuntimeSafety.{
  LeaseRefresh, runtime_safety_action, RuntimeLease, Transition, clear_runtime_lease, expire_lease,
  is_armed_for, disarm_other, check_lease, take_refresh, transition,
}

-- The session that a lease is armed for and the time of its last refresh, on an unbounded clock.
pub data Held : Type 0 where
  unarmed : Held
  armed : ℕ → ℕ → Held

-- A refresh for a session at a time, on the unbounded clock.
pub record Seen : Type 0 where
  pub seen_session : ℕ
  pub seen_at : ℕ

abbrev pub Answer : Type 0
Answer = Bool × Held

-- Whether the lease runs out, and what is held then.
abbrev pub expires : ℕ → Held → ℕ → Answer
expires duration unarmed now = (false, unarmed)
expires duration (armed session start) now =
    if leb (start + duration) now then (true, unarmed) else (false, armed session start)

abbrev pub of_session : Held → ℕ → Held
of_session unarmed current = unarmed
of_session (armed session start) current =
    if session == current then armed session start else unarmed

-- A refresh renews what has not run out when it is seen.
abbrev pub renew : ℕ → Held → ℕ → ℕ → Answer
renew duration unarmed current seen = (false, armed current seen)
renew duration (armed session start) current seen =
    if leb (start + duration) seen then (true, unarmed) else (false, armed current seen)

abbrev pub then_expires : ℕ → Answer → ℕ → Answer
then_expires duration (true, held) now = (true, held)
then_expires duration (false, held) now = expires duration held now

-- What a lease should do on a wake.
abbrev pub wake : ℕ → Held → ℕ → ℕ → Option Seen → Answer
wake duration held current now none = expires duration (of_session held current) now
wake duration held current now (some seen) =
    if seen.seen_session == current
    then then_expires duration (renew duration (of_session held current) current seen.seen_at) now
    else expires duration (of_session held current) now

-- A time is looked at after the refresh, and within half the range of the clock of the deadline.
abbrev pub IsTimely : ℕ → Held → ℕ → Type 0
IsTimely duration unarmed now = Unit {0}
IsTimely duration (armed session start) now =
    (start ≤ now) × (now < start + duration + u64_half_range)

abbrev pub at_clock : Option Seen → Option LeaseRefresh
at_clock none = none
at_clock (some seen) =
    some (record { refresh_session = seen.seen_session; observed_at_ms = seen.seen_at % u64_mod })

-- The runtime's lease that stands for what is held.
abbrev pub runtime_lease : ℕ → Held → RuntimeLease
runtime_lease duration unarmed = record {
  lease = record { duration_ms = duration; deadline_ms = 0; armed = false };
  armed_session = none;
}
runtime_lease duration (armed session start) = record {
  lease = record {
    duration_ms = duration;
    deadline_ms = (start + duration) % u64_mod;
    armed = true;
  };
  armed_session = some session;
}

-- A lease that runs out asks for the release only if work is guarded.
abbrev pub as_transition : ℕ → Bool → Answer → Transition
as_transition duration guarded (true, held) = (
  if guarded then some (runtime_safety_action lease_expired) else none,
  runtime_lease duration held,
)
as_transition duration guarded (false, held) = (none, runtime_lease duration held)

-- The times that a refresh, for the current session or not, makes the lease look at.
abbrev pub RefreshIsTimely : ℕ → Held → ℕ → ℕ → ℕ → Bool → Type 0
RefreshIsTimely duration held current now seen_at true =
    IsTimely duration held seen_at × IsTimely duration (renew duration held current seen_at).1 now
RefreshIsTimely duration held current now seen_at false = IsTimely duration held now

abbrev pub WakeIsTimely : ℕ → Held → ℕ → ℕ → Option Seen → Type 0
WakeIsTimely duration held current now none = IsTimely duration (of_session held current) now
WakeIsTimely duration held current now (some seen) =
    RefreshIsTimely duration (of_session held current) current now seen.seen_at
      (seen.seen_session == current)

module _ (duration : ℕ) (short : duration < u64_half_range) (guarded : Bool) where
  should_release_armed :
      (start now : ℕ)
      → start ≤ now
      → now < start + duration + u64_half_range
      → should_release
          (record {
            duration_ms = duration;
            deadline_ms = (start + duration) % u64_mod;
            armed = true;
          })
          (now % u64_mod)
          true
        ≡ leb (start + duration) now
  unfolding should_release deadline_reached
  should_release_armed start now l h = ground arith

  should_release_unarmed :
      (deadline now : ℕ)
      → should_release
          (record { duration_ms = duration; deadline_ms = deadline; armed = false })
          now
          true
        ≡ false
  unfolding should_release
  should_release_unarmed deadline now = refl

  check_lease-expires :
      (held : Held) (now : ℕ)
      → IsTimely duration held now
      → check_lease (runtime_lease duration held) (now % u64_mod) guarded
        ≡ as_transition duration guarded (expires duration held now)
  unfolding check_lease expire_lease clear_runtime_lease Lease.clear
  check_lease-expires unarmed now t = ground (arith, should_release_unarmed 0 (now % u64_mod))
  check_lease-expires (armed session start) now t =
      ground (arith, should_release_armed start now t.0 t.1)

  disarm_other-of_session :
      (held : Held) (current : ℕ)
      → disarm_other (runtime_lease duration held) current
        ≡ runtime_lease duration (of_session held current)
  unfolding disarm_other clear_runtime_lease Lease.clear
  disarm_other-of_session unarmed current = refl
  disarm_other-of_session (armed session start) current = ground arith

  refreshed :
      (held : Held) (current seen : ℕ)
      → (record {
        lease = Lease.refresh (runtime_lease duration held).lease (seen % u64_mod);
        armed_session = some current;
      })
        ≡ runtime_lease duration (armed current seen)
  unfolding Lease.refresh
  refreshed unarmed current seen = ground arith
  refreshed (armed session start) current seen = ground arith

  -- A refresh for the session that the lease is held for, if it is held.
  take_refresh-renew :
      (held : Held) (current now : ℕ) (seen : ℕ)
      → of_session held current ≡ held
      → IsTimely duration held seen
      → IsTimely duration (renew duration held current seen).1 now
      → take_refresh
          (runtime_lease duration held)
          current
          (now % u64_mod)
          guarded
          (record { refresh_session = current; observed_at_ms = seen % u64_mod })
        ≡ as_transition duration guarded
            (then_expires duration (renew duration held current seen) now)
  unfolding take_refresh is_armed_for expire_lease clear_runtime_lease Lease.clear
  take_refresh-renew unarmed current now seen own early t =
      ground (arith, refreshed unarmed current seen, check_lease-expires (armed current seen) now t)
  take_refresh-renew (armed session start) current now seen own early t = ground (
    arith,
    refreshed (armed session start) current seen,
    should_release_armed start seen early.0 early.1,
    check_lease-expires (armed current seen) now,
  )

  take_refresh-other :
      (l : RuntimeLease) (current now : ℕ) (refresh : LeaseRefresh)
      → (refresh.refresh_session == current) ≡ false
      → take_refresh l current now guarded refresh ≡ check_lease l now guarded
  unfolding take_refresh
  take_refresh-other l current now refresh e = rw (e) refl

  pub of_session_idem :
      (held : Held) (current : ℕ)
      → of_session (of_session held current) current ≡ of_session held current
  of_session_idem unarmed current = refl
  of_session_idem (armed session start) current = ground arith

  take_refresh-wake :
      (held : Held) (current now : ℕ) (seen : Seen)
      → of_session held current ≡ held
      → RefreshIsTimely duration held current now seen.seen_at (seen.seen_session == current)
      → take_refresh
          (runtime_lease duration held)
          current
          (now % u64_mod)
          guarded
          (record { refresh_session = seen.seen_session; observed_at_ms = seen.seen_at % u64_mod })
        ≡ as_transition duration guarded (
            if seen.seen_session == current
            then then_expires duration (renew duration held current seen.seen_at) now
            else expires duration held now)
  take_refresh-wake held current now seen own t = elim (Bool-cases (seen.seen_session == current)) [
    | inl e ↦
        let times : RefreshIsTimely duration held current now seen.seen_at true =
          subst (RefreshIsTimely duration held current now seen.seen_at) e t in
        let same : seen.seen_session ≡ current = ground (arith, e) in
        rw (e, same) (take_refresh-renew held current now seen.seen_at own times.0 times.1)
    | inr e ↦
        rw
          (
            e,
            take_refresh-other (runtime_lease duration held) current (now % u64_mod)
                (record {
                  refresh_session = seen.seen_session;
                  observed_at_ms = seen.seen_at % u64_mod;
                })
                e,
          )
          (check_lease-expires held now
            (subst (RefreshIsTimely duration held current now seen.seen_at) e t))
  ]

  -- A lease whose duration is under half the range of the clock does on each wake what a lease on a
  -- clock that does not wrap would, when every time it looks at is between the last refresh and half
  -- the range of the clock after the deadline. A lease held for another session is dropped and asks
  -- for nothing. A refresh for the current session renews the lease from the time the refresh was
  -- seen, however late it is handled, unless the deadline was reached when it was seen; a refresh for
  -- another session changes nothing. A deadline that is reached then drops the lease, and asks for
  -- the fail-safe steps exactly when work is guarded.
  pub transition-wake :
      (held : Held) (current now : ℕ) (pending : Option Seen)
      → WakeIsTimely duration held current now pending
      → transition (runtime_lease duration held) current (now % u64_mod) guarded (at_clock pending)
        ≡ as_transition duration guarded (wake duration held current now pending)
  unfolding transition
  transition-wake held current now none t =
      rw (disarm_other-of_session held current)
        (check_lease-expires (of_session held current) now t)
  transition-wake held current now (some seen) t = rw (disarm_other-of_session held current) (
      take_refresh-wake (of_session held current) current now seen (of_session_idem held current) t)
