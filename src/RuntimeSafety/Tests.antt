-- ===== src/RuntimeSafety/Tests.antt =====
-- src/runtime_safety.rs: the lease at concrete clocks.
use rp2350_keymouse_bridge_f.Common.{◌≡◌, refl, arith, none, some, [], true, ◌%◌, u64_mod}
use rp2350_keymouse_bridge_f.Common.Heapless.{list_vec}
use rp2350_keymouse_bridge_f.Safety.{control_lease_ms, deadline_reached}
use rp2350_keymouse_bridge_f.Safety.Lease
use rp2350_keymouse_bridge_f.Protocol.{CommandType, no_response_heartbeat}
use rp2350_keymouse_bridge_f.Commands.Owned.{from_frame}
use rp2350_keymouse_bridge_f.Coordinator.{
  raw, own_request_body, own_body, classify_request, no_response, command,
}
use rp2350_keymouse_bridge_f.Coordinator.Cache
use rp2350_keymouse_bridge_f.Coordinator.Admit.{admit_prepared}
use rp2350_keymouse_bridge_f.Commands.Owned.{OwnedCommand}
use rp2350_keymouse_bridge_f.RuntimeSafety.{
  admit_runtime_request, remaining_ms, transition, new_runtime_lease,
}
use rp2350_keymouse_bridge_f.RuntimeSafety.Refines.{
  Held, unarmed, armed, Seen, runtime_lease, at_clock, wake, as_transition, transition-wake,
}

-- 500 ms before the clock wraps.
abbrev held : Held
held = armed 3 18446744073709551116

abbrev late_refresh : Seen
late_refresh = record { seen_session = 3; seen_at = 18446744073709553115 }

heartbeat_renews :
    admit_runtime_request list_vec Cache.new
      (record {
        version = 2;
        flags = 1;
        sequence = 9;
        command_type = CommandType.heartbeat;
        fingerprint = 9;
        request_kind = no_response_heartbeat;
        completion_token = none;
        body = raw [];
        runtime_session = 3;
      })
      true
      3
      100
    ≡ some (
      record {
        admission = no_response (record {
          version = 2;
          flags = 1;
          sequence = 9;
          command_type = CommandType.heartbeat;
          fingerprint = 9;
          request_kind = no_response_heartbeat;
          completion_token = none;
          body = command OwnedCommand.heartbeat;
          runtime_session = 3;
        });
        lease_refresh = some (record { refresh_session = 3; observed_at_ms = 100 });
      },
      Cache.new,
    )
unfolding admit_runtime_request admit_prepared own_request_body own_body from_frame classify_request
heartbeat_renews = refl

new_lease : new_runtime_lease control_lease_ms ≡ some (runtime_lease control_lease_ms unarmed)
unfolding new_runtime_lease Lease.new
new_lease = refl

milliseconds_left : remaining_ms (runtime_lease 2000 (armed 3 100)) 700 ≡ some 1400
unfolding remaining_ms Lease.active_deadline Lease.should_release deadline_reached
milliseconds_left = refl

-- The refresh was seen 1 ms before the deadline and is handled long after it.
transition-wake_example :
    transition
      (runtime_lease 2000 held)
      3
      (18446744073709554000 % u64_mod)
      true
      (at_clock (some late_refresh))
    ≡ as_transition 2000 true (wake 2000 held 3 18446744073709554000 (some late_refresh))
transition-wake_example =
    transition-wake 2000 (omega arith) true held 3 18446744073709554000 (some late_refresh)
      ((omega arith, omega arith), (omega arith, omega arith))
