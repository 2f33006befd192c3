-- ===== src/Safety/Tests.antt =====
-- src/safety.rs: the theorems at concrete clocks and generations.
use rp2350_keymouse_bridge_f.Common.{
  ◌≡◌, ◌≢◌, ◌↔◌, refl, arith, true, false, none, ◌%◌, ◌&&◌, leb, wrapping_add,
}
use rp2350_keymouse_bridge_f.Safety.{control_lease_ms}
use rp2350_keymouse_bridge_f.Safety.Lease
use rp2350_keymouse_bridge_f.Safety.Lease.{LeaseState, should_release_lem}
use rp2350_keymouse_bridge_f.Safety.Generation.{
  CancellationGeneration, cancel, cancel_times, changed_since, IsLive, changed_since-cancel_times,
}

abbrev lease : LeaseState
lease = record { duration_ms = control_lease_ms; deadline_ms = 0; armed = false }

-- Refreshed 500 ms before the clock wraps.
should_release_lem_example :
    (Lease.should_release lease 7 true ≡ false)
    × (Lease.should_release
          (Lease.refresh lease 18446744073709551116)
          (wrapping_add 18446744073709551116 2000)
          true
        ≡ (true && leb 2000 2000))
    × (Lease.should_release (Lease.clear (Lease.refresh lease 18446744073709551116)) 7 true ≡ false)
unfolding Lease.new
should_release_lem_example =
    should_release_lem 2000 18446744073709551116 2000 7 true refl (omega arith)

zero_duration_panics : Lease.new 0 ≡ none
unfolding Lease.new
zero_duration_panics = refl

wraps_past_zero : cancel (record { generation = 0xffff_ffff }) ≡ record { generation = 1 }
unfolding cancel
wraps_past_zero = refl

changed_since-cancel_times_example :
    let g : CancellationGeneration = record { generation = 0xffff_ffff } in
    IsLive (cancel_times 2 g)
    × ((changed_since (cancel_times 2 g) 0xffff_ffff ≡ true) ↔ (2 % 4294967295 ≢ 0))
changed_since-cancel_times_example =
    changed_since-cancel_times 2 (record { generation = 0xffff_ffff }) (omega arith)
