-- ===== src/Safety/Generation.antt =====
-- src/safety.rs: `CancellationGeneration`.
use rp2350_keymouse_bridge_f.Common.{
  ℕ, zero, suc, ◌+◌, ◌-◌, ◌%◌, ◌≤◌, ◌<◌, ◌≡◌, ◌↔◌, ◌≢◌, arith, Bool, true, not, ◌==◌, if◌then◌else◌,
  u32_mod,
}

pub record CancellationGeneration : Type 0 where
  pub generation : ℕ

unfoldable pub new : CancellationGeneration
new = record { generation = 1 }

-- The new state, whose generation is also what the call returns.
unfoldable pub cancel : CancellationGeneration → CancellationGeneration
cancel g =
    let next = (g.generation + 1) % u32_mod in record { generation = if next == 0 then 1 else next }

unfoldable pub changed_since : CancellationGeneration → ℕ → Bool
changed_since g snapshot = not (g.generation == snapshot)

-- The value that `n` cancellations leave.
abbrev pub cancel_times : ℕ → CancellationGeneration → CancellationGeneration
cancel_times zero g = g
cancel_times (suc n) g = cancel_times n (cancel g)

abbrev pub IsLive : CancellationGeneration → Type 0
IsLive g = (1 ≤ g.generation) × (g.generation < u32_mod)

cancel-IsLive : (g : CancellationGeneration) → IsLive (cancel g)
unfolding cancel
cancel-IsLive g = ground arith

cancel_lem :
    (g : CancellationGeneration)
    → IsLive g
    → (cancel g).generation ≡ (g.generation - 1 + 1) % 4294967295 + 1
unfolding cancel
cancel_lem g h = ground arith

cancel_times_lem :
    (n : ℕ) (g : CancellationGeneration)
    → IsLive g
    → (cancel_times n g).generation ≡ (g.generation - 1 + n) % 4294967295 + 1
cancel_times_lem zero g h = omega arith
cancel_times_lem (suc n) g h =
    omega (arith, cancel_times_lem n (cancel g) (cancel-IsLive g), cancel_lem g h)

-- A generation stays nonzero and within 32 bits, and after `n` cancellations it differs from what
-- it was exactly when `n` is no multiple of 2^32 - 1: a snapshot is seen as changed by each of the
-- next 2^32 - 2 cancellations, also across the wrap.
pub changed_since-cancel_times :
    (n : ℕ) (g : CancellationGeneration)
    → IsLive g
    → IsLive (cancel_times n g)
      × ((changed_since (cancel_times n g) g.generation ≡ true) ↔ (n % 4294967295 ≢ 0))
unfolding changed_since
changed_since-cancel_times n g h =
    let e = cancel_times_lem n g h in (omega arith, (λ c. ground arith, λ c. ground arith))
