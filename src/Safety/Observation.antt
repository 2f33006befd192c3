-- ===== src/Safety/Observation.antt =====
-- src/safety.rs: `CancellationObservation`.
use rp2350_keymouse_bridge_f.Common.{
  ℕ, ◌≡◌, ap, arith, Bool, true, false, not, ◌||◌, ◌==◌, if◌then◌else◌, List, [], ◌∷◌, foldl,
}

pub record CancellationObservation : Type 0 where
  pub baseline : ℕ
  pub cancelled : Bool

unfoldable pub new : ℕ → CancellationObservation
new baseline = record { baseline = baseline; cancelled = false }

-- The new state, whose flag is also what the call returns.
unfoldable pub observe : CancellationObservation → ℕ → CancellationObservation
observe o generation = if not (generation == o.baseline) then record o { cancelled = true } else o

-- Some published generation differs from the baseline.
abbrev pub any_changed : ℕ → List ℕ → Bool
any_changed baseline [] = false
any_changed baseline (g ∷ gs) = not (g == baseline) || any_changed baseline gs

observe_all :
    (o : CancellationObservation) (gs : List ℕ)
    → foldl observe o gs
      ≡ record { baseline = o.baseline; cancelled = o.cancelled || any_changed o.baseline gs }
unfolding observe
observe_all o [] = ground arith
observe_all o (g ∷ gs) = ground (arith, observe_all (observe o g) gs)

-- An operation is cancelled exactly when some generation that it observed differs from its
-- baseline: stale values equal to the baseline do not cancel it, and none clears it again.
pub observe_lem :
    (baseline : ℕ) (gs : List ℕ)
    → (foldl observe (new baseline) gs).cancelled ≡ any_changed baseline gs
unfolding new
observe_lem baseline gs = ap (λ (o : CancellationObservation). o.cancelled) (observe_all _ gs)
