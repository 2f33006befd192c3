-- ===== src/Executor/Cancel/Polls.antt =====
-- src/command_executor.rs: the checks and delays of a command, in a row.
use rp2350_keymouse_bridge_f.Common.{
  ℕ, ◌≡◌, ◌<◌, refl, arith, List, [], ◌∷◌, if◌then◌else◌, ok, err,
}
use rp2350_keymouse_bridge_f.Safety.Observation.{any_changed}
use rp2350_keymouse_bridge_f.Errors.{cancelled}
use rp2350_keymouse_bridge_f.Executor.{Device, new_wait, HidBackend, Polled, check_wait, delay_wait}
use rp2350_keymouse_bridge_f.Executor.Cancel.{
  IsDevice, Knows, Answers, check_wait-Answers, delay_wait-Answers,
}

-- A cancellation point of a command: a check, or a delay.
pub data Poll : Type 0 where
  check : Poll
  delay : ℕ → Poll

module _ {D : Type 0} (h : Device D) (fuel : ℕ) where
  abbrev pub poll : Poll → HidBackend D → Polled D
  poll check s = check_wait h s
  poll (delay ms) s = delay_wait h fuel ms s

  -- The answer of the last of the polls, however the earlier ones were answered.
  abbrev pub last_poll : List Poll → Poll → HidBackend D → Polled D
  last_poll [] p s = poll p s
  last_poll (q ∷ qs) p s = last_poll qs p (poll q s).0

  poll-Answers :
      {taken : D → List ℕ} {left : D → ℕ} (laws : IsDevice h taken left)
      (few : (d : D) → left d < fuel) (baseline : ℕ) (p : Poll) (s : HidBackend D)
      → Knows h taken left laws baseline s
      → Answers h taken left laws baseline (poll p s)
  poll-Answers laws few baseline check s k = check_wait-Answers h _ _ laws baseline s k
  poll-Answers laws few baseline (delay ms) s k =
      delay_wait-Answers h _ _ laws baseline fuel few ms s k

  polls-Answers :
      {taken : D → List ℕ} {left : D → ℕ} (laws : IsDevice h taken left)
      (few : (d : D) → left d < fuel) (baseline : ℕ) (ps : List Poll) (p : Poll) (s : HidBackend D)
      → Knows h taken left laws baseline s
      → Answers h taken left laws baseline (last_poll ps p s)
  polls-Answers laws few baseline [] p s k = poll-Answers laws few baseline p s k
  polls-Answers laws few baseline (q ∷ qs) p s k =
      polls-Answers laws few baseline qs p (poll q s).0 (poll-Answers laws few baseline q s k).0

  -- On a device whose signal gives fewer values to one delay than the fuel, a check or a delay of a
  -- command that started before its signal gave anything answers CANCELLED exactly when the values
  -- that the signal has given by the time of the answer have one that is not the command's baseline,
  -- whatever checks and delays the command made before: values equal to the baseline are passed over,
  -- also within a delay, and no later value takes a cancellation back.
  pub last_poll_lem :
      {taken : D → List ℕ} {left : D → ℕ} (laws : IsDevice h taken left)
      (few : (d : D) → left d < fuel) (baseline : ℕ) (d : D)
      → taken d ≡ []
      → (ps : List Poll) (p : Poll)
      → (last_poll ps p (record { device = d; cancel = new_wait baseline })).1 ≡ (
          if any_changed baseline
            (taken (last_poll ps p (record { device = d; cancel = new_wait baseline })).0.device)
          then err cancelled
          else ok tt)
  unfolding new_wait
  last_poll_lem laws few baseline d e ps p =
      (polls-Answers laws few baseline ps p _
        (record { signalled = refl; based = refl; told = ground (arith, e) })).1
