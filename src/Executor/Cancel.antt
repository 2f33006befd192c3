-- ===== src/Executor/Cancel.antt =====
-- src/command_executor.rs: what cancels a command.
pub mod Polls
use rp2350_keymouse_bridge_f.Common.{
  ℕ, zero, suc, ◌==◌, ◌≡◌, ◌<◌, refl, arith, Option, none, some, List, [], ◌∷◌, ◌++◌, true, false,
  not, ◌||◌, if◌then◌else◌, ok, err, Bool-cases, inl, inr, Option-cases,
}
use rp2350_keymouse_bridge_f.Safety.Observation.{CancellationObservation, observe, any_changed}
use rp2350_keymouse_bridge_f.Errors.{cancelled}
use rp2350_keymouse_bridge_f.Executor.{
  Device, CancelWait, new_wait, HidBackend, Polled, observe_wait, observe_taken, check_wait,
  wait_for_generation_change, after_select, after_check, wait_or_sleep, delay_wait,
}

abbrev pub logged : List ℕ → Option ℕ → List ℕ
logged xs none = xs
logged xs (some g) = xs ++ (g ∷ [])

-- The values that a device's signal has given up, and how many more it can give before a timer ends.
pub record IsDevice {D : Type 0} (h : Device D) (taken : D → List ℕ) (left : D → ℕ) : Type 0 where
  pub take_logged : (d : D) → taken (h.try_take d).0 ≡ logged (taken d) (h.try_take d).1
  pub next_logged :
      (d : D) → taken (h.next_publication d).0 ≡ logged (taken d) (h.next_publication d).1
  pub start_logged : (ms : ℕ) (d : D) → taken (h.start_timer ms d) ≡ taken d
  pub sleep_logged : (ms : ℕ) (d : D) → taken (h.sleep ms d) ≡ taken d
  pub next_left :
      (d : D) (g : ℕ) → (h.next_publication d).1 ≡ some g → left (h.next_publication d).0 < left d

any_changed-logged :
    (b g : ℕ) (xs : List ℕ) → any_changed b (xs ++ (g ∷ [])) ≡ (any_changed b xs || not (g == b))
any_changed-logged b g [] = ground arith
any_changed-logged b g (x ∷ xs) = ground (arith, any_changed-logged b g xs)

module _ {D : Type 0} (h : Device D) (taken : D → List ℕ) (left : D → ℕ)
    (laws : IsDevice h taken left) (baseline : ℕ) where
  -- The flag says whether the signal has given a generation other than the baseline.
  pub record Knows (s : HidBackend D) : Type 0 where
    pub signalled : s.cancel.has_signal ≡ true
    pub based : s.cancel.observation.baseline ≡ baseline
    pub told : s.cancel.observation.cancelled ≡ any_changed baseline (taken s.device)

  -- The answer of a cancellation point, by the flag that it leaves.
  abbrev pub Answers : Polled D → Type 0
  Answers (s, r) =
      Knows s × (r ≡ (if any_changed baseline (taken s.device) then err cancelled else ok tt))

  observed_flag :
      (o : CancellationObservation) (g : ℕ)
      → ((observe o g).baseline ≡ o.baseline)
        × ((observe o g).cancelled ≡ (o.cancelled || not (g == o.baseline)))
  unfolding observe
  observed_flag o g = ground arith

  observe-Answers :
      (cancel : CancelWait) (d d' : D) (g : ℕ)
      → Knows (record { device = d; cancel = cancel })
      → taken d' ≡ taken d ++ (g ∷ [])
      → Answers (observe_wait (record { device = d'; cancel = cancel }) g)
  unfolding observe_wait
  observe-Answers cancel d d' g k e =
      let told : (observe cancel.observation g).cancelled ≡ any_changed baseline (taken d') =
        ground (
          arith,
          observed_flag cancel.observation g,
          any_changed-logged baseline g (taken d),
          e,
          k.told,
          k.based,
        ) in
      (
        record {
          signalled = k.signalled;
          based = ground (arith, observed_flag cancel.observation g, k.based);
          told = told;
        },
        rw (told) refl,
      )

  -- Nothing was taken.
  same-Answers :
      (cancel : CancelWait) (d d' : D)
      → Knows (record { device = d; cancel = cancel })
      → taken d' ≡ taken d
      → Knows (record { device = d'; cancel = cancel })
  same-Answers cancel d d' k e = record {
    signalled = k.signalled;
    based = k.based;
    told = ground (arith, k.told, e);
  }

  taken-Answers :
      (cancel : CancelWait) (d : D) (r : D × Option ℕ)
      → Knows (record { device = d; cancel = cancel })
      → taken r.0 ≡ logged (taken d) r.1
      → cancel.observation.cancelled ≡ false
      → Answers (observe_taken cancel r)
  taken-Answers cancel d (d', none) k e f =
      let k' = same-Answers cancel d d' k e in (k', ground (arith, k'.told, f))
  taken-Answers cancel d (d', some g) k e f = observe-Answers cancel d d' g k e

  check_wait_set :
      (s : HidBackend D)
      → s.cancel.observation.cancelled ≡ true
      → check_wait h s ≡ (s, err cancelled)
  unfolding check_wait
  check_wait_set s e = ground (arith, e)

  check_wait_clear :
      (s : HidBackend D)
      → s.cancel.observation.cancelled ≡ false
      → s.cancel.has_signal ≡ true
      → check_wait h s ≡ observe_taken s.cancel (h.try_take s.device)
  unfolding check_wait
  check_wait_clear s e e' = ground (arith, e, e')

  pub check_wait-Answers : (s : HidBackend D) → Knows s → Answers (check_wait h s)
  check_wait-Answers s k = elim (Bool-cases s.cancel.observation.cancelled) [
    | inl e ↦ rw (check_wait_set s e) (k, ground (arith, k.told, e))
    | inr e ↦
        rw (check_wait_clear s e k.signalled)
          (taken-Answers s.cancel s.device (h.try_take s.device) k (laws.take_logged s.device) e)
  ]

  -- The values that the loop passed over are the baseline.
  record Passed (d : D) (r : D × Option ℕ) : Type 0 where
    reached : D
    stale : any_changed baseline (taken reached) ≡ any_changed baseline (taken d)
    last : taken r.0 ≡ logged (taken reached) r.1

  loop_last :
      (fuel : ℕ) (d : D)
      → (h.next_publication d).1 ≡ none
      → wait_for_generation_change h (suc fuel) baseline d ≡ ((h.next_publication d).0, none)
  unfolding wait_for_generation_change
  loop_last fuel d e = ground (arith, e)

  loop_stale :
      (fuel : ℕ) (d : D) (g : ℕ)
      → (h.next_publication d).1 ≡ some g
      → (g == baseline) ≡ true
      → wait_for_generation_change h (suc fuel) baseline d
        ≡ wait_for_generation_change h fuel baseline (h.next_publication d).0
  unfolding wait_for_generation_change
  loop_stale fuel d g e same = ground (arith, e, same)

  loop_changed :
      (fuel : ℕ) (d : D) (g : ℕ)
      → (h.next_publication d).1 ≡ some g
      → (g == baseline) ≡ false
      → wait_for_generation_change h (suc fuel) baseline d ≡ ((h.next_publication d).0, some g)
  unfolding wait_for_generation_change
  loop_changed fuel d g e other = ground (arith, e, other)

  loop-Passed :
      (fuel : ℕ) (d : D) → left d < fuel → Passed d (wait_for_generation_change h fuel baseline d)
  loop-Passed zero d n = absurd (omega arith)
  loop-Passed (suc fuel) d n = elim (Option-cases (h.next_publication d).1) [
    | inl e ↦
        rw (loop_last fuel d e)
          (record { reached = d; stale = refl; last = ground (arith, laws.next_logged d, e) })
    | inr (g, e) ↦ elim (Bool-cases (g == baseline)) [
      | inl same ↦
          let p = loop-Passed fuel (h.next_publication d).0 (omega (arith, laws.next_left d g e)) in
          rw (loop_stale fuel d g e same) (record {
            reached = p.reached;
            stale = ground (
              arith,
              p.stale,
              laws.next_logged d,
              e,
              any_changed-logged baseline g (taken d),
              same,
            );
            last = p.last;
          })
      | inr other ↦
          rw (loop_changed fuel d g e other)
            (record { reached = d; stale = refl; last = ground (arith, laws.next_logged d, e) })
    ]
  ]

  select-Answers :
      (cancel : CancelWait) (d : D) (r : D × Option ℕ)
      → Knows (record { device = d; cancel = cancel })
      → Passed d r
      → Answers (after_select h cancel r)
  select-Answers cancel d (d', none) k p =
      check_wait-Answers (record { device = d'; cancel = cancel })
        (record {
          signalled = k.signalled;
          based = k.based;
          told = ground (arith, k.told, p.stale, p.last);
        })
  select-Answers cancel d (d', some g) k p =
      observe-Answers cancel p.reached d' g
        (record {
          signalled = k.signalled;
          based = k.based;
          told = ground (arith, k.told, p.stale);
        })
        p.last

  wait_or_sleep_lem :
      (fuel ms : ℕ) (s : HidBackend D)
      → s.cancel.has_signal ≡ true
      → wait_or_sleep h fuel ms s
        ≡ after_select h s.cancel (
            wait_for_generation_change h fuel s.cancel.observation.baseline
              (h.start_timer ms s.device))
  unfolding wait_or_sleep
  wait_or_sleep_lem fuel ms s e = ground (arith, e)

  wait-Answers :
      (fuel ms : ℕ) (s : HidBackend D)
      → left (h.start_timer ms s.device) < fuel
      → Knows s
      → Answers (wait_or_sleep h fuel ms s)
  wait-Answers fuel ms s n k =
      let d = h.start_timer ms s.device in
      simp (wait_or_sleep_lem fuel ms s k.signalled, k.based)
        (select-Answers s.cancel d (wait_for_generation_change h fuel baseline d)
          (same-Answers s.cancel s.device d k (laws.start_logged ms s.device))
          (loop-Passed fuel d n))

  after_check-Answers :
      (p : Polled D) (f : HidBackend D → Polled D)
      → Answers p
      → ((s : HidBackend D) → Knows s → Answers (f s))
      → Answers (after_check h p f)
  after_check-Answers (s, ok u) f a g = g s a.0
  after_check-Answers (s, err e) f a g = a

  pub delay_wait-Answers :
      (fuel : ℕ)
      → ((d : D) → left d < fuel)
      → (ms : ℕ) (s : HidBackend D) → Knows s
      → Answers (delay_wait h fuel ms s)
  unfolding delay_wait
  delay_wait-Answers fuel few ms s k =
      after_check-Answers (check_wait h s) (wait_or_sleep h fuel ms) (check_wait-Answers s k)
        (λ t k'. wait-Answers fuel ms t (few _) k')
