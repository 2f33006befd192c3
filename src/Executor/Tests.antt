-- ===== src/Executor/Tests.antt =====
-- src/command_executor.rs: cancellation on a device that is given by lists.
use rp2350_keymouse_bridge_f.Common.{
  ℕ, zero, suc, false, ◌≡◌, refl, arith, Option, none, some, List, [], ◌∷◌, ◌++◌, true, ok, err,
  min, ◌<◌, ◌≤◌, if◌then◌else◌,
}
use rp2350_keymouse_bridge_f.Common.Heapless.{list_vec}
use rp2350_keymouse_bridge_f.Protocol.{CommandType, Frame}
use rp2350_keymouse_bridge_f.Commands.{decode_command, ping}
use rp2350_keymouse_bridge_f.Input.Mouse.{new_input}
use rp2350_keymouse_bridge_f.Safety.Observation.{any_changed, observe}
use rp2350_keymouse_bridge_f.Errors.{cancelled}
use rp2350_keymouse_bridge_f.Execution.Monad.{World}
use rp2350_keymouse_bridge_f.Executor.{
  Device, HidBackend, new_wait, execute_frame_with_cancel, execute_frame_in_batch, delay_wait,
}
use rp2350_keymouse_bridge_f.Executor.Cancel.{IsDevice, logged}
use rp2350_keymouse_bridge_f.Executor.Cancel.Polls.{check, delay, last_poll, last_poll_lem}
use rp2350_keymouse_bridge_f.Executor.Release.{zeros_written, execute_frame_cancelled}

-- What the signal gave, what it still has, and the values that a timer still lets through.
record Bench : Type 0 where
  given : List ℕ
  later : List ℕ
  room : ℕ

abbrev bench_take : ℕ → List ℕ → List ℕ → Bench × Option ℕ
bench_take room given [] = (record { given = given; later = []; room = room }, none)
bench_take room given (g ∷ gs) =
    (record { given = given ++ (g ∷ []); later = gs; room = room }, some g)

abbrev bench_next : ℕ → List ℕ → List ℕ → Bench × Option ℕ
bench_next zero given gs = (record { given = given; later = gs; room = 0 }, none)
bench_next (suc room) given gs = bench_take room given gs

-- A timer lets at most two values through.
abbrev bench : Device Bench
bench = record {
  try_take = λ d. bench_take d.room d.given d.later;
  start_timer = λ ms d. record d { room = 2 };
  next_publication = λ d. bench_next (min d.room 2) d.given d.later;
  sleep = λ ms d. d;
  write_keyboard = λ r d. (d, true);
  write_mouse = λ r d. (d, true);
  caps_lock_enabled = λ d. false;
}

take_given :
    (room : ℕ) (given gs : List ℕ)
    → (bench_take room given gs).0.given ≡ logged given (bench_take room given gs).1
take_given room given [] = refl
take_given room given (g ∷ gs) = refl

next_given :
    (room : ℕ) (given gs : List ℕ)
    → (bench_next room given gs).0.given ≡ logged given (bench_next room given gs).1
next_given zero given gs = refl
next_given (suc room) given gs = take_given room given gs

next_room :
    (room : ℕ) (given gs : List ℕ) (g : ℕ)
    → (bench_next room given gs).1 ≡ some g
    → room ≤ 2
    → min (bench_next room given gs).0.room 2 < room
next_room zero given gs g e n = absurd (cc)
next_room (suc room) given [] g e n = absurd (cc)
next_room (suc room) given (x ∷ gs) g e n = omega arith

bench-IsDevice : IsDevice bench (λ d. d.given) (λ d. min d.room 2)
bench-IsDevice = record {
  take_logged = λ d. take_given d.room d.given d.later;
  next_logged = λ d. next_given (min d.room 2) d.given d.later;
  start_logged = λ ms d. refl;
  sleep_logged = λ ms d. refl;
  next_left = λ d g e. next_room (min d.room 2) d.given d.later g e (omega arith);
}

abbrev full : Bench
full = record { given = []; later = 5 ∷ 5 ∷ 5 ∷ 6 ∷ 5 ∷ []; room = 0 }

second_delay_cancels :
    (last_poll bench 3
      (check ∷ delay 8 ∷ [])
      (delay 8)
      (record { device = full; cancel = new_wait 5 })).1
    ≡ err cancelled
unfolding new_wait delay_wait observe
second_delay_cancels = refl

last_poll_lem_example :
    (last_poll bench 3
      (check ∷ delay 8 ∷ [])
      (delay 8)
      (record { device = full; cancel = new_wait 5 })).1
    ≡ (if any_changed 5
          (last_poll bench 3
            (check ∷ delay 8 ∷ [])
            (delay 8)
            (record { device = full; cancel = new_wait 5 })).0.device.given
        then err cancelled
        else ok tt)
last_poll_lem_example =
    last_poll_lem bench 3 bench-IsDevice (λ d. omega arith) 5 full refl (check ∷ delay 8 ∷ [])
      (delay 8)

abbrev ping_frame : Frame
ping_frame = record {
  version = 2;
  flags = 0;
  sequence = 4;
  command_type = CommandType.ping;
  payload = [];
}

abbrev cancelled_world : World (HidBackend Bench)
cancelled_world = record {
  backend = record {
    device = full;
    cancel = record { has_signal = true; observation = record { baseline = 5; cancelled = true } };
  };
  input = new_input;
}

ping_decodes : decode_command ping_frame ≡ ok ping
unfolding decode_command
ping_decodes = refl

execute_frame_cancelled_example :
    (execute_frame_with_cancel list_vec bench 3 ping_frame cancelled_world
      ≡ (zeros_written bench cancelled_world, err cancelled))
    × (execute_frame_in_batch list_vec bench 3 ping_frame cancelled_world
        ≡ (cancelled_world, err cancelled))
execute_frame_cancelled_example =
    execute_frame_cancelled list_vec bench 3 ping_frame ping cancelled_world ping_decodes refl
