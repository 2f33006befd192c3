-- ===== src/Hidctl/Tests.antt =====
-- tools/hidctl: examples.
use rp2350_keymouse_bridge_f.Common.{
  ℕ, zero, suc, ◌+◌, ◌==◌, if◌then◌else◌, ◌≡◌, refl, arith, none, some, List, [], ◌∷◌, ◌++◌, map,
  false, Result, ok, err,
}
use rp2350_keymouse_bridge_f.Common.Int.{pos, negsuc}
use rp2350_keymouse_bridge_f.Protocol.{CommandType, as_byte, from_byte, Frame}
use rp2350_keymouse_bridge_f.Protocol.Bytes.{frame_bytes}
use rp2350_keymouse_bridge_f.Protocol.RoundTrip.{IsWire}
use rp2350_keymouse_bridge_f.Stream.Reassembly.{stream}
use rp2350_keymouse_bridge_f.Hidctl.{
  second_key, at_line, unknown_command, codes, split, trim, is_whitespace, parse_signed, parse_u32,
}
use rp2350_keymouse_bridge_f.Hidctl.Keys.{parse_combo, parse_keycode}
use rp2350_keymouse_bridge_f.Hidctl.Script.{
  ScriptCommand, type_ascii, mouse_move, wait_ms, stop_all, ScriptPacket, script_command_packet,
  plan_script_commands, run_script_commands,
}
use rp2350_keymouse_bridge_f.Hidctl.Parse.{parse_line, parse_script, parse_words, split_words}
use rp2350_keymouse_bridge_f.Hidctl.Plan.{IsWellFormed, carried, plan_script_commands_lem}
use rp2350_keymouse_bridge_f.Hidctl.Sent.{SentOutcome, run_script_commands-SentOutcome}
use rp2350_keymouse_bridge_f.Hidctl.Quoted.{type_line, parse_line-type_line}
use rp2350_keymouse_bridge_f.Hidctl.Reader.{Attempt, bytes, try_decode_response}
use rp2350_keymouse_bridge_f.Coordinator.{CachedResponse}
use rp2350_keymouse_bridge_f.Runtime.Session.{response_packet}
use rp2350_keymouse_bridge_f.Hidctl.Client.{HidClient}
use rp2350_keymouse_bridge_f.Hidctl.Answers.{try_decode_response-response_packet}

parses_combo : parse_combo (codes "ctrl + Shift+r") ≡ ok (record { modifier = 3; keycode = 0x15 })
unfolding parse_combo split trim is_whitespace parse_keycode
parses_combo = refl

two_keys : parse_combo (codes "A+B") ≡ err second_key
unfolding parse_combo split trim is_whitespace parse_keycode
two_keys = refl

parses_script :
    parse_script (codes "# comment\nmouse move 10 -5\nwait 100 # later\n\nstop\n")
    ≡ ok (mouse_move (pos 10) (negsuc 4) ∷ wait_ms 100 ∷ stop_all ∷ [])
unfolding parse_script parse_words split_words parse_signed parse_u32 trim is_whitespace
parses_script = refl

reports_line : parse_script (codes "stop\njump\n") ≡ err (at_line 2 unknown_command)
unfolding parse_script parse_words split_words trim is_whitespace
reports_line = refl

abbrev three : List ScriptCommand
three = wait_ms 10 ∷ stop_all ∷ wait_ms 20 ∷ []

plan_script_commands_lem_example :
    IsWellFormed (plan_script_commands three)
    × (carried (plan_script_commands three) ≡ map script_command_packet three)
plan_script_commands_lem_example = plan_script_commands_lem three

abbrev client : HidClient
client = record {
  sequence = 65535;
  timeout_ms = 1000;
  retries = 1;
  receive_buffer = [];
  batch_duration_ms = none;
}

abbrev answer : ℕ → Frame
answer sequence = record {
  version = 2;
  flags = 0;
  sequence = sequence;
  command_type = CommandType.ack;
  payload = [];
}

-- The first attempt reads nothing, and the second the answer.
abbrev second_answers : ℕ → Attempt
second_answers left = record {
  write_fails = false;
  deadline_overflows = false;
  reads = elim left [ zero ↦ bytes (frame_bytes (answer 7)) ∷ [] | suc n ↦ [] ];
}

-- The third packet fails.
abbrev third_fails : ScriptPacket → ℕ → ℕ × Result ℕ (Unit {0})
third_fails p n = if n == 2 then (3, err 99) else (n + 1, ok tt)

run_script_commands-SentOutcome_example :
    SentOutcome third_fails 0 (plan_script_commands three) (run_script_commands third_fails three 0)
run_script_commands-SentOutcome_example = run_script_commands-SentOutcome third_fails three 0

parse_line-type_line_example :
    parse_line (type_line (codes "say \"hi\" # \\o/"))
    ≡ ok (some (type_ascii (codes "say \"hi\" # \\o/")))
parse_line-type_line_example = parse_line-type_line (codes "say \"hi\" # \\o/")

answer-IsWire : IsWire (answer 7)
unfolding as_byte from_byte
answer-IsWire = record { sequence_fits = omega arith; canonical = refl; payload_fits = omega arith }

late-IsWire : IsWire (answer 6)
unfolding as_byte from_byte
late-IsWire = record { sequence_fits = omega arith; canonical = refl; payload_fits = omega arith }

abbrev ack_response : CachedResponse
ack_response = record {
  version = 2;
  sequence = 7;
  command_type = CommandType.ack;
  payload = [];
  runtime_session = 1;
}

try_decode_response-response_packet_example :
    (packet : List ℕ) × (response_packet ack_response ≡ some packet)
    × (try_decode_response 7 (stream (answer 6 ∷ []) ++ (packet ++ (0xa5 ∷ [])))
        ≡ (0xa5 ∷ [], ok (some (record { command_type = CommandType.ack; payload = [] }))))
try_decode_response-response_packet_example =
    try_decode_response-response_packet ack_response (answer 6 ∷ []) (0xa5 ∷ []) answer-IsWire
      ((late-IsWire, λ e. omega arith), tt)
