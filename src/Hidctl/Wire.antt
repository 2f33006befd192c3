-- ===== src/Hidctl/Wire.antt =====
-- tools/hidctl/src/client.rs, src/protocol.rs, src/commands.rs: the firmware reads what the client
-- writes for a script.
use rp2350_keymouse_bridge_f.Common.{ℕ, suc, ◌<◌, ◌≡◌, ◌≢◌, List, ok, u16_mod}
use rp2350_keymouse_bridge_f.Protocol.{CommandType, protocol_version, Frame, response_expected}
use rp2350_keymouse_bridge_f.Protocol.Codec.{decode_frame}
use rp2350_keymouse_bridge_f.Protocol.Bytes.{frame_bytes}
use rp2350_keymouse_bridge_f.Protocol.Request.{validate_request}
use rp2350_keymouse_bridge_f.Commands.{decode_command}
use rp2350_keymouse_bridge_f.Hidctl.Script.{ScriptCommand, script_command_packet}
use rp2350_keymouse_bridge_f.Hidctl.Packets.{meant}
use rp2350_keymouse_bridge_f.Hidctl.Client.{HidClient}
use rp2350_keymouse_bridge_f.Hidctl.Sender.{Commanded}
use rp2350_keymouse_bridge_f.Hidctl.Retry.{IsSent}

abbrev pub frame_of : ℕ → CommandType → List ℕ → Frame
frame_of sequence t payload = record {
  version = protocol_version;
  flags = 0;
  sequence = sequence;
  command_type = t;
  payload = payload;
}

-- The frame of a script command from a client.
abbrev pub request_of : HidClient → ScriptCommand → Frame
request_of client c =
    frame_of client.sequence (script_command_packet c).command_type
      (script_command_packet c).payload

abbrev pub Understood : ScriptCommand → HidClient → Commanded → Type 0
Understood c client (actions, after, result) =
    let f = request_of client c in
    IsSent (frame_bytes f) f.command_type (suc client.retries)
      (actions, after.receive_buffer, result)
    × (after.sequence ≢ 0)
    × (after.sequence < u16_mod)
    × (decode_frame (frame_bytes f) ≡ ok f)
    × (validate_request f ≡ ok response_expected)
    × (decode_command f ≡ ok (meant c))
