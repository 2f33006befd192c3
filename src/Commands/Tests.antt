-- ===== src/Commands/Tests.antt =====
-- src/commands.rs and src/owned_command.rs: examples.
use rp2350_keymouse_bridge_f.Common.{◌≡◌, refl, ◌↔◌, arith, [], ◌∷◌, ok}
use rp2350_keymouse_bridge_f.Common.Int.{pos, negsuc}
use rp2350_keymouse_bridge_f.Common.Heapless.{list_vec, list_vec-IsHeapless}
use rp2350_keymouse_bridge_f.Protocol.{CommandType, Frame}
use rp2350_keymouse_bridge_f.Commands.Owned.{OwnedCommand, mouse_move_rel, from_frame}
use rp2350_keymouse_bridge_f.Commands.Values.{IsOwned}
use rp2350_keymouse_bridge_f.Commands.Wire.{wire, from_frame_iff}

abbrev move : OwnedCommand
move = mouse_move_rel (pos 300) (negsuc 199)

abbrev move_frame : Frame
move_frame = record {
  version = 2;
  flags = 0;
  sequence = 7;
  command_type = CommandType.mouse_move_rel;
  payload = 0x01 ∷ 0x2c ∷ 0xff ∷ 0x38 ∷ [];
}

from_frame-move : from_frame list_vec move_frame ≡ ok move
unfolding from_frame
from_frame-move = refl

from_frame_iff_example : (from_frame list_vec move_frame ≡ ok move) ↔ (
    IsOwned move
    × (wire move (0 ∷ 0 ∷ 0 ∷ 0 ∷ [])
        ≡ (CommandType.mouse_move_rel, 0x01 ∷ 0x2c ∷ 0xff ∷ 0x38 ∷ [])))
from_frame_iff_example =
    from_frame_iff list_vec list_vec-IsHeapless (0 ∷ 0 ∷ 0 ∷ 0 ∷ []) move_frame move (omega arith)
      (omega arith)
