-- ===== src/Hidctl/Plan.antt =====
-- tools/hidctl/src/script.rs: the plan carries the script's commands, in batches that are well formed.
use rp2350_keymouse_bridge_f.Common.{
  ◌≡◌, refl, sym, ◌∙◌, ap, arith, Option, none, some, List, [], ◌∷◌, ◌++◌, append_assoc, append-nil,
  map, map-append, Bool, true, false, if◌then◌else◌, Bool-cases, inl, inr,
}
use rp2350_keymouse_bridge_f.Protocol.{CommandType}
use rp2350_keymouse_bridge_f.Hidctl.Script.{
  ScriptCommand, type_ascii, key_tap, key_down, key_up, mouse_move, mouse_click, mouse_down,
  mouse_up, mouse_wheel, wait_ms, stop_all, ScriptPacket, packet, script_command_packet,
  append_script_segment, is_stop_all, plan_segments, plan_script_commands,
}

-- The packets that open and close batches.
abbrev pub is_bracket : CommandType → Bool
is_bracket CommandType.batch_begin = true
is_bracket CommandType.batch_end = true
is_bracket other = false

abbrev pub carried : List ScriptPacket → List ScriptPacket
carried [] = []
carried (p ∷ ps) = if is_bracket p.command_type then carried ps else p ∷ carried ps

carried-append : (xs ys : List ScriptPacket) → carried (xs ++ ys) ≡ carried xs ++ carried ys
carried-append [] ys = refl
carried-append (x ∷ xs) ys = ground (arith, carried-append xs ys)

packet-bracket : (c : ScriptCommand) → is_bracket (script_command_packet c).command_type ≡ false
unfolding script_command_packet
packet-bracket (type_ascii text) = refl
packet-bracket (key_tap combo) = refl
packet-bracket (key_down combo) = refl
packet-bracket (key_up combo) = refl
packet-bracket (mouse_move dx dy) = refl
packet-bracket (mouse_click name) = refl
packet-bracket (mouse_down name) = refl
packet-bracket (mouse_up name) = refl
packet-bracket (mouse_wheel delta) = refl
packet-bracket (wait_ms ms) = refl
packet-bracket stop_all = refl

carried-packets :
    (cs : List ScriptCommand)
    → carried (map script_command_packet cs) ≡ map script_command_packet cs
carried-packets [] = refl
carried-packets (c ∷ cs) = ground (arith, packet-bracket c, carried-packets cs)

abbrev batch_of : List ScriptCommand → List ScriptPacket
batch_of cs =
    (packet CommandType.batch_begin [] ∷ map script_command_packet cs)
    ++ (packet CommandType.batch_end [] ∷ [])

carried-batch_of : (cs : List ScriptCommand) → carried (batch_of cs) ≡ map script_command_packet cs
carried-batch_of cs =
    carried-append (map script_command_packet cs) (packet CommandType.batch_end [] ∷ [])
    ∙ (append-nil _ ∙ carried-packets cs)

carried-segment :
    (plan : List ScriptPacket) (segment : List ScriptCommand)
    → carried (append_script_segment plan segment)
      ≡ carried plan ++ map script_command_packet segment
unfolding append_script_segment
carried-segment plan [] = sym (append-nil _)
carried-segment plan (c ∷ cs) =
    carried-append plan (batch_of (c ∷ cs))
    ∙ ap (λ ps. carried plan ++ ps) (carried-batch_of (c ∷ cs))

-- Where a packet may stand: outside of a batch, after its begin, or within.
pub data Phase : Type 0 where
  outside opened inside : Phase

abbrev step : Phase → CommandType → Option Phase
step outside CommandType.batch_begin = some opened
step outside CommandType.stop_all = some outside
step outside other = none
step opened CommandType.batch_begin = none
step opened CommandType.batch_end = none
step opened CommandType.stop_all = none
step opened other = some inside
step inside CommandType.batch_begin = none
step inside CommandType.batch_end = some outside
step inside CommandType.stop_all = none
step inside other = some inside

abbrev steps : Option Phase → List ScriptPacket → Option Phase
steps none ps = none
steps (some phase) [] = some phase
steps (some phase) (p ∷ ps) = steps (step phase p.command_type) ps

-- Batches are not nested and not empty, a stop is outside of them, all else within, and all are
-- closed.
abbrev pub IsWellFormed : List ScriptPacket → Type 0
IsWellFormed ps = steps (some outside) ps ≡ some outside

steps-none : (ps : List ScriptPacket) → steps none ps ≡ none
steps-none [] = refl
steps-none (p ∷ ps) = refl

steps-append :
    (phase : Option Phase) (xs ys : List ScriptPacket)
    → steps phase (xs ++ ys) ≡ steps (steps phase xs) ys
steps-append none xs ys = sym (steps-none ys)
steps-append (some phase) [] ys = refl
steps-append (some phase) (x ∷ xs) ys = steps-append (step phase x.command_type) xs ys

step_packet :
    (c : ScriptCommand)
    → is_stop_all c ≡ false
    → (step opened (script_command_packet c).command_type ≡ some inside)
      × (step inside (script_command_packet c).command_type ≡ some inside)
unfolding script_command_packet is_stop_all
step_packet (type_ascii text) h = (refl, refl)
step_packet (key_tap combo) h = (refl, refl)
step_packet (key_down combo) h = (refl, refl)
step_packet (key_up combo) h = (refl, refl)
step_packet (mouse_move dx dy) h = (refl, refl)
step_packet (mouse_click name) h = (refl, refl)
step_packet (mouse_down name) h = (refl, refl)
step_packet (mouse_up name) h = (refl, refl)
step_packet (mouse_wheel delta) h = (refl, refl)
step_packet (wait_ms ms) h = (refl, refl)
step_packet stop_all h = absurd (cc)

abbrev NoStop : List ScriptCommand → Type 0
NoStop [] = Unit {0}
NoStop (c ∷ cs) = (is_stop_all c ≡ false) × NoStop cs

append-NoStop :
    (xs : List ScriptCommand) (c : ScriptCommand)
    → NoStop xs
    → is_stop_all c ≡ false
    → NoStop (xs ++ (c ∷ []))
append-NoStop [] c h e = (e, tt)
append-NoStop (x ∷ xs) c h e = (h.0, append-NoStop xs c h.1 e)

steps_inside :
    (cs : List ScriptCommand)
    → NoStop cs
    → steps (some inside) (map script_command_packet cs ++ (packet CommandType.batch_end [] ∷ []))
      ≡ some outside
steps_inside [] h = refl
steps_inside (c ∷ cs) h = rw ((step_packet c h.0).1, steps) (steps_inside cs h.1)

segment-IsWellFormed :
    (plan : List ScriptPacket) (segment : List ScriptCommand)
    → NoStop segment
    → IsWellFormed plan
    → IsWellFormed (append_script_segment plan segment)
unfolding append_script_segment
segment-IsWellFormed plan [] h w = w
segment-IsWellFormed plan (c ∷ cs) h w =
    let batch : steps (some outside) (batch_of (c ∷ cs)) ≡ some outside =
      rw ((step_packet c h.0).0, steps) (steps_inside cs h.1) in
    steps-append (some outside) plan (batch_of (c ∷ cs))
    ∙ (ap (λ phase. steps phase (batch_of (c ∷ cs))) w ∙ batch)

stop-IsWellFormed :
    (plan : List ScriptPacket)
    → IsWellFormed plan
    → IsWellFormed (plan ++ (packet CommandType.stop_all [] ∷ []))
stop-IsWellFormed plan w =
    steps-append (some outside) plan (packet CommandType.stop_all [] ∷ []) ∙ rw (w) refl

packet-stop :
    (c : ScriptCommand)
    → is_stop_all c ≡ true
    → script_command_packet c ≡ packet CommandType.stop_all []
unfolding script_command_packet is_stop_all
packet-stop stop_all h = refl
packet-stop _ h = absurd (cc)

moved_on :
    (plan : List ScriptPacket) (segment cs : List ScriptCommand) (c : ScriptCommand)
    → carried plan ++ map script_command_packet ((segment ++ (c ∷ [])) ++ cs)
      ≡ carried plan ++ map script_command_packet (segment ++ (c ∷ cs))
moved_on plan segment cs c =
    ap (λ xs. carried plan ++ map script_command_packet xs) (append_assoc segment (c ∷ []) cs)

stop_carried :
    (plan : List ScriptPacket) (segment cs : List ScriptCommand) (c : ScriptCommand)
    → is_stop_all c ≡ true
    → carried (append_script_segment plan segment ++ (packet CommandType.stop_all [] ∷ []))
        ++ map script_command_packet cs
      ≡ carried plan ++ map script_command_packet (segment ++ (c ∷ cs))
stop_carried plan segment cs c e = cc (
  carried-append (append_script_segment plan segment) (packet CommandType.stop_all [] ∷ []),
  carried-segment plan segment,
  packet-stop c e,
  map-append script_command_packet segment (c ∷ cs),
  append_assoc (carried plan ++ map script_command_packet segment)
      (packet CommandType.stop_all [] ∷ []) (map script_command_packet cs),
  append_assoc (carried plan) (map script_command_packet segment)
      (script_command_packet c ∷ map script_command_packet cs),
)

plan_segments_lem :
    (plan : List ScriptPacket) (segment cs : List ScriptCommand)
    → NoStop segment
    → IsWellFormed plan
    → IsWellFormed (plan_segments plan segment cs)
      × (carried (plan_segments plan segment cs)
          ≡ carried plan ++ map script_command_packet (segment ++ cs))
unfolding plan_segments
plan_segments_lem plan segment [] h w =
    (segment-IsWellFormed plan segment h w, rw (append-nil segment) (carried-segment plan segment))
plan_segments_lem plan segment (c ∷ cs) h w = elim (Bool-cases (is_stop_all c)) [
  | inl e ↦
      let plan' = append_script_segment plan segment ++ (packet CommandType.stop_all [] ∷ []) in
      let (formed, all) = plan_segments_lem plan' [] cs tt (
        stop-IsWellFormed (append_script_segment plan segment)
          (segment-IsWellFormed plan segment h w)) in
      rw (e) (formed, all ∙ stop_carried plan segment cs c e)
  | inr e ↦
      let (formed, all) =
        plan_segments_lem plan (segment ++ (c ∷ [])) cs (append-NoStop segment c h e) w in
      rw (e) (formed, all ∙ moved_on plan segment cs c)
]

-- The plan of a script carries the packets of all its commands in their order, with batch frames
-- around them: batches are not nested and not empty, a stop stands outside of them, every other
-- command within one, and every batch is closed.
pub plan_script_commands_lem :
    (commands : List ScriptCommand)
    → IsWellFormed (plan_script_commands commands)
      × (carried (plan_script_commands commands) ≡ map script_command_packet commands)
unfolding plan_script_commands
plan_script_commands_lem commands = plan_segments_lem [] [] commands tt refl
