-- ===== src/Hidctl/Sent.antt =====
-- tools/hidctl/src/script.rs: what a run of a script sends.
use rp2350_keymouse_bridge_f.Common.{
  ◌≡◌, refl, ap, List, [], ◌∷◌, ◌++◌, Result, ok, err, Result-cases, inl, inr,
}
use rp2350_keymouse_bridge_f.Protocol.{CommandType}
use rp2350_keymouse_bridge_f.Hidctl.Script.{
  ScriptCommand, ScriptPacket, packet, Send, send_plan, plan_script_commands, run_script_commands,
}

-- These packets, sent one after the other, are all answered well, and lead from one state to the
-- other.
pub data Answered {S E : Type 0} (send : Send S E) : S → List ScriptPacket → S → Type 0 where
  nothing : {s : S} → Answered send s [] s
  one_more :
      {s t : S} (p : ScriptPacket) {ps : List ScriptPacket}
      → (send p s).1 ≡ ok tt
      → Answered send (send p s).0 ps t
      → Answered send s (p ∷ ps) t

-- The packets before the one that fails are answered; then a stop is sent and nothing else.
pub record FailsAt {S E : Type 0} (send : Send S E) (s : S) (plan : List ScriptPacket) (e : E)
    (t : S) : Type 0 where
  pub before : List ScriptPacket
  pub failing : ScriptPacket
  pub rest : List ScriptPacket
  pub reached : S
  pub parts : plan ≡ before ++ (failing ∷ rest)
  pub answered : Answered send s before reached
  pub failed : (send failing reached).1 ≡ err e
  pub stopped : t ≡ (send (packet CommandType.stop_all []) (send failing reached).0).0

abbrev pub SentOutcome :
    {S E : Type 0} → Send S E → S → List ScriptPacket → S × Result E (Unit {0}) → Type 0
SentOutcome send s plan (t, ok u) = Answered send s plan t
SentOutcome send s plan (t, err e) = FailsAt send s plan e t

module _ {S E : Type 0} (send : Send S E) where
  sent_before :
      (s : S) (p : ScriptPacket) (ps : List ScriptPacket) (r : S × Result E (Unit {0}))
      → (send p s).1 ≡ ok tt
      → SentOutcome send (send p s).0 ps r
      → SentOutcome send s (p ∷ ps) r
  sent_before s p ps (t, ok u) e h = one_more p e h
  sent_before s p ps (t, err why) e h = record {
    before = p ∷ h.before;
    failing = h.failing;
    rest = h.rest;
    reached = h.reached;
    parts = ap (λ xs. p ∷ xs) h.parts;
    answered = one_more p e h.answered;
    failed = h.failed;
    stopped = h.stopped;
  }

  send_plan-SentOutcome :
      (plan : List ScriptPacket) (s : S) → SentOutcome send s plan (send_plan send plan s)
  unfolding send_plan
  send_plan-SentOutcome [] s = nothing
  send_plan-SentOutcome (p ∷ ps) s = elim (Result-cases (send p s).1) [
    | inl (u, e) ↦
        rw (e, send_plan)
          (sent_before s p ps (send_plan send ps (send p s).0) e
            (send_plan-SentOutcome ps (send p s).0))
    | inr (why, e) ↦
        rw (e, send_plan)
          (record {
            before = [];
            failing = p;
            rest = ps;
            reached = s;
            parts = refl;
            answered = nothing;
            failed = e;
            stopped = refl;
          })
  ]

  -- A run of a script sends its plan packet by packet. Either all of them are answered well and the
  -- run succeeds, or the packets before the first that fails are answered well, a STOP is sent after
  -- it and nothing else, and the run returns that packet's error, whatever becomes of the STOP.
  pub run_script_commands-SentOutcome :
      (commands : List ScriptCommand) (s : S)
      → SentOutcome send s (plan_script_commands commands) (run_script_commands send commands s)
  unfolding run_script_commands
  run_script_commands-SentOutcome commands s =
      send_plan-SentOutcome (plan_script_commands commands) s
