-- ===== src/Execution/Batch.antt =====
-- src/execution_core.rs: `execute_batch`.
use rp2350_keymouse_bridge_f.Common.{
  ◌≡◌, refl, ap, inl, inr, List, [], ◌∷◌, ◌++◌, Result, ok, err, Result-cases,
}
use rp2350_keymouse_bridge_f.Commands.Owned.{OwnedCommand}
use rp2350_keymouse_bridge_f.Errors.{ErrorCode}
use rp2350_keymouse_bridge_f.Execution.{DeviceResponse, acked}

-- The trait `BatchExecutionBackend`, over the backend's own state.
pub record BatchBackend (T : Type 0) : Type 0 where
  pub execute : OwnedCommand → T → T × Result ErrorCode DeviceResponse
  pub reset_inputs : T → T

module _ {T : Type 0} (b : BatchBackend T) where
  -- The loop, with the last response.
  unfoldable pub batch_loop :
      List OwnedCommand → DeviceResponse → T → T × Result ErrorCode DeviceResponse
  batch_loop [] response t = (t, ok response)
  batch_loop (command ∷ commands) response t = elim (b.execute command t).1 [
    | ok next_response ↦ batch_loop commands next_response (b.execute command t).0
    | err e ↦ (b.reset_inputs (b.execute command t).0, err e)
  ]

  unfoldable pub execute_batch : List OwnedCommand → T → T × Result ErrorCode DeviceResponse
  unfolding batch_loop
  execute_batch commands t = batch_loop commands acked t

-- These commands, run one after the other, all succeed, and lead from one state to the other.
pub data Succeed {T : Type 0} (b : BatchBackend T) : T → List OwnedCommand → T → Type 0 where
  nothing : {t : T} → Succeed b t [] t
  next :
      {t t' : T} {c : OwnedCommand} {cs : List OwnedCommand} {response : DeviceResponse}
      → (b.execute c t).1 ≡ ok response
      → Succeed b (b.execute c t).0 cs t'
      → Succeed b t (c ∷ cs) t'

-- The first failure of a batch: some commands succeed, one fails, and after it there is one reset.
pub record StopsAt {T : Type 0} (b : BatchBackend T) (t : T) (cs : List OwnedCommand) (t' : T)
    (e : ErrorCode) : Type 0 where
  pub before : List OwnedCommand
  pub failing : OwnedCommand
  pub rest : List OwnedCommand
  pub reached : T
  pub split : cs ≡ before ++ failing ∷ rest
  pub succeed : Succeed b t before reached
  pub failed : (b.execute failing reached).1 ≡ err e
  pub reset : t' ≡ b.reset_inputs (b.execute failing reached).0

abbrev pub BatchOutcome :
    {T : Type 0}
    → BatchBackend T
    → T
    → List OwnedCommand
    → T × Result ErrorCode DeviceResponse
    → Type 0
BatchOutcome b t cs (t', ok response) = Succeed b t cs t'
BatchOutcome b t cs (t', err e) = StopsAt b t cs t' e

module _ {T : Type 0} (b : BatchBackend T) where
  extend :
      (c : OwnedCommand) (cs : List OwnedCommand) (response : DeviceResponse) (t : T)
      → (b.execute c t).1 ≡ ok response
      → (out : T × Result ErrorCode DeviceResponse) → BatchOutcome b (b.execute c t).0 cs out
      → BatchOutcome b t (c ∷ cs) out
  extend c cs response t e (t', ok r) h = next e h
  extend c cs response t e (t', err x) h = record {
    before = c ∷ h.before;
    failing = h.failing;
    rest = h.rest;
    reached = h.reached;
    split = ap (λ l. c ∷ l) h.split;
    succeed = next e h.succeed;
    failed = h.failed;
    reset = h.reset;
  }

  loop_continues :
      (c : OwnedCommand) (cs : List OwnedCommand) (last response : DeviceResponse) (t : T)
      → (b.execute c t).1 ≡ ok response
      → batch_loop b (c ∷ cs) last t ≡ batch_loop b cs response (b.execute c t).0
  unfolding batch_loop
  loop_continues c cs last response t e = rw (e, batch_loop)

  loop_stops :
      (c : OwnedCommand) (cs : List OwnedCommand) (last : DeviceResponse) (e : ErrorCode) (t : T)
      → (b.execute c t).1 ≡ err e
      → batch_loop b (c ∷ cs) last t ≡ (b.reset_inputs (b.execute c t).0, err e)
  unfolding batch_loop
  loop_stops c cs last e t h = rw (h, batch_loop)

  loop_empty : (last : DeviceResponse) (t : T) → batch_loop b [] last t ≡ (t, ok last)
  unfolding batch_loop
  loop_empty last t = refl

  batch_loop-BatchOutcome :
      (cs : List OwnedCommand) (last : DeviceResponse) (t : T)
      → BatchOutcome b t cs (batch_loop b cs last t)
  batch_loop-BatchOutcome [] last t = rw (loop_empty last t) nothing
  batch_loop-BatchOutcome (c ∷ cs) last t = elim (Result-cases (b.execute c t).1) [
    | inl (response, e) ↦ rw (loop_continues c cs last response t e) (
        extend c cs response t e (batch_loop b cs response (b.execute c t).0)
          (batch_loop-BatchOutcome cs response (b.execute c t).0))
    | inr (x, e) ↦ rw (loop_stops c cs last x t e) record {
      before = [];
      failing = c;
      rest = cs;
      reached = t;
      split = refl;
      succeed = nothing;
      failed = e;
      reset = refl;
    }
  ]

  -- For any backend and any batch: if it succeeds, each of its commands was executed once, in order
  -- and with success, from the state that the one before left, and nothing was reset. If it fails,
  -- this holds of the commands before some command; that command was executed and failed with the
  -- error returned, then the inputs were reset once, and none of the commands behind it was executed.
  pub execute_batch-BatchOutcome :
      (commands : List OwnedCommand) (t : T)
      → BatchOutcome b t commands (execute_batch b commands t)
  unfolding execute_batch
  execute_batch-BatchOutcome commands t = batch_loop-BatchOutcome commands acked t
