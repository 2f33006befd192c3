-- ===== src/Hidctl/Retry.antt =====
-- tools/hidctl/src/client.rs: what the attempts of a command write and return.
use rp2350_keymouse_bridge_f.Common.{
  ℕ, zero, suc, ◌≤◌, ◌≡◌, refl, arith, List, [], ◌∷◌, Bool, true, false, Result, ok, err,
  if◌then◌else◌,
}
use rp2350_keymouse_bridge_f.Protocol.{CommandType}
use rp2350_keymouse_bridge_f.Hidctl.Client.{
  ClientError, Response, expected_response_type, same_type, busy_retry_delay, timed_out,
  port_failed, remained_busy, nack_code, unexpected_type,
}
use rp2350_keymouse_bridge_f.Hidctl.Reader.{
  Attempt, ReadDone, read_timeout, other_error, read_response,
}
use rp2350_keymouse_bridge_f.Hidctl.Sender.{
  ClientAction, write_frame, sleep_ms, Sent, then_send, after_busy, after_read, is_busy, is_nack,
  nack_of, write_or, send_attempts,
}

-- Writes of this frame and pauses, with their number of writes.
abbrev pub Writes : List ℕ → ℕ → List ClientAction → Type 0
Writes frame n [] = n ≡ 0
Writes frame n (write_frame bytes ∷ actions) =
    (bytes ≡ frame) × ((m : ℕ) × (n ≡ suc m) × Writes frame m actions)
Writes frame n (sleep_ms delay ∷ actions) = Writes frame n actions
Writes frame n (other ∷ actions) = ⊥

-- A success has the type that the command expects.
abbrev pub IsAnswer : CommandType → Result ClientError Response → Type 0
IsAnswer command_type (ok response) =
    same_type response.command_type (expected_response_type command_type) ≡ true
IsAnswer command_type (err e) = Unit {0}

-- Nothing but the frame is written, at most so often.
abbrev pub IsSent : List ℕ → CommandType → ℕ → Sent → Type 0
IsSent frame command_type most (actions, buffer, result) =
    ((n : ℕ) × (n ≤ most) × Writes frame n actions) × IsAnswer command_type result

module _ (frame : List ℕ) (t : CommandType) where
  nothing-IsSent :
      (most : ℕ) (buffer : List ℕ) (result : Result ClientError Response)
      → IsAnswer t result
      → IsSent frame t most ([], buffer, result)
  nothing-IsSent most buffer result h = ((0, omega arith, refl), h)

  write-IsSent :
      (most : ℕ) (r : Sent)
      → IsSent frame t most r
      → IsSent frame t (suc most) (then_send (write_frame frame ∷ []) r)
  write-IsSent most (actions, buffer, result) ((n, few, writes), h) =
      ((suc n, omega arith, (refl, (n, refl, writes))), h)

  sleep-IsSent :
      (most delay : ℕ) (r : Sent)
      → IsSent frame t most r
      → IsSent frame t most (then_send (sleep_ms delay ∷ []) r)
  sleep-IsSent most delay (actions, buffer, result) h = h

  busy-IsSent :
      (most left : ℕ) (delay : Result ClientError ℕ) (buffer : List ℕ) (next : Sent)
      → IsSent frame t most next
      → IsSent frame t most (after_busy left delay buffer next)
  busy-IsSent most left (err e) buffer next h = nothing-IsSent most buffer (err e) tt
  busy-IsSent most zero (ok delay) buffer next h = nothing-IsSent most buffer (err remained_busy) tt
  busy-IsSent most (suc left) (ok delay) buffer next h = sleep-IsSent most delay next h

  checked-IsSent :
      (most : ℕ) (buffer : List ℕ) (response : Response) (b : Bool) (e : ClientError)
      → same_type response.command_type (expected_response_type t) ≡ b
      → IsSent frame t most (if b then ([], buffer, ok response) else ([], buffer, err e))
  checked-IsSent most buffer response true e h = nothing-IsSent most buffer (ok response) h
  checked-IsSent most buffer response false e h = nothing-IsSent most buffer (err e) tt

  choice-IsSent :
      (most : ℕ) (b : Bool) (x y : Sent)
      → IsSent frame t most x
      → IsSent frame t most y
      → IsSent frame t most (if b then x else y)
  choice-IsSent most true x y h k = h
  choice-IsSent most false x y h k = k

  read-IsSent :
      (most left : ℕ) (r : ReadDone) (next : List ℕ → Sent)
      → ((buffer : List ℕ) → IsSent frame t most (next buffer))
      → IsSent frame t most (after_read left t r next)
  unfolding after_read
  read-IsSent most left (buffer, err (other_error e)) next h = nothing-IsSent most buffer (err e) tt
  read-IsSent most zero (buffer, err read_timeout) next h =
      nothing-IsSent most buffer (err timed_out) tt
  read-IsSent most (suc left) (buffer, err read_timeout) next h = h buffer
  read-IsSent most left (buffer, ok response) next h =
      choice-IsSent most (is_busy response.command_type)
        (after_busy left (busy_retry_delay response.payload) buffer (next buffer)) _
        (busy-IsSent most left (busy_retry_delay response.payload) buffer (next buffer) (h buffer))
        (choice-IsSent most (is_nack response.command_type)
          ([], buffer, err (nack_code (nack_of response.payload))) _
          (nothing-IsSent most buffer (err (nack_code (nack_of response.payload))) tt)
          (checked-IsSent most buffer response
            (same_type response.command_type (expected_response_type t))
            (unexpected_type response.command_type (expected_response_type t)) refl))

  write_or-IsSent :
      (most : ℕ) (a : Attempt) (buffer : List ℕ) (read : Sent)
      → IsSent frame t most read
      → IsSent frame t (suc most) (write_or frame a buffer read)
  write_or-IsSent most a buffer read h =
      choice-IsSent (suc most) a.write_fails (write_frame frame ∷ [], buffer, err port_failed) _
        ((1, omega arith, (refl, (0, refl, refl))), tt) (write-IsSent most read h)

  -- However the port behaves, the attempts of a command write its frame and no other bytes, at most
  -- once more than the retries, with pauses between them, and the command succeeds only with a
  -- response of the type that it expects.
  pub send_attempts-IsSent :
      (left : ℕ) (met : ℕ → Attempt) (sequence : ℕ) (buffer : List ℕ)
      → IsSent frame t (suc left) (send_attempts left met t sequence frame buffer)
  unfolding send_attempts
  send_attempts-IsSent zero met sequence buffer = write_or-IsSent 0 (met 0) buffer _ (
      read-IsSent 0 0 (read_response (met 0) sequence buffer) _
        (λ left. nothing-IsSent 0 left (err timed_out) tt))
  send_attempts-IsSent (suc left) met sequence buffer =
      write_or-IsSent (suc left) (met (suc left)) buffer _ (
        read-IsSent (suc left) (suc left) (read_response (met (suc left)) sequence buffer) _
          (send_attempts-IsSent left met sequence))
