-- ===== src/Execution/Monad.antt =====
-- src/execution_core.rs: `ExecutionBackend`, and computations that use one.
use rp2350_keymouse_bridge_f.Common.{ℕ, Result, ok, err}
use rp2350_keymouse_bridge_f.Common.Int.{ℤ}
use rp2350_keymouse_bridge_f.Input.{KeyboardState}
use rp2350_keymouse_bridge_f.Input.Mouse.{MouseState, InputState}
use rp2350_keymouse_bridge_f.Errors.{ErrorCode}

-- The trait, over the backend's own state.
pub record Backend (S : Type 0) : Type 0 where
  pub check_cancelled : S → S × Result ErrorCode (Unit {0})
  pub delay : ℕ → S → S × Result ErrorCode (Unit {0})
  pub send_keyboard : KeyboardState → S → S × Result ErrorCode (Unit {0})
  pub send_mouse : MouseState → ℤ → ℤ → ℤ → S → S × Result ErrorCode (Unit {0})

-- What `backend` and `state` refer to.
pub record World (S : Type 0) : Type 0 where
  pub backend : S
  pub input : InputState

-- A result, and the world that it leaves.
abbrev pub Exec : Type 0 → Type 0 → Type 0
Exec S A = World S → World S × Result ErrorCode A

module _ {S : Type 0} where
  abbrev pub done : {A : Type 0} → A → Exec S A
  done a w = (w, ok a)

  abbrev pub fail : {A : Type 0} → ErrorCode → Exec S A
  fail e w = (w, err e)

  abbrev pub lift : {A : Type 0} → Result ErrorCode A → Exec S A
  lift r w = (w, r)

  -- `?`
  abbrev pub after :
      {A B : Type 0} → World S × Result ErrorCode A → (A → Exec S B) → World S × Result ErrorCode B
  after (w, ok a) f = f a w
  after (w, err e) f = (w, err e)

  infixl 5 ◌>>=◌ ◌>>◌
  abbrev pub ◌>>=◌ : {A B : Type 0} → Exec S A → (A → Exec S B) → Exec S B
  ◌>>=◌ m f w = after (m w) f

  abbrev pub ◌>>◌ : {B : Type 0} → Exec S (Unit {0}) → Exec S B → Exec S B
  m >> k = m >>= λ u. k

  -- A call of the backend.
  abbrev pub on_backend : (S → S × Result ErrorCode (Unit {0})) → Exec S (Unit {0})
  on_backend call w = (record w { backend = (call w.backend).0 }, (call w.backend).1)

  abbrev pub get_input : Exec S InputState
  get_input w = (w, ok w.input)

  abbrev pub set_keyboard : KeyboardState → Exec S (Unit {0})
  set_keyboard k w = (record w { input = record w.input { keyboard = k } }, ok tt)

  abbrev pub set_mouse : MouseState → Exec S (Unit {0})
  set_mouse m w = (record w { input = record w.input { mouse = m } }, ok tt)
