-- ===== src/Common/Heapless.antt =====
-- The `heapless::Vec` of the firmware, whose code is not part of the repository: the operations that
-- the firmware calls, and what their documentation says of them.
use Prim.Native.Nat.{ℕ, ◌+◌, ◌≤◌, ◌<◌}
use mathlib.Core.Path.{◌≡◌}
use mathlib.Core.Option.{Option, none, some}
use mathlib.Core.List.{List, [], ◌∷◌, ◌++◌}
use native.Mathlib.Omega.{arith}
use rp2350_keymouse_bridge_f.Common.Tests.{ltb, leb, if◌then◌else◌}
use rp2350_keymouse_bridge_f.Common.Lists.{length}

-- Each takes the element type, the capacity and the elements; `none` is the error that returns
-- without a change.
pub record Heapless : Type 1 where
  pub push : (A : Type 0) → ℕ → List A → A → Option (List A)
  pub extend_from_slice : (A : Type 0) → ℕ → List A → List A → Option (List A)

pub record IsHeapless (v : Heapless) : Type 1 where
  pub push_room :
      (A : Type 0) (capacity : ℕ) (xs : List A) (x : A)
      → length xs < capacity
      → v.push A capacity xs x ≡ some (xs ++ x ∷ [])
  pub push_full :
      (A : Type 0) (capacity : ℕ) (xs : List A) (x : A)
      → capacity ≤ length xs
      → v.push A capacity xs x ≡ none
  pub extend_room :
      (A : Type 0) (capacity : ℕ) (xs ys : List A)
      → length xs + length ys ≤ capacity
      → v.extend_from_slice A capacity xs ys ≡ some (xs ++ ys)
  pub extend_full :
      (A : Type 0) (capacity : ℕ) (xs ys : List A)
      → capacity < length xs + length ys
      → v.extend_from_slice A capacity xs ys ≡ none

-- A vector that behaves so.
unfoldable pub list_vec : Heapless
list_vec = record {
  push = λ A capacity xs x. if ltb (length xs) capacity then some (xs ++ x ∷ []) else none;
  extend_from_slice =
      λ A capacity xs ys. if leb (length xs + length ys) capacity then some (xs ++ ys) else none;
}

pub list_vec-IsHeapless : IsHeapless list_vec
unfolding list_vec
list_vec-IsHeapless = record {
  push_room = λ A capacity xs x h. ground arith;
  push_full = λ A capacity xs x h. ground arith;
  extend_room = λ A capacity xs ys h. ground arith;
  extend_full = λ A capacity xs ys h. ground arith;
}
