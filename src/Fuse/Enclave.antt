-- ===== src/Fuse/Enclave.antt =====
-- The memguard package as pkg/fuse uses it: sealed memory (`Enclave`) and opened memory
-- (`LockedBuffer`). Its code is vendored and stands here as an interface.
use gpgfs.Base.{ℕ, ◌≡◌, Option, none, some, List, [], ◌∷◌, Result, ok, panic, Bool, true, false}

abbrev pub Bytes : Type 0
Bytes = List ℕ

-- `Destroy` wipes the buffer: it is no longer alive and holds no byte.
pub record LockedBuffer : Type 0 where
  pub bytes : Bytes
  pub alive : Bool

abbrev pub locked : Bytes → LockedBuffer
locked b = record { bytes = b; alive = true }

abbrev pub destroy : LockedBuffer → LockedBuffer
destroy b = record { bytes = []; alive = false }

pub record Enclaves : Type 1 where
  pub Enclave : Type 0
  -- `NewEnclave`; nil is `none`.
  pub new_enclave : Bytes → Option Enclave
  -- `(*Enclave).Open`
  pub open_enclave : Enclave → Result LockedBuffer

-- "If the length of the buffer is zero, the function will return nil"; what was sealed can be
-- opened.
pub record IsSealing (G : Enclaves) : Type 0 where
  pub new_enclave-nil : G.new_enclave [] ≡ none
  pub new_enclave-cons :
      (b : ℕ) (bs : Bytes)
      → (e : G.Enclave) × (G.new_enclave (b ∷ bs) ≡ some e)
        × (G.open_enclave e ≡ ok (locked (b ∷ bs)))

module _ (G : Enclaves) where
  -- `enclave.Open()` on a pointer, which may be nil.
  unfoldable pub open_pointer : Option G.Enclave → Result LockedBuffer
  open_pointer none = panic "invalid memory address or nil pointer dereference"
  open_pointer (some e) = G.open_enclave e
