-- ===== src/Crypto/Container/Validity.antt =====
-- pkg/crypto/container: Validate, over the instant that the clock shows.
use gpgfs.Base.{ℕ, ◌+◌, ◌<◌, ◌≡◌, ◌↔◌, Option, arith, ◌==◌, if◌then◌else◌}
use gpgfs.Base.Int.{ℤ, pos, leb_ℤ}
use gpgfs.Crypto.Container.{Container, Store, current_version, new}

pub data Relation : Type 0 where
  after before : Relation

-- nil, `ErrIncompatible` or `ErrInvalid`.
pub data Verdict : Type 0 where
  valid : Verdict
  incompatible : (want got : ℕ) → Verdict
  invalid : Relation → (timestamp now : ℤ) → Verdict

-- `Validate`; `t.After(u)` is that not `t <= u`.
unfoldable pub validate : Container → ℤ → Verdict
validate s t =
    if s.version == current_version
    then if leb_ℤ t s.valid_after
      then invalid after s.valid_after t
      else if leb_ℤ s.valid_before t
      then invalid before s.valid_before t
      else valid
    else incompatible current_version s.version

-- A new container, whose start and time to live are not negative, is valid strictly inside its
-- time to live, and at no other instant that is not negative.
pub validate-new :
    (start ttl now : ℕ) (payload : Option ℕ) (st : Store)
    → (validate (new (pos start) (pos ttl) payload st).0 (pos now) ≡ valid)
      ↔ ((start < now) × (now < start + ttl))
unfolding validate new
validate-new start ttl now payload st = ground arith
