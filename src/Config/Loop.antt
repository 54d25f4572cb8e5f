-- ===== src/Config/Loop.antt =====
-- The loop `for { switch { case c1: ...; case c2: ...; default: break loop } }`, which every
-- Default method is made of. One round is a step; `none` is the default case.
use mathlib.Core.Option.{some-injective}
use gpgfs.Base.{ℕ, zero, suc, ◌≡◌, Option, none, some, Option-cases, inl, inr, refl}

module _ {C : Type 0} (step : C → Option C) where
  -- With no fuel left there is no result.
  unfoldable pub settle : ℕ → C → Option C
  settle zero c = none
  settle (suc fuel) c = elim (step c) [ none ↦ some c | some c' ↦ settle fuel c' ]

  pub settle-stop : (fuel : ℕ) (c : C) → step c ≡ none → settle (suc fuel) c ≡ some c
  unfolding settle
  settle-stop fuel c e = rw (e, settle) refl

  pub settle-step : (fuel : ℕ) (c c' : C) → step c ≡ some c' → settle (suc fuel) c ≡ settle fuel c'
  unfolding settle
  settle-step fuel c c' e = rw (e, settle) refl

  -- What the loop ends in settles at once.
  pub settle-eq-some : (fuel : ℕ) (c d : C) → settle fuel c ≡ some d → step d ≡ none
  unfolding settle
  settle-eq-some zero c d h = cc
  settle-eq-some (suc fuel) c d h = elim (Option-cases (step c)) [
    | inl e ↦ let same : c ≡ d = some-injective c d (rw (e, settle) at h) in rw (← same) e
    | inr (c', e) ↦ settle-eq-some fuel c' d (rw (e, settle) at h)
  ]
