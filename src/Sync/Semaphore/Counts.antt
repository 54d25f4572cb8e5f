-- ===== src/Sync/Semaphore/Counts.antt =====
-- How many tokens a semaphore holds, over any sequence of calls, and when one can be made.
use gpgfs.Base.{
  ℕ, zero, suc, ◌+◌, ◌≤◌, ◌<◌, ◌≡◌, ◌≢◌, refl, true, false, none, some, arith, leb, if◌then◌else◌,
}
use gpgfs.Base.Int.{pos, negsuc}
use gpgfs.Sync.Semaphore.{
  Semaphore, post, hand_over, wait, try_wait, made, panics, blocked, fill, new_semaphore,
}

-- A sequence of calls that return, by any threads, with the tokens that were put in and taken out.
pub data Calls (s : Semaphore) : ℕ → ℕ → Semaphore → Type 0 where
  start : Calls s 0 0 s
  posted :
      {p w : ℕ} {t : Semaphore} → Calls s p w t → (post t).0 ≡ none → Calls s (suc p) w (post t).1
  refused : {p w : ℕ} {t : Semaphore} → Calls s p w t → (post t).0 ≢ none → Calls s p w (post t).1
  handed :
      {p w : ℕ} {t u : Semaphore} → Calls s p w t → hand_over t ≡ some u → Calls s (suc p) (suc w) u
  waited : {p w : ℕ} {t u : Semaphore} → Calls s p w t → wait t ≡ some u → Calls s p (suc w) u
  taken :
      {p w : ℕ} {t : Semaphore}
      → Calls s p w t
      → (try_wait t).0 ≡ true
      → Calls s p (suc w) (try_wait t).1
  missed :
      {p w : ℕ} {t : Semaphore}
      → Calls s p w t
      → (try_wait t).0 ≡ false
      → Calls s p w (try_wait t).1

-- The limit stays, and the tokens are those of before, with those put in and without those taken.
pub record IsBalanced (s : Semaphore) (p w : ℕ) (t : Semaphore) : Type 0 where
  pub limit : t.limit ≡ s.limit
  pub within : t.tokens ≤ t.limit
  pub balance : t.tokens + w ≡ s.tokens + p

post-IsBalanced :
    (s t : Semaphore) (p w : ℕ)
    → IsBalanced s p w t
    → (post t).0 ≡ none
    → IsBalanced s (suc p) w (post t).1
unfolding post
post-IsBalanced s t p w b h = ground arith

post-IsBalanced_refused :
    (s t : Semaphore) (p w : ℕ)
    → IsBalanced s p w t
    → (post t).0 ≢ none
    → IsBalanced s p w (post t).1
unfolding post
post-IsBalanced_refused s t p w b h = ground arith

hand_over-IsBalanced :
    (s t u : Semaphore) (p w : ℕ)
    → IsBalanced s p w t
    → hand_over t ≡ some u
    → IsBalanced s (suc p) (suc w) u
unfolding hand_over
hand_over-IsBalanced s t u p w b h = ground arith

wait-IsBalanced :
    (s t u : Semaphore) (p w : ℕ) → IsBalanced s p w t → wait t ≡ some u → IsBalanced s p (suc w) u
unfolding wait
wait-IsBalanced s t u p w b h = ground arith

try_wait-IsBalanced :
    (s t : Semaphore) (p w : ℕ)
    → IsBalanced s p w t
    → (try_wait t).0 ≡ true
    → IsBalanced s p (suc w) (try_wait t).1
unfolding try_wait
try_wait-IsBalanced s t p w b h = ground arith

try_wait-IsBalanced_missed :
    (s t : Semaphore) (p w : ℕ)
    → IsBalanced s p w t
    → (try_wait t).0 ≡ false
    → IsBalanced s p w (try_wait t).1
unfolding try_wait
try_wait-IsBalanced_missed s t p w b h = ground arith

-- From a semaphore within its limit no sequence of calls leads past the limit, and every token
-- taken out was there at the start or was put in before.
pub Calls-IsBalanced :
    {s t : Semaphore} {p w : ℕ} → s.tokens ≤ s.limit → Calls s p w t → IsBalanced s p w t
Calls-IsBalanced h start = record { limit = refl; within = h; balance = refl }
Calls-IsBalanced h (posted c e) = post-IsBalanced _ _ _ _ (Calls-IsBalanced h c) e
Calls-IsBalanced h (refused c e) = post-IsBalanced_refused _ _ _ _ (Calls-IsBalanced h c) e
Calls-IsBalanced h (handed c e) = hand_over-IsBalanced _ _ _ _ _ (Calls-IsBalanced h c) e
Calls-IsBalanced h (waited c e) = wait-IsBalanced _ _ _ _ _ (Calls-IsBalanced h c) e
Calls-IsBalanced h (taken c e) = try_wait-IsBalanced _ _ _ _ (Calls-IsBalanced h c) e
Calls-IsBalanced h (missed c e) = try_wait-IsBalanced_missed _ _ _ _ (Calls-IsBalanced h c) e

fill-made :
    (fuel n limit t : ℕ)
    → n < fuel
    → t + n ≤ limit
    → fill fuel (pos n) (record { limit = limit; tokens = t })
      ≡ made (record { limit = limit; tokens = t + n })
unfolding fill
fill-made zero n limit t f h = absurd (omega arith)
fill-made (suc fuel) zero limit t f h = ground arith
fill-made (suc fuel) (suc n) limit t f h = ground (arith, fill-made fuel n limit (t + 1))

fill-blocked :
    (fuel n limit t : ℕ)
    → limit < fuel + t
    → t ≤ limit
    → limit < t + n
    → fill fuel (pos n) (record { limit = limit; tokens = t }) ≡ blocked
unfolding fill
fill-blocked zero n limit t f h k = absurd (omega arith)
fill-blocked (suc fuel) zero limit t f h k = absurd (omega arith)
fill-blocked (suc fuel) (suc n) limit t f h k = ground (arith, fill-blocked fuel n limit (t + 1))

fill-blocked_negative :
    (fuel n limit t : ℕ)
    → limit < fuel + t
    → t ≤ limit
    → fill fuel (negsuc n) (record { limit = limit; tokens = t }) ≡ blocked
unfolding fill
fill-blocked_negative zero n limit t f h = absurd (omega arith)
fill-blocked_negative (suc fuel) n limit t f h =
    ground (arith, fill-blocked_negative fuel (n + 1) limit (t + 1))

-- With more fuel than the limit the loop of `NewSemaphore` is followed to its end: it makes a
-- semaphore with the initial tokens if they are from 0 to the limit. With more of them, and with a
-- negative number, it blocks for ever; a negative limit panics.
pub new_semaphore_lem :
    (fuel limit n : ℕ)
    → limit < fuel
    → (new_semaphore fuel (pos n) (pos limit)
        ≡ (if leb n limit then made (record { limit = limit; tokens = n }) else blocked))
      × (new_semaphore fuel (negsuc n) (pos limit) ≡ blocked)
      × (new_semaphore fuel (pos n) (negsuc limit) ≡ panics "makechan: size out of range")
unfolding new_semaphore
new_semaphore_lem fuel limit n f = (
  ground (arith, fill-made fuel n limit 0, fill-blocked fuel n limit 0),
  ground (arith, fill-blocked_negative fuel n limit 0),
  refl,
)
