-- ===== src/Sync/Semaphore.antt =====
-- pkg/sync/sync.go: Semaphore. A channel of empty structs is the number of tokens in its buffer.
pub mod Counts
use gpgfs.Base.{
  String, ℕ, zero, suc, ◌+◌, ◌-◌, ◌≤◌, ◌<◌, ◌≡◌, Bool, true, false, Option, none, some, List, [],
  ◌∷◌, Result, ok, err, panic, Error, new, ltb, ◌==◌, if◌then◌else◌,
}
use gpgfs.Base.Int.{ℤ, pos, negsuc}

pub record Semaphore : Type 0 where
  pub limit : ℕ
  pub tokens : ℕ

-- `Post`: a token goes into the buffer if there is room.
unfoldable pub post : Semaphore → Option Error × Semaphore
post s =
    if ltb s.tokens s.limit
    then (none, record s { tokens = s.tokens + 1 })
    else (some (new "hit semaphore limit %d" ((s.limit ∷ []) ∷ [])), s)

take_token : ℕ → Option ℕ
take_token zero = none
take_token (suc n) = some n

-- Without a buffer, a `Post` that meets a `Wait` which is blocked hands its token over: both return,
-- and the buffer stays empty.
unfoldable pub hand_over : Semaphore → Option Semaphore
hand_over s = if s.limit == 0 then some s else none

-- `Wait` blocks on an empty buffer: then there is no step.
unfoldable pub wait : Semaphore → Option Semaphore
unfolding take_token
wait s = elim (take_token s.tokens) [ none ↦ none | some n ↦ some (record s { tokens = n }) ]

-- `TryWait`
unfoldable pub try_wait : Semaphore → Bool × Semaphore
unfolding take_token
try_wait s = elim (take_token s.tokens) [
  | none ↦ (false, s)
  | some n ↦ (true, record s { tokens = n })
]

-- How a call of `NewSemaphore` ends.
pub data Made : Type 0 where
  made : Semaphore → Made
  panics : String → Made
  blocked : Made
  unfinished : Made

-- `for initial != 0 { ch <- struct{}{}; initial-- }` on fuel: a send blocks for ever on a full
-- buffer, since nobody else has the channel.
unfoldable pub fill : ℕ → ℤ → Semaphore → Made
fill zero initial s = unfinished
fill (suc fuel) (pos zero) s = made s
fill (suc fuel) (pos (suc n)) s =
    let rest = fill fuel (pos n) (record s { tokens = s.tokens + 1 }) in
    if ltb s.tokens s.limit then rest else blocked
fill (suc fuel) (negsuc n) s =
    let rest = fill fuel (negsuc (n + 1)) (record s { tokens = s.tokens + 1 }) in
    if ltb s.tokens s.limit then rest else blocked

-- `NewSemaphore`; `make` panics on a negative size.
unfoldable pub new_semaphore : ℕ → ℤ → ℤ → Made
unfolding fill
new_semaphore fuel initial (pos limit) = fill fuel initial (record { limit = limit; tokens = 0 })
new_semaphore fuel initial (negsuc n) = panics "makechan: size out of range"
