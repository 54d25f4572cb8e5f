-- ===== src/Std/Space.antt =====
-- Go's strings.TrimSpace over byte strings: the white space of Unicode, in its UTF-8 encodings.
use mathlib.Core.List.{reverse}
use gpgfs.Base.{
  ◌≡◌, ◌≢◌, ◌≤◌, ◌⊎◌, inl, inr, refl, ap, ◌∙◌, arith, length-drop, ℕ, zero, suc, List, [], ◌∷◌, map,
  if◌then◌else◌, length, drop,
}
use gpgfs.Std.Strings.{Str, codes, has_prefix}

abbrev pub white_spaces : List Str
white_spaces =
    (9 ∷ [])
    ∷ (10 ∷ [])
    ∷ (11 ∷ [])
    ∷ (12 ∷ [])
    ∷ (13 ∷ [])
    ∷ (32 ∷ [])
    ∷ (194 ∷ 133 ∷ [])
    ∷ (194 ∷ 160 ∷ [])
    ∷ (225 ∷ 154 ∷ 128 ∷ [])
    ∷ (226 ∷ 128 ∷ 128 ∷ [])
    ∷ (226 ∷ 128 ∷ 129 ∷ [])
    ∷ (226 ∷ 128 ∷ 130 ∷ [])
    ∷ (226 ∷ 128 ∷ 131 ∷ [])
    ∷ (226 ∷ 128 ∷ 132 ∷ [])
    ∷ (226 ∷ 128 ∷ 133 ∷ [])
    ∷ (226 ∷ 128 ∷ 134 ∷ [])
    ∷ (226 ∷ 128 ∷ 135 ∷ [])
    ∷ (226 ∷ 128 ∷ 136 ∷ [])
    ∷ (226 ∷ 128 ∷ 137 ∷ [])
    ∷ (226 ∷ 128 ∷ 138 ∷ [])
    ∷ (226 ∷ 128 ∷ 168 ∷ [])
    ∷ (226 ∷ 128 ∷ 169 ∷ [])
    ∷ (226 ∷ 128 ∷ 175 ∷ [])
    ∷ (226 ∷ 129 ∷ 159 ∷ [])
    ∷ (227 ∷ 128 ∷ 128 ∷ [])
    ∷ []

-- How many bytes the first of the words takes at the head of the text, 0 if none stands there.
unfoldable pub head_length : List Str → Str → ℕ
unfolding has_prefix
head_length [] s = 0
head_length (w ∷ ws) s = let rest = head_length ws s in if has_prefix s w then length w else rest

-- One word goes in each round, so the length of the text is enough fuel.
unfoldable pub trim_head : ℕ → List Str → Str → Str
unfolding head_length
trim_head zero words s = s
trim_head (suc fuel) words s = trim_head fuel words (drop (head_length words s) s)

unfoldable pub trim_space : Str → Str
unfolding trim_head
trim_space s =
    let t = trim_head (length s) white_spaces s in
    reverse (trim_head (length t) (map reverse white_spaces) (reverse t))

spaces_around : trim_space (codes " a b ") ≡ codes "a b"
unfolding trim_space has_prefix
spaces_around = refl

-- An encoding has bytes.
abbrev pub Nonempty : List Str → Type 0
Nonempty [] = Unit
Nonempty (w ∷ ws) = (w ≢ []) × Nonempty ws

head_length-nil : (ws : List Str) → Nonempty ws → head_length ws [] ≡ 0
unfolding head_length has_prefix
head_length-nil [] h = refl
head_length-nil ([] ∷ ws) (ne, h) = absurd (ne refl)
head_length-nil ((c ∷ w) ∷ ws) (ne, h) = head_length-nil ws h

trim_head-still :
    (fuel : ℕ) (ws : List Str) (s : Str) → head_length ws s ≡ 0 → trim_head fuel ws s ≡ s
unfolding trim_head
trim_head-still zero ws s e = refl
trim_head-still (suc fuel) ws s e = rw e (trim_head-still fuel ws s e)

zero-or-suc : (n : ℕ) → (n ≡ 0) ⊎ ((k : ℕ) × (n ≡ suc k))
zero-or-suc zero = inl refl
zero-or-suc (suc k) = inr (k, refl)

-- With as much fuel as the text is long, none of the encodings stands at the head of what is left.
pub trim_head_lem :
    (fuel : ℕ) (ws : List Str) (s : Str)
    → Nonempty ws
    → length s ≤ fuel
    → head_length ws (trim_head fuel ws s) ≡ 0
unfolding trim_head
trim_head_lem zero ws [] ne h = head_length-nil ws ne
trim_head_lem zero ws (c ∷ s) ne h = absurd (omega arith)
trim_head_lem (suc fuel) ws s ne h = elim (zero-or-suc (head_length ws s)) [
  | inl e ↦ rw e (ap (head_length ws) (trim_head-still fuel ws s e) ∙ e)
  | inr (k, e) ↦
      rw e (trim_head_lem fuel ws (drop (suc k) s) ne (omega (arith, length-drop (suc k) s)))
]
