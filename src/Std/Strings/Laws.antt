-- ===== src/Std/Strings/Laws.antt =====
-- Laws of the string operations.
use mathlib.Core.List.{reverse, reverse-append}
use gpgfs.Base.{
  inl, inr, Bool-cases, ◌==◌, ℕ, ◌≡◌, refl, ◌≢◌, ◌↔◌, true, List, [], ◌∷◌, ◌++◌, length, take,
  take-append, arith, All, ◌-◌, length-append, ap, ◌∙◌,
}
use gpgfs.Std.Strings.{Str, same, has_prefix, has_suffix, trim_suffix, split, join}

same→eq : (s t : Str) → same s t ≡ true → s ≡ t
unfolding same
same→eq [] [] h = refl
same→eq [] (b ∷ t) h = cc
same→eq (a ∷ s) [] h = cc
same→eq (a ∷ s) (b ∷ t) h = ground (arith, same→eq s t)

pub same_refl : (s : Str) → same s s ≡ true
unfolding same
same_refl [] = refl
same_refl (a ∷ s) = ground (arith, same_refl s)

pub same_iff : (s t : Str) → (same s t ≡ true) ↔ (s ≡ t)
same_iff s t = (same→eq s t, λ e. rw e (same_refl t))

has_prefix-append : (p s : Str) → has_prefix (p ++ s) p ≡ true
unfolding has_prefix
has_prefix-append [] [] = refl
has_prefix-append [] (a ∷ s) = refl
has_prefix-append (a ∷ p) s = ground (arith, has_prefix-append p s)

pub has_suffix-append : (s x : Str) → has_suffix (s ++ x) x ≡ true
unfolding has_suffix
has_suffix-append s x = rw (reverse-append s x) (has_prefix-append (reverse x) (reverse s))

take-length : (s x : Str) → take (length (s ++ x) - length x) (s ++ x) ≡ s
take-length s x =
    let e : length (s ++ x) - length x ≡ length s = omega (arith, length-append s x) in
    rw e (take-append s x)

pub trim_suffix-append : (s x : Str) → trim_suffix (s ++ x) x ≡ s
unfolding trim_suffix
trim_suffix-append s x = rw (has_suffix-append s x) (take-length s x)

-- No byte of the word is `sep`.
abbrev pub Lacks : ℕ → Str → Type 0
Lacks sep w = All (λ c. c ≢ sep) w

split-Lacks : (sep : ℕ) (w : Str) → Lacks sep w → split sep w ≡ w ∷ []
unfolding split
split-Lacks sep [] h = refl
split-Lacks sep (c ∷ w) (h, hs) = rw (split-Lacks sep w hs) (ground arith)

pub split-append : (sep : ℕ) (w s : Str) → Lacks sep w → split sep (w ++ sep ∷ s) ≡ w ∷ split sep s
unfolding split
split-append sep [] s h = ground arith
split-append sep (c ∷ w) s (h, hs) = rw (split-append sep w s hs) (ground arith)

split-ne-nil : (sep : ℕ) (s : Str) → (w : Str) × (ws : List Str) × (split sep s ≡ w ∷ ws)
unfolding split
split-ne-nil sep [] = ([], [], refl)
split-ne-nil sep (c ∷ s) =
    let (w, ws, e) = split-ne-nil sep s in
    elim (Bool-cases (c == sep)) [
      | inl h ↦ ([], w ∷ ws, rw (e, h))
      | inr h ↦ (c ∷ w, ws, rw (e, h))
    ]

-- A separator cuts the text in two.
pub split-append_sep : (sep : ℕ) (u v : Str) → split sep (u ++ sep ∷ v) ≡ split sep u ++ split sep v
unfolding split
split-append_sep sep [] v = ground arith
split-append_sep sep (c ∷ u) v =
    let (w, ws, e) = split-ne-nil sep u in let ih = split-append_sep sep u v in ground arith

-- Splitting undoes joining.
pub split-join :
    (sep : ℕ) (w : Str) (ws : List Str)
    → All (Lacks sep) (w ∷ ws)
    → split sep (join sep (w ∷ ws)) ≡ w ∷ ws
unfolding join
split-join sep w [] (h, _) = split-Lacks sep w h
split-join sep w (v ∷ ws) (h, hs) =
    split-append sep w (join sep (v ∷ ws)) h ∙ ap (λ r. w ∷ r) (split-join sep v ws hs)
