-- ===== src/Std/FilePath/Clean.antt =====
-- `Clean` and `Join` on paths whose parts are plain names.
use mathlib.Core.List.{reverse, reverse-reverse, reverse-cons}
use gpgfs.Base.{
  ◌≡◌, refl, ◌≢◌, Bool, true, List, [], ◌∷◌, ◌++◌, All, arith, ◌∙◌, ap, append_assoc, append-nil,
}
use gpgfs.Std.Strings.{Str, split, join}
use gpgfs.Std.Strings.Laws.{Lacks, same_iff, split-append_sep, split-join}
use gpgfs.Std.FilePath.{slash, dot, dot_dot, push_part, push_parts, clean_parts, clean, join_path}

-- A file name that a directory can list: not empty, `.` or `..`, and with no slash.
abbrev pub IsPlain : Str → Type 0
IsPlain w = (w ≢ []) × (w ≢ dot) × (w ≢ dot_dot) × Lacks slash w

-- The rooted path with these parts.
abbrev pub rooted : List Str → Str
rooted parts = slash ∷ join slash parts

push_part-IsPlain :
    (r : Bool) (kept : List Str) (w : Str) → IsPlain w → push_part r kept w ≡ w ∷ kept
unfolding push_part
push_part-IsPlain r kept w h = ground (arith, same_iff w [], same_iff w dot, same_iff w dot_dot)

-- An empty part, as between two slashes, is passed over.
push_parts-nil :
    (r : Bool) (kept ps : List Str) → push_parts r kept (([] ∷ []) ++ ps) ≡ push_parts r kept ps
unfolding push_parts push_part
push_parts-nil r kept ps = refl

split-nil : split slash [] ≡ [] ∷ []
unfolding split
split-nil = refl

push_parts-append :
    (r : Bool) (kept ps qs : List Str)
    → push_parts r kept (ps ++ qs) ≡ push_parts r (push_parts r kept ps) qs
unfolding push_parts
push_parts-append r kept [] qs = refl
push_parts-append r kept (p ∷ ps) qs = push_parts-append r (push_part r kept p) ps qs

push_parts-IsPlain :
    (r : Bool) (kept ps : List Str) → All IsPlain ps → push_parts r kept ps ≡ reverse ps ++ kept
unfolding push_parts
push_parts-IsPlain r kept [] h = refl
push_parts-IsPlain r kept (p ∷ ps) (h, hs) =
    rw (push_part-IsPlain r kept p h, push_parts-IsPlain r (p ∷ kept) ps hs)
      (simp (reverse-cons, append_assoc))

pub Lacks-IsPlain : (ps : List Str) → All IsPlain ps → All (Lacks slash) ps
Lacks-IsPlain [] h = tt
Lacks-IsPlain (p ∷ ps) (h, hs) = (h.3, Lacks-IsPlain ps hs)

-- The parts that `Clean` keeps of plain names joined by slashes.
pub push_parts-join :
    (r : Bool) (kept ps : List Str)
    → All IsPlain ps
    → push_parts r kept (split slash (join slash ps)) ≡ reverse ps ++ kept
push_parts-join r kept [] h = unfold split join push_parts push_part in refl
push_parts-join r kept (p ∷ ps) h =
    rw (split-join slash p ps (Lacks-IsPlain (p ∷ ps) h)) (push_parts-IsPlain r kept (p ∷ ps) h)

push_parts-name :
    (r : Bool) (kept : List Str) (name : Str)
    → IsPlain name
    → push_parts r kept (split slash name) ≡ name ∷ kept
unfolding join
push_parts-name r kept name n = push_parts-join r kept (name ∷ []) (n, tt)

push_parts-rooted :
    (ps : List Str) → All IsPlain ps → push_parts true [] (split slash (rooted ps)) ≡ reverse ps
push_parts-rooted ps h =
    rw (split-append_sep slash [] (join slash ps), split-nil, push_parts-nil)
      (push_parts-join true [] ps h ∙ append-nil _)

pub clean_parts-rooted : (ps : List Str) → All IsPlain ps → clean_parts (rooted ps) ≡ ps
unfolding clean_parts
clean_parts-rooted ps h = rw (push_parts-rooted ps h) (reverse-reverse ps)

pub clean-rooted : (ps : List Str) → All IsPlain ps → clean (rooted ps) ≡ rooted ps
unfolding clean
clean-rooted ps h = rw (clean_parts-rooted ps h) refl

pub All-append {ℓ} :
    {A : Type 0} (P : A → Type ℓ) (xs ys : List A) → All P xs → All P ys → All P (xs ++ ys)
All-append P [] ys hx hy = hy
All-append P (x ∷ xs) ys hx hy = (hx.0, All-append P xs ys hx.1 hy)

clean_parts-append :
    (ps : List Str) (name : Str)
    → All IsPlain ps
    → IsPlain name
    → clean_parts (rooted ps ++ slash ∷ name) ≡ ps ++ name ∷ []
unfolding clean_parts
clean_parts-append ps name h n =
    rw
      (
        split-append_sep slash (rooted ps) name,
        push_parts-append,
        push_parts-rooted ps h,
        push_parts-name true (reverse ps) name n,
      )
      (simp (reverse-cons, reverse-reverse))

-- Below a directory with plain parts, `Join` adds the name as one more part.
pub join_path-rooted :
    (ps : List Str) (name : Str)
    → All IsPlain ps
    → IsPlain name
    → join_path (rooted ps) name ≡ rooted (ps ++ name ∷ [])
unfolding join_path
join_path-rooted ps [] h n = absurd (n.0 refl)
join_path-rooted ps (c ∷ name) h n = ap rooted (clean_parts-append ps (c ∷ name) h n)

-- A slash behind the last part is dropped.
pub clean_parts-slash :
    (ps : List Str) → All IsPlain ps → clean_parts (rooted ps ++ slash ∷ []) ≡ ps
unfolding clean_parts
clean_parts-slash ps h =
    rw (split-append_sep slash (rooted ps) [], push_parts-append, push_parts-rooted ps h)
      (reverse-reverse ps)
