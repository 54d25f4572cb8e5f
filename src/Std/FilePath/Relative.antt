-- ===== src/Std/FilePath/Relative.antt =====
-- `Rel`, `Clean` and `Split` on paths below a directory, whose parts are plain names.
use mathlib.Core.List.{reverse, reverse-reverse}
use gpgfs.Base.{
  ◌≡◌, refl, ◌≢◌, true, false, List, [], ◌∷◌, ◌++◌, All, arith, ◌∙◌, ap, append_assoc, append-nil,
  ok, length, length-append, Bool-cases, inl, inr, sym,
}
use gpgfs.Std.Strings.{Str, same, split, join}
use gpgfs.Std.Strings.Laws.{Lacks, same_iff, same_refl, split-append_sep, split-join}
use gpgfs.Std.FilePath.{slash, dot, clean_parts, clean, is_rooted, render, rel, diverge, split_path}
use gpgfs.Std.FilePath.Clean.{
  IsPlain, rooted, clean_parts-rooted, clean_parts-slash, push_parts-join, Lacks-IsPlain,
  All-append,
}

diverge-append : (ps qs : List Str) → diverge ps (ps ++ qs) ≡ ([], qs)
unfolding diverge
diverge-append [] [] = refl
diverge-append [] (q ∷ qs) = refl
diverge-append (p ∷ ps) qs = rw (same_refl p) (diverge-append ps qs)

not-eq-append : (ps : List Str) (q : Str) (qs : List Str) → ps ≢ ps ++ q ∷ qs
not-eq-append ps q qs e = absurd (omega (arith, ap length e, length-append ps (q ∷ qs)))

rooted-ne-append :
    (ps : List Str) (q : Str) (qs : List Str)
    → All IsPlain ps
    → All IsPlain (q ∷ qs)
    → same (rooted ps) (rooted (ps ++ q ∷ qs)) ≡ false
rooted-ne-append ps q qs hp hq = elim (Bool-cases (same (rooted ps) (rooted (ps ++ q ∷ qs)))) [
  | inl e ↦
      let e' = ap clean_parts ((same_iff (rooted ps) (rooted (ps ++ q ∷ qs))).0 e) in
      let a = clean_parts-rooted ps hp in
      let b = clean_parts-rooted (ps ++ q ∷ qs) (All-append IsPlain ps (q ∷ qs) hp hq) in
      absurd (not-eq-append ps q qs (sym a ∙ e' ∙ b))
  | inr e ↦ e
]

pub is_rooted-rooted : (ps : List Str) → is_rooted (rooted ps) ≡ true
unfolding is_rooted
is_rooted-rooted ps = refl

-- The path from a directory to what lies below it is made of the parts behind the directory's.
pub rel-rooted :
    (ps : List Str) (q : Str) (qs : List Str) (targ : Str)
    → is_rooted targ ≡ true
    → clean_parts targ ≡ ps ++ q ∷ qs
    → All IsPlain ps
    → All IsPlain (q ∷ qs)
    → rel (rooted ps) targ ≡ ok (join slash (q ∷ qs))
unfolding rel clean render is_rooted
rel-rooted ps q qs targ r e hp hq =
    rw (clean_parts-rooted ps hp, e, diverge-append ps (q ∷ qs), r, rooted-ne-append ps q qs hp hq)
      refl

-- A directory is reached from itself by `.`.
pub rel-rooted_self :
    (ps : List Str) (targ : Str)
    → is_rooted targ ≡ true
    → clean_parts targ ≡ ps
    → All IsPlain ps
    → rel (rooted ps) targ ≡ ok dot
unfolding rel clean render is_rooted
rel-rooted_self ps targ r e hp = rw (clean_parts-rooted ps hp, e, r, same_refl (rooted ps)) refl

is_rooted-join :
    (q : Str) (qs : List Str) → All IsPlain (q ∷ qs) → is_rooted (join slash (q ∷ qs)) ≡ false
unfolding is_rooted join
is_rooted-join [] qs h = absurd (h.0.0 refl)
is_rooted-join (c ∷ q) [] h = ground arith
is_rooted-join (c ∷ q) (p ∷ qs) h = ground arith

clean_parts-join :
    (q : Str) (qs : List Str) → All IsPlain (q ∷ qs) → clean_parts (join slash (q ∷ qs)) ≡ q ∷ qs
unfolding clean_parts
clean_parts-join q qs h =
    rw (is_rooted-join q qs h)
      (ap reverse (push_parts-join false [] (q ∷ qs) h ∙ append-nil _) ∙ reverse-reverse _)

clean_lem : (path : Str) → clean path ≡ render (is_rooted path) (clean_parts path)
unfolding clean
clean_lem path = refl

-- A relative path of plain names is clean.
pub clean-join :
    (q : Str) (qs : List Str)
    → All IsPlain (q ∷ qs)
    → clean (join slash (q ∷ qs)) ≡ join slash (q ∷ qs)
unfolding render
clean-join q qs h =
    rw (clean_lem (join slash (q ∷ qs)), is_rooted-join q qs h, clean_parts-join q qs h) refl

split_path-Lacks : (b : Str) → Lacks slash b → split_path b ≡ ([], b)
unfolding split_path
split_path-Lacks [] h = refl
split_path-Lacks (c ∷ b) (h, hs) = rw (split_path-Lacks b hs) (ground arith)

split_path-append : (u b : Str) → Lacks slash b → split_path (u ++ slash ∷ b) ≡ (u ++ slash ∷ [], b)
unfolding split_path
split_path-append [] b h = rw (split_path-Lacks b h) refl
split_path-append (c ∷ []) b h = rw (split_path-Lacks b h) (ground arith)
split_path-append (c ∷ d ∷ u) b h = rw (split_path-append (d ∷ u) b h) (ground arith)

-- The text that `Split` leaves in front of the name.
abbrev pub dir_text : List Str → Str
dir_text [] = []
dir_text (d ∷ ds) = join slash (d ∷ ds) ++ slash ∷ []

pub join-append :
    (d : Str) (ds : List Str) (b : Str)
    → join slash ((d ∷ ds) ++ b ∷ []) ≡ join slash (d ∷ ds) ++ slash ∷ b
unfolding join
join-append d [] b = refl
join-append d (e ∷ ds) b = rw (join-append e ds b) (simp append_assoc)

-- `Split` takes the last name off.
pub split_path-join :
    (ds : List Str) (b : Str)
    → Lacks slash b
    → split_path (join slash (ds ++ b ∷ [])) ≡ (dir_text ds, b)
split_path-join [] b h = unfold join in split_path-Lacks b h
split_path-join (d ∷ ds) b h = rw (join-append d ds b) (split_path-append (join slash (d ∷ ds)) b h)

-- The names in front, each with its slash, are cut apart again, with one empty piece behind them.
pub split-dir_text : (ds : List Str) → All IsPlain ds → split slash (dir_text ds) ≡ ds ++ [] ∷ []
split-dir_text [] h = unfold split in refl
split-dir_text (d ∷ ds) h =
    split-append_sep slash (join slash (d ∷ ds)) []
    ∙ rw (split-join slash d ds (Lacks-IsPlain (d ∷ ds) h)) (unfold split in refl)

-- A suffix of the last name is a suffix of the path.
pub rooted-append_suffix :
    (ps : List Str) (b x : Str) → rooted (ps ++ (b ++ x) ∷ []) ≡ rooted (ps ++ b ∷ []) ++ x
unfolding join
rooted-append_suffix [] b x = refl
rooted-append_suffix (p ∷ ps) b x =
    rw (join-append p ps (b ++ x), join-append p ps b) (simp append_assoc)

rooted-slash :
    (ps : List Str) (q : Str) (qs : List Str)
    → rooted ((ps ++ q ∷ qs) ++ [] ∷ []) ≡ rooted (ps ++ q ∷ qs) ++ slash ∷ []
rooted-slash [] q qs = ap (λ r. slash ∷ r) (join-append q qs [])
rooted-slash (p ∷ ps) q qs = ap (λ r. slash ∷ r) (join-append p (ps ++ q ∷ qs) [])

-- The two for any path below the directory.
pub rel-below :
    (ps rest : List Str)
    → rest ≢ []
    → All IsPlain ps
    → All IsPlain rest
    → rel (rooted ps) (rooted (ps ++ rest)) ≡ ok (join slash rest)
rel-below ps [] ne hp hr = absurd (ne refl)
rel-below ps (q ∷ qs) ne hp hr =
    rel-rooted ps q qs (rooted (ps ++ q ∷ qs)) (is_rooted-rooted _)
      (clean_parts-rooted (ps ++ q ∷ qs) (All-append IsPlain ps (q ∷ qs) hp hr)) hp hr

-- So it is for a path with a slash at its end.
pub rel-below_slash :
    (ps rest : List Str)
    → rest ≢ []
    → All IsPlain ps
    → All IsPlain rest
    → rel (rooted ps) (rooted ((ps ++ rest) ++ [] ∷ [])) ≡ ok (join slash rest)
rel-below_slash ps [] ne hp hr = absurd (ne refl)
rel-below_slash ps (q ∷ qs) ne hp hr =
    rel-rooted ps q qs (rooted ((ps ++ q ∷ qs) ++ [] ∷ [])) (is_rooted-rooted _)
      (rw (rooted-slash ps q qs)
        (clean_parts-slash (ps ++ q ∷ qs) (All-append IsPlain ps (q ∷ qs) hp hr)))
      hp hr

pub clean-below :
    (rest : List Str) → rest ≢ [] → All IsPlain rest → clean (join slash rest) ≡ join slash rest
clean-below [] ne h = absurd (ne refl)
clean-below (q ∷ qs) ne h = clean-join q qs h
