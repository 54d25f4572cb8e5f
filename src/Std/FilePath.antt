-- ===== src/Std/FilePath.antt =====
-- Go's package path/filepath on Unix: Clean, Join, Rel, Split. A path is cut at its slashes; the
-- package's byte loops are written over the resulting parts.
pub mod Clean
pub mod Relative
use mathlib.Core.List.{reverse}
use gpgfs.Base.{
  ℕ, Bool, true, false, not, ◌||◌, List, [], ◌∷◌, ◌++◌, ◌==◌, if◌then◌else◌, Result, ok, err, new,
  map,
}
use gpgfs.Std.Strings.{Str, same, split, join}

abbrev pub slash : ℕ
slash = b'/'

abbrev pub dot : Str
dot = b'.' ∷ []

abbrev pub dot_dot : Str
dot_dot = b'.' ∷ b'.' ∷ []

-- A `..` takes the last kept part away, if there is one to take.
unfoldable pub up : Bool → List Str → List Str
unfolding same
up true [] = []
up false [] = dot_dot ∷ []
up rooted (k ∷ ks) = if same k dot_dot then dot_dot ∷ k ∷ ks else ks

-- One part of the path in `Clean`; the parts kept so far have the last one at the head.
unfoldable pub push_part : Bool → List Str → Str → List Str
unfolding same up
push_part rooted kept part =
    if same part [] || same part dot
    then kept
    else if same part dot_dot
    then up rooted kept
    else part ∷ kept

unfoldable pub push_parts : Bool → List Str → List Str → List Str
push_parts rooted kept [] = kept
push_parts rooted kept (p ∷ ps) = push_parts rooted (push_part rooted kept p) ps

unfoldable pub is_rooted : Str → Bool
is_rooted [] = false
is_rooted (c ∷ _) = c == slash

-- The parts of the cleaned path.
unfoldable pub clean_parts : Str → List Str
unfolding push_parts push_part is_rooted split
clean_parts path = reverse (push_parts (is_rooted path) [] (split slash path))

unfoldable pub render : Bool → List Str → Str
unfolding join
render true parts = slash ∷ join slash parts
render false [] = dot
render false (p ∷ ps) = join slash (p ∷ ps)

-- `filepath.Clean`
unfoldable pub clean : Str → Str
unfolding render clean_parts
clean path = render (is_rooted path) (clean_parts path)

-- `filepath.Join(dir, name)` for two arguments.
unfoldable pub join_path : Str → Str → Str
unfolding clean
join_path [] [] = []
join_path [] (c ∷ name) = clean (c ∷ name)
join_path (c ∷ dir) [] = clean (c ∷ dir)
join_path (c ∷ dir) (d ∷ name) = clean ((c ∷ dir) ++ slash ∷ d ∷ name)

-- The parts of the base and of the target behind their first differing element.
unfoldable pub diverge : List Str → List Str → List Str × List Str
unfolding same
diverge (b ∷ bs) (t ∷ ts) = let rest = diverge bs ts in if same b t then rest else (b ∷ bs, t ∷ ts)
diverge bs ts = (bs, ts)

starts_with_up : List Str → Bool
starts_with_up [] = false
starts_with_up (p ∷ _) = same p dot_dot

both : Bool → Bool → Bool
both true r = r
both false r = not r

-- `filepath.Rel`
unfoldable pub rel : Str → Str → Result Str
unfolding clean diverge starts_with_up same both
rel base targ =
    let b = clean_parts base in
    let t = clean_parts targ in
    let (b', t') = diverge b t in
    if same (clean base) (clean targ)
    then ok dot
    else if not (both (is_rooted base) (is_rooted targ)) || starts_with_up b'
    then err (new "Rel: can't make %s relative to %s" (targ ∷ base ∷ []))
    else ok (join slash (map (λ _. dot_dot) b' ++ t'))

cut : ℕ → Str → Str → Str × Str
cut c [] b = ([], c ∷ b)
cut c (e ∷ d) b = (c ∷ e ∷ d, b)

-- `filepath.Split`: the directory with its last slash, and the name behind it.
unfoldable pub split_path : Str → Str × Str
unfolding cut
split_path [] = ([], [])
split_path (c ∷ s) = let (d, b) = split_path s in if c == slash then (c ∷ d, b) else cut c d b
