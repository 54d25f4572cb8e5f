-- ===== src/Fuse/Preload/Served.antt =====
-- `Preload` serves the text of a file of the source.
use gpgfs.Base.{
  ℕ, ◌+◌, ◌^◌, ◌<◌, ◌≡◌, ◌≢◌, ◌⊎◌, refl, none, some, List, [], ◌∷◌, ◌++◌, ok, true, All, inl, inr,
  sym, subst, ap, ◌∙◌, Option, Error, Bool-cases,
}
use gpgfs.Base.Int.{pos}
use gpgfs.Std.Strings.{Str, same, has_suffix}
use gpgfs.Std.Strings.Laws.{same_iff}
use gpgfs.Std.FilePath.Clean.{IsPlain, rooted}
use gpgfs.Std.WalkDir.{regular, directory, Entry, present, walk}
use gpgfs.Std.WalkDir.Visits.{HasFile}
use gpgfs.Std.WalkDir.Invariant.{IsStable, walk-stable}
use gpgfs.Fuse.Enclave.{Bytes, LockedBuffer, IsSealing, open_pointer}
use gpgfs.Fuse.File.{File, read_bytes}
use gpgfs.Fuse.Inodes.{IsInodeTree}
use gpgfs.Fuse.Preload.{
  World, Fuse, Node, leaf, Forest, Inode, State, inode_path, visit, preload, encrypted_suffix,
}
use gpgfs.Fuse.Preload.Kept.{Extends, visit-IsKept}
use gpgfs.Fuse.Preload.Paths.{encrypted_path}
use gpgfs.Fuse.Preload.Placed.{descend, descend-Extends, descend-childless, descend-eq-some}
use gpgfs.Fuse.Preload.Complete.{Decrypts, visit-IsPlacedAt, preload_lem, preload_complete}
use gpgfs.Fuse.Preload.Reading.{served, new_file-served}
use gpgfs.Fuse.Preload.Free.{IsApart, IsFree, mounted_names, visit-IsFree}

-- There is an inode at the names below the root, and a read of `len` bytes at `off` from the file
-- that it embeds returns the part of the text.
abbrev pub Serves : (W : World) → Forest W → Inode W → List Str → Bytes → ℕ → ℕ → Type 0
Serves W t root names text off len =
    (i : Inode W) × (descend W t root names ≡ some i)
    × (file : File W.enclaves) × (W.inodes.node t i ≡ some (leaf file))
    × (read_bytes W.enclaves file len (pos off) ≡ served text off len)

-- No other file of the tree, with the suffix, is mounted at these names or below them.
abbrev pub IsAlone : List Str → Str → Entry → List Str → Type 0
IsAlone source path tree names =
    (q : Str)
    → HasFile q (rooted source) tree
    → q ≢ path
    → has_suffix q encrypted_suffix ≡ true
    → (at : Str × Str) → inode_path (rooted source) q ≡ ok at
    → IsApart names (mounted_names at)

-- The root is there and has no child.
pub record IsBare (W : World) (t : Forest W) (root : Inode W) : Type 0 where
  pub embeds : Node W.enclaves
  pub there : W.inodes.node t root ≡ some embeds
  pub childless : (name : Str) → W.inodes.get_child t root name ≡ none

IsBare-ends :
    (W : World) (t : Forest W) (root i : Inode W) (p : List Str)
    → IsBare W t root
    → descend W t root p ≡ some i
    → p ≡ []
IsBare-ends W t root i [] B h = refl
IsBare-ends W t root i (m ∷ p) B h =
    let (j, e, _) = descend-eq-some W t root i m p h in
    let e' = sym (B.childless m) ∙ e in absurd (cc)

IsBare-IsFree :
    (W : World) (t : Forest W) (root : Inode W) (dirs : List Str) (base : Str)
    → IsBare W t root
    → IsFree W t root (dirs ++ base ∷ [])
IsBare-IsFree W t root dirs base B = (
  record {
    embeds = B.embeds;
    there = B.there;
    unique = λ p q i a b. IsBare-ends W t root i p B a ∙ sym (IsBare-ends W t root i q B b);
  },
  descend-childless W t root dirs base B.childless,
)

module _ (W : World) (L : IsInodeTree W.inodes) (root : Inode W) (key : LockedBuffer)
    (source dirs : List Str) (base : Str) (text : Bytes) (off len : ℕ) where
  abbrev path : Str
  path = encrypted_path source dirs base

  abbrev names : List Str
  names = dirs ++ base ∷ []

  Serves-Extends :
      (t t' : Forest W)
      → Extends W t t'
      → Serves W t root names text off len
      → Serves W t' root names text off len
  Serves-Extends t t' grown (i, found, file, node, reads) =
      (i, descend-Extends W t t' root i names grown found, file, grown.nodes i _ node, reads)

  -- Where nothing was, the callback mounts a file that is read as the text.
  visit-Serves :
      (s : State W)
      → IsSealing W.enclaves
      → All IsPlain source
      → All IsPlain dirs
      → IsPlain base
      → Decrypts W key path text
      → off + len < 2 ^ 63
      → descend W s.forest root names ≡ none
      → let (after, stop) = visit W (rooted source) root key path (some regular) none s in
        stop ≡ none → Serves W after.forest root names text off len
  visit-Serves s S hs hd hb d small free quiet =
      let (attr, _, (i, found, placed)) =
        visit-IsPlacedAt W L root key source dirs base hs hd hb text s d quiet in
      elim placed [
        | inl old ↦ let e = sym free ∙ old in absurd (cc)
        | inr (_, node) ↦ (i, found, _, node, new_file-served W.enclaves attr text off len S small)
      ]

  -- While `Preload` runs, the names are free, or the text is served at them.
  abbrev IsFreeOrServed : State W → Type 0
  IsFreeOrServed s = IsFree W s.forest root names ⊎ Serves W s.forest root names text off len

  -- What a file of the tree is to the one at the path: itself, or mounted apart from it.
  abbrev Fits : Str → Type 0
  Fits q =
      q ≢ path
      → has_suffix q encrypted_suffix ≡ true
      → (at : Str × Str) → inode_path (rooted source) q ≡ ok at
      → IsApart names (mounted_names at)

  visit_dir_stable :
      (p : Str) (x : Option Error) (s : State W)
      → IsFreeOrServed s
      → IsFreeOrServed (visit W (rooted source) root key p (some directory) x s).0
  unfolding visit
  visit_dir_stable p none s h = h
  visit_dir_stable p (some e) s h = h

  visit-IsStable :
      IsSealing W.enclaves
      → All IsPlain source
      → All IsPlain dirs
      → IsPlain base
      → Decrypts W key path text
      → off + len < 2 ^ 63
      → IsStable (visit W (rooted source) root key) IsFreeOrServed Fits
  unfolding visit
  visit-IsStable S hs hd hb d small = record {
    at_file = λ q s fits quiet h. elim h [
      | inr served ↦ inr (
          Serves-Extends s.forest _
            ((visit-IsKept W L (rooted source) root key).step q (some regular) none s) served)
      | inl (T, free) ↦ elim (Bool-cases (same q path)) [
        | inl e ↦
            let at : q ≡ path = (same_iff q path).0 e in
            inr (rw at (visit-Serves s S hs hd hb d small free (rw at at quiet)))
        | inr e ↦ inl (
            visit-IsFree W L root names (rooted source) key q s (T, free)
              (fits λ at. let e' = (same_iff q path).1 at in absurd (cc)))
      ]
    ];
    at_special = λ p s h. h;
    at_dir = visit_dir_stable;
  }

-- If the key opens and `Preload` ends with no error, from a root with no child, then every file
-- `base.gpg` in a directory of the walked tree, of plain names below a rooted source, is served as
-- what it decrypts to: there is an inode at the same names below the mount point, and a read of it
-- returns the part of that text, or panics: if the text is empty, or the read starts behind its
-- end. No other file of the tree is mounted at these names or below them; the offset and the length
-- add up to less than 2^63; the inode tree and memguard behave as documented.
pub preload-Serves :
    (W : World) (L : IsInodeTree W.inodes) (f : Fuse W.enclaves) (root : Inode W) (tree : Entry)
    (s : State W) (key : LockedBuffer) (source dirs : List Str) (base : Str) (text : Bytes)
    (off len : ℕ)
    → IsSealing W.enclaves
    → All IsPlain source
    → All IsPlain dirs
    → IsPlain base
    → f.source ≡ rooted source
    → open_pointer W.enclaves f.key ≡ ok key
    → IsBare W s.forest root
    → HasFile (encrypted_path source dirs base) (rooted source) tree
    → IsAlone source (encrypted_path source dirs base) tree (dirs ++ base ∷ [])
    → Decrypts W key (encrypted_path source dirs base) text
    → (preload W f root (present tree) s).1 ≡ none
    → off + len < 2 ^ 63
    → Serves W (preload W f root (present tree) s).0.forest root (dirs ++ base ∷ []) text off len
preload-Serves W L f root tree s key source dirs base text off len S hs hd hb at opened bare there
      alone d quiet small =
    let names = dirs ++ base ∷ [] in
    let e' : preload W f root (present tree) s
        ≡ walk (visit W (rooted source) root key) (rooted source) (present tree) s =
      subst
        (λ src.
          preload W f root (present tree) s ≡ walk (visit W src root key) src (present tree) s)
        at (preload_lem W f root (present tree) s key opened) in
    let ends =
      walk-stable (visit W (rooted source) root key)
        (λ t. IsFree W t.forest root names ⊎ Serves W t.forest root names text off len) _
        (visit-IsStable W L root key source dirs base text off len S hs hd hb d small)
        (rooted source) tree s alone (sym (ap (λ r. r.1) e') ∙ quiet)
        (inl (IsBare-IsFree W s.forest root dirs base bare)) in
    elim (subst (λ r. IsFree W r.0.forest root names ⊎ Serves W r.0.forest root names text off len)
      (sym e') ends) [
        | inr served ↦ served
        | inl (_, free) ↦
            let (_, _, i, found) =
              preload_complete W L f root tree s key source dirs base text hs hd hb at opened quiet
                there d in
            let gone = sym free ∙ found in absurd (cc)
      ]
