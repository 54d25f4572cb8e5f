-- ===== src/Fuse/Preload/Reading.antt =====
-- What the files that Preload has mounted return when they are read.
use gpgfs.Base.{
  Bool-cases, ℕ, ◌+◌, ◌^◌, ◌<◌, ◌≡◌, ◌≢◌, ap, ◌∙◌, true, some, Result, ok, panic, [], ◌∷◌, inl, inr,
  leb, if◌then◌else◌, length, arith,
}
use gpgfs.Base.Int.{pos}
use gpgfs.Std.Strings.{Str, has_suffix}
use gpgfs.Std.WalkDir.{Root}
use gpgfs.Fuse.Enclave.{Bytes, LockedBuffer, locked, Enclaves, IsSealing, open_pointer}
use gpgfs.Fuse.Attr.{Attr}
use gpgfs.Fuse.File.{File, new_file, read_bytes}
use gpgfs.Fuse.File.Reads.{window, read_bytes-window, read_bytes-past_end, nil_read}
use gpgfs.Fuse.Inodes.{IsInodeTree}
use gpgfs.Fuse.Preload.{World, Fuse, leaf, Inode, State, preload, encrypted_suffix}
use gpgfs.Fuse.Preload.Complete.{Decrypts}
use gpgfs.Fuse.Preload.Origin.{preload-adds}

-- What a read of `len` bytes at `off` returns for a text: its part from there on. A read of an
-- empty text, or behind the end of a text, panics.
abbrev pub served : Bytes → ℕ → ℕ → Result Bytes
served [] off len = panic "invalid memory address or nil pointer dereference"
served (b ∷ bs) off len =
    if leb off (length (b ∷ bs))
    then ok (window (b ∷ bs) off len)
    else panic "slice bounds out of range"

sealed_opens :
    (G : Enclaves) (attr : Attr) (b : ℕ) (bs : Bytes)
    → IsSealing G
    → open_pointer G (new_file G attr (G.new_enclave (b ∷ bs))).content ≡ ok (locked (b ∷ bs))
unfolding open_pointer new_file
sealed_opens G attr b bs S = let (e, made, opens) = S.new_enclave-cons b bs in rw made opens

pub new_file-served :
    (G : Enclaves) (attr : Attr) (plain : Bytes) (off len : ℕ)
    → IsSealing G
    → off + len < 2 ^ 63
    → read_bytes G (new_file G attr (G.new_enclave plain)) len (pos off) ≡ served plain off len
new_file-served G attr [] off len S small = nil_read G attr len (pos off) S
new_file-served G attr (b ∷ bs) off len S small =
    let file = new_file G attr (G.new_enclave (b ∷ bs)) in
    let held : open_pointer G file.content ≡ ok (locked (b ∷ bs)) = sealed_opens G attr b bs S in
    elim (Bool-cases (leb off (length (b ∷ bs)))) [
      | inl inside ↦ rw inside (read_bytes-window G file (b ∷ bs) held off len (ground arith) small)
      | inr past ↦ rw past (read_bytes-past_end G file (b ∷ bs) held off len (ground arith) small)
    ]

-- If the key opens, then however `Preload` ends, a file of the inode tree that was not there before
-- stands for a path with the suffix `.gpg`, and a read of it returns the part of the text that the
-- path decrypts to, or panics: if the text is empty, or the read starts behind its end. The offset
-- and the length add up to less than 2^63; the inode tree and memguard behave as documented.
pub preload-read_bytes :
    (W : World) (L : IsInodeTree W.inodes) (f : Fuse W.enclaves) (root : Inode W) (tree : Root)
    (s : State W) (key : LockedBuffer) (i : Inode W) (file : File W.enclaves) (off len : ℕ)
    → IsSealing W.enclaves
    → open_pointer W.enclaves f.key ≡ ok key
    → W.inodes.node (preload W f root tree s).0.forest i ≡ some (leaf file)
    → W.inodes.node s.forest i ≢ some (leaf file)
    → off + len < 2 ^ 63
    → (path : Str) × (plain : Bytes) × (has_suffix path encrypted_suffix ≡ true)
      × Decrypts W key path plain
      × (read_bytes W.enclaves file len (pos off) ≡ served plain off len)
preload-read_bytes W L f root tree s key i file off len S opened mounted fresh small =
    elim (preload-adds W L f root tree s key opened i file mounted) [
      | inl old ↦ absurd (fresh old)
      | inr d ↦ (
        d.path,
        d.plain,
        d.suffixed,
        d.decrypts,
        ap (λ x. read_bytes W.enclaves x len (pos off)) d.made
            ∙ new_file-served W.enclaves d.attr d.plain off len S small,
      )
    ]
