-- ===== src/Fuse/File/Reads.antt =====
-- What `Read` and `Getattr` return for a file whose enclave opens.
use gpgfs.Base.{
  ◌⊎◌, ◌↔◌, ◌≢◌, sym, ◌>>=◌, ℕ, ◌+◌, ◌-◌, ◌^◌, ◌≤◌, ◌<◌, ◌≡◌, refl, some, [], String, ◌++◌, ok,
  panic, leb, length, take, drop, arith, take_all, drop-drop, take-append-take, length-drop,
  Bool-cases, inl, inr, ◌∙◌, ap, min,
}
use gpgfs.Base.Int.{ℤ, pos, add64-pos, add64-over}
use gpgfs.Fuse.Enclave.{Bytes, locked, Enclaves, IsSealing, open_pointer}
use gpgfs.Fuse.Attr.{FuseAttr, Attr}
use gpgfs.Fuse.File.{File, no_error, new_file, slice, read_end, read, read_bytes, getattr}

-- The part of a text that starts at `off` and has at most `len` bytes.
abbrev pub window : Bytes → ℕ → ℕ → Bytes
window text off len = take len (drop off text)

-- The file's enclave opens to this text.
abbrev pub Holds : (G : Enclaves) → File G → Bytes → Type 0
Holds G f text = open_pointer G f.content ≡ ok (locked text)

slice_lem :
    (b : Bytes) (lo hi : ℕ)
    → lo ≤ hi
    → hi ≤ length b
    → slice b (pos lo) (pos hi) ≡ ok (take (hi - lo) (drop lo b))
unfolding slice
slice_lem b lo hi h k = ground arith

read_end_lem :
    (off len size : ℕ)
    → off + len < 2 ^ 63
    → read_end (pos off) len size ≡ pos (min (off + len) size)
unfolding read_end
read_end_lem off len size small = rw (add64-pos off len small) (ground arith)

take-drop-min :
    (text : Bytes) (off len : ℕ)
    → off ≤ length text
    → take (min (off + len) (length text) - off) (drop off text) ≡ window text off len
take-drop-min text off len h = elim (Bool-cases (leb (off + len) (length text))) [
  | inl fits ↦ let e : min (off + len) (length text) - off ≡ len = ground arith in rw e
  | inr past ↦
      let e : min (off + len) (length text) - off ≡ length text - off = ground arith in
      rw e (
        take_all (length text - off) (drop off text) (omega (arith, length-drop off text))
        ∙ sym (take_all len (drop off text) (ground (arith, length-drop off text))))
]

slice_panic :
    (b : Bytes) (lo hi : ℕ)
    → hi < lo
    → slice b (pos lo) (pos hi) ≡ panic "slice bounds out of range"
unfolding slice
slice_panic b lo hi h = ground arith

lt-or-le : (a b : ℕ) → (a < b) ⊎ (b ≤ a)
lt-or-le a b = ground arith

ok-ne-panic : (b : Bytes) (m : String) → ok b ≢ panic m
ok-ne-panic b m e = cc

window-append :
    (text : Bytes) (off n m : ℕ)
    → window text off n ++ window text (off + n) m ≡ window text off (n + m)
window-append text off n m = rw (drop-drop off n text) (take-append-take n m (drop off text))

module _ (G : Enclaves) (f : File G) (text : Bytes) (held : Holds G f text) where
  read_bytes_lem :
      (len : ℕ) (off : ℤ) → read_bytes G f len off ≡ slice text off (read_end off len (length text))
  unfolding read_bytes
  read_bytes_lem len off = rw (held, read) refl

  -- For a file whose enclave opens to a text, a read that starts inside the text, or at its end,
  -- returns the bytes from there on, at most as many as were asked for, cut at the text's end. The
  -- offset and the length add up to less than 2^63.
  pub read_bytes-window :
      (off len : ℕ)
      → off ≤ length text
      → off + len < 2 ^ 63
      → read_bytes G f len (pos off) ≡ ok (window text off len)
  read_bytes-window off len h small =
      read_bytes_lem len (pos off)
      ∙ rw (read_end_lem off len (length text) small) (
          slice_lem text off (min (off + len) (length text)) (omega arith) (omega arith)
          ∙ ap ok (take-drop-min text off len h))

  -- For a file whose enclave opens to a text, a read that starts behind the end of the text
  -- panics: the slice is out of range. The offset and the length add up to less than 2^63.
  pub read_bytes-past_end :
      (off len : ℕ)
      → length text < off
      → off + len < 2 ^ 63
      → read_bytes G f len (pos off) ≡ panic "slice bounds out of range"
  read_bytes-past_end off len h small =
      read_bytes_lem len (pos off)
      ∙ rw (read_end_lem off len (length text) small) (slice_panic text off _ (omega arith))

  read_bytes-overflow :
      (off len : ℕ)
      → off < 2 ^ 63
      → len < 2 ^ 63
      → 2 ^ 63 ≤ off + len
      → read_bytes G f len (pos off) ≡ panic "slice bounds out of range"
  unfolding read_end slice
  read_bytes-overflow off len h k over =
      read_bytes_lem len (pos off) ∙ rw (add64-over off len h k over, read_end) refl

  -- For a file whose enclave opens to a text, with an offset and a length below 2^63, a read panics
  -- exactly if it starts behind the end of the text, or if the offset and the length add up to
  -- 2^63 or more.
  pub read_bytes-bounds :
      (off len : ℕ)
      → off < 2 ^ 63
      → len < 2 ^ 63
      → ((m : String) × (read_bytes G f len (pos off) ≡ panic m))
        ↔ ((length text < off) ⊎ (2 ^ 63 ≤ off + len))
  read_bytes-bounds off len h k = elim (lt-or-le (off + len) (2 ^ 63)) [
    | inl small ↦ elim (lt-or-le (length text) off) [
      | inl past ↦ (λ p. inl past, λ q. (_, read_bytes-past_end off len past small))
      | inr inside ↦ (
        λ p. absurd (ok-ne-panic _ _ (sym (read_bytes-window off len inside small) ∙ p.1)),
        λ q. elim q [ inl past ↦ absurd (omega arith) | inr over ↦ absurd (omega arith) ],
      )
    ]
    | inr over ↦ (λ p. inr over, λ q. (_, read_bytes-overflow off len h k over))
  ]

  -- For a file whose enclave opens to a text, two reads in a row, the first of them inside the
  -- text, return what one read of both lengths returns. The offset and the lengths add up to less
  -- than 2^63.
  pub read_bytes-append :
      (off n m : ℕ)
      → off + n ≤ length text
      → off + n + m < 2 ^ 63
      → (do a ← read_bytes G f n (pos off); b ← read_bytes G f m (pos (off + n)); ok (a ++ b))
        ≡ read_bytes G f (n + m) (pos off)
  read_bytes-append off n m h small =
      rw
        (
          read_bytes-window off n (omega arith) (omega arith),
          read_bytes-window (off + n) m h small,
          read_bytes-window off (n + m) (omega arith) (omega arith),
        )
        (ap ok (window-append text off n m))

  getattr_lem :
      (a out : FuseAttr)
      → f.attr.fuse_attr ≡ some a
      → getattr G f out ≡ ok (record a { size = length text }, no_error)
  unfolding getattr
  getattr_lem a out e = rw (held, getattr, e) refl

  -- For a file with attributes whose enclave opens to a text, of fewer than 2^63 - 1 bytes, `Getattr`
  -- reports the length of the text as the size, whatever size the attributes hold, and keeps all
  -- else of them; a read of that many bytes at the start returns the whole text, and a read of one
  -- more returns no more.
  pub getattr-read_bytes :
      (a out : FuseAttr)
      → f.attr.fuse_attr ≡ some a
      → length text + 1 < 2 ^ 63
      → (getattr G f out ≡ ok (record a { size = length text }, no_error))
        × (read_bytes G f (length text) (pos 0) ≡ ok text)
        × (read_bytes G f (length text + 1) (pos 0) ≡ ok text)
  getattr-read_bytes a out e small = (
    getattr_lem a out e,
    read_bytes-window 0 (length text) (omega arith) (omega arith)
        ∙ ap ok (take_all (length text) text (omega arith)),
    read_bytes-window 0 (length text + 1) (omega arith) (omega arith)
        ∙ ap ok (take_all (length text + 1) text (omega arith)),
  )

-- What `Read` does with an enclave that is nil.
pub nil_read :
    (G : Enclaves) (attr : Attr) (len : ℕ) (off : ℤ)
    → IsSealing G
    → read_bytes G (new_file G attr (G.new_enclave [])) len off
      ≡ panic "invalid memory address or nil pointer dereference"
unfolding read_bytes read new_file open_pointer
nil_read G attr len off sealing = rw sealing.new_enclave-nil refl

-- A file whose text is empty has a nil enclave, as memguard documents it, so that reading it, and
-- asking for its attributes, panics.
pub empty_file_panics :
    (G : Enclaves) (attr : Attr) (out : FuseAttr) (len : ℕ) (off : ℤ)
    → IsSealing G
    → let f = new_file G attr (G.new_enclave []) in
      let nil : String = "invalid memory address or nil pointer dereference" in
      (read_bytes G f len off ≡ panic nil) × (getattr G f out ≡ panic nil)
unfolding read_bytes read getattr new_file open_pointer
empty_file_panics G attr out len off sealing = rw sealing.new_enclave-nil (refl, refl)
