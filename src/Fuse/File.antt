-- ===== src/Fuse/File.antt =====
-- pkg/fuse/file.go: File and its FUSE operations, readResult.
pub mod Reads
use gpgfs.Base.{
  ℕ, ◌-◌, ◌≡◌, refl, Bool, true, false, ◌&&◌, Option, none, some, List, [], Result, ok, err, panic,
  ◌>>=◌, leb, if◌then◌else◌, length, take, drop,
}
use gpgfs.Base.Int.{ℤ, pos, negsuc, leb_ℤ, add64}
use gpgfs.Fuse.Enclave.{Bytes, LockedBuffer, locked, destroy, Enclaves, open_pointer}
use gpgfs.Fuse.Attr.{FuseAttr, Attr}

pub record File (G : Enclaves) : Type 0 where
  pub attr : Attr
  pub content : Option G.Enclave

abbrev pub Errno : Type 0
Errno = ℕ

abbrev pub eio : Errno
eio = 5

abbrev pub enosys : Errno
enosys = 38

-- `fs.OK`
abbrev pub no_error : Errno
no_error = 0

abbrev pub fopen_keep_cache : ℕ
fopen_keep_cache = 2

pub record ReadResult : Type 0 where
  pub buffer : LockedBuffer
  pub offset : ℤ
  pub end : ℤ

unfoldable pub new_read_result : LockedBuffer → ℤ → ℤ → ReadResult
new_read_result buffer offset end = record { buffer = buffer; offset = offset; end = end }

-- `(*readResult).Done`
unfoldable pub done : ReadResult → ReadResult
done r = record r { buffer = destroy r.buffer }

-- `b[lo:hi]` of a slice whose capacity is its length.
unfoldable pub slice : Bytes → ℤ → ℤ → Result Bytes
slice b (pos lo) (pos hi) =
    if leb lo hi && leb hi (length b)
    then ok (take (hi - lo) (drop lo b))
    else panic "slice bounds out of range"
slice b _ _ = panic "slice bounds out of range"

-- `(*readResult).Bytes`
unfoldable pub bytes_of : ReadResult → Result Bytes
unfolding slice
bytes_of r = slice r.buffer.bytes r.offset r.end

-- What the library sends to the kernel for a result, or for its absence.
reply : Option ReadResult → Result Bytes
unfolding bytes_of
reply none = ok []
reply (some r) = bytes_of r

-- Where a read of `len` bytes at `off` ends in a buffer of `size` bytes.
unfoldable pub read_end : ℤ → ℕ → ℕ → ℤ
unfolding add64
read_end off len size =
    let end = add64 off (pos len) in if leb_ℤ end (pos size) then end else pos size

module _ (G : Enclaves) where
  unfoldable pub new_file : Attr → Option G.Enclave → File G
  new_file attr content = record { attr = attr; content = content }

  -- `(*File).Open`: no handle, the flags, and the error number.
  unfoldable pub open_file : File G → ℕ × Errno
  open_file f = (fopen_keep_cache, no_error)

  unfoldable pub write : File G → Bytes → ℤ → ℕ × Errno
  write f text off = (0, enosys)

  unfoldable pub flush : File G → Errno
  flush f = 0

  unfoldable pub setattr : File G → FuseAttr → FuseAttr × Errno
  setattr f out = (out, enosys)

  -- `(*File).Read` with `len(dest)`; an enclave that cannot be opened is an input/output error.
  unfoldable pub read : File G → ℕ → ℤ → Result (Option ReadResult × Errno)
  unfolding read_end new_read_result
  read f len off = elim (open_pointer G f.content) [
    | ok buf ↦ ok (some (new_read_result buf off (read_end off len (length buf.bytes))), no_error)
    | err e ↦ ok (none, eio)
    | panic m ↦ panic m
  ]

  -- `*f.attr.FuseAttr` with the size set.
  sized : Option FuseAttr → ℕ → Result FuseAttr
  sized none size = panic "invalid memory address or nil pointer dereference"
  sized (some a) size = ok (record a { size = size })

  -- `(*File).Getattr`: what `out.Attr` holds afterwards, and the error number.
  unfoldable pub getattr : File G → FuseAttr → Result (FuseAttr × Errno)
  unfolding sized
  getattr f out = elim (open_pointer G f.content) [
    | ok buf ↦ do a ← sized f.attr.fuse_attr (length buf.bytes); ok (a, no_error)
    | err e ↦ ok (out, eio)
    | panic m ↦ panic m
  ]

  -- What the caller of `Read` hands to the kernel: the bytes of the result.
  unfoldable pub read_bytes : File G → ℕ → ℤ → Result Bytes
  unfolding read reply
  read_bytes f len off = do (r, errno) ← read f len off; reply r
