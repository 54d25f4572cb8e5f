-- ===== src/Cli/Host.antt =====
-- The files and the standard streams as cli/cli.go uses them: os.Open, os.OpenFile, os.ReadFile,
-- io.ReadAll and the writes.
use gpgfs.Base.{
  ◌≡◌, refl, ◌≢◌, false, Option, none, some, [], ◌++◌, Result, ok, err, Error, Bool-cases, inl, inr,
  if◌then◌else◌,
}
use gpgfs.Std.Strings.{Str, codes, same}
use gpgfs.Std.Strings.Laws.{same_iff, same_refl}
use gpgfs.Fuse.Enclave.{Bytes}

pub record Host : Type 0 where
  pub files : Str → Option Bytes
  pub stdin : Bytes
  pub stdout : Bytes

-- What the system says of opening a file: the errors of one that cannot be read, or made.
pub record System : Type 0 where
  pub unreadable : Str → Error
  pub creatable : Str → Option Error

-- The name of the standard streams.
abbrev pub stream : Str
stream = codes "-"

unfoldable pub put : Str → Bytes → Host → Host
unfolding same
put name b h = record h { files = λ q. if same q name then some b else h.files q }

module _ (Y : System) where
  -- `os.ReadFile`
  unfoldable pub read_file : Host → Str → Result Bytes
  read_file h name = elim (h.files name) [ none ↦ err (Y.unreadable name) | some b ↦ ok b ]

  -- The choice between os.Stdin and `os.Open`.
  unfoldable pub open_input : Host → Str → Result (Unit {0})
  unfolding read_file same
  open_input h name =
      if same name stream
      then ok tt
      else elim (h.files name) [ none ↦ err (Y.unreadable name) | some b ↦ ok tt ]

  -- The choice between os.Stdout and `os.OpenFile` with O_TRUNC and O_CREATE: the file is empty
  -- afterwards.
  unfoldable pub open_output : Host → Str → Result Host
  unfolding put same
  open_output h name =
      if same name stream
      then ok h
      else elim (Y.creatable name) [ none ↦ ok (put name [] h) | some e ↦ err e ]

-- `ioutil.ReadAll`, of what the file holds when it is read.
unfoldable pub read_all : Host → Str → Bytes
unfolding same
read_all h name =
    if same name stream then h.stdin else elim (h.files name) [ none ↦ [] | some b ↦ b ]

unfoldable pub contents : Option Bytes → Bytes
contents none = []
contents (some b) = b

-- A write at the end of what was written.
unfoldable pub write_output : Str → Bytes → Host → Host
unfolding same put contents
write_output name b h =
    if same name stream
    then record h { stdout = h.stdout ++ b }
    else put name (contents (h.files name) ++ b) h

different : (p q : Str) → p ≢ q → same p q ≡ false
different p q ne = elim (Bool-cases (same p q)) [
  | inl e ↦ absurd (ne ((same_iff p q).0 e))
  | inr e ↦ e
]

pub put_self : (name : Str) (b : Bytes) (h : Host) → (put name b h).files name ≡ some b
unfolding put
put_self name b h = rw (same_refl name) refl

pub put_ne : (name q : Str) (b : Bytes) (h : Host) → q ≢ name → (put name b h).files q ≡ h.files q
unfolding put
put_ne name q b h ne = rw (different q name ne) refl

module _ (Y : System) where
  pub read_file_lem :
      (h : Host) (name : Str) (b : Bytes) → h.files name ≡ some b → read_file Y h name ≡ ok b
  unfolding read_file
  read_file_lem h name b e = rw (e, read_file) refl

  pub open_input_lem :
      (h : Host) (name : Str) (b : Bytes)
      → name ≢ stream
      → h.files name ≡ some b
      → open_input Y h name ≡ ok tt
  unfolding open_input
  open_input_lem h name b ne e = rw (different name stream ne, e) refl

  pub open_output_lem :
      (h : Host) (name : Str)
      → name ≢ stream
      → Y.creatable name ≡ none
      → open_output Y h name ≡ ok (put name [] h)
  unfolding open_output
  open_output_lem h name ne e = rw (different name stream ne, e) refl

pub read_all_lem :
    (h : Host) (name : Str) (b : Bytes)
    → name ≢ stream
    → h.files name ≡ some b
    → read_all h name ≡ b
unfolding read_all
read_all_lem h name b ne e = rw (different name stream ne, e) refl

-- Writing to a file that was just made empty.
pub write_output-put :
    (h : Host) (name : Str) (b : Bytes)
    → name ≢ stream
    → write_output name b (put name [] h) ≡ put name b (put name [] h)
unfolding write_output contents
write_output-put h name b ne = rw (different name stream ne, put_self name [] h) refl
