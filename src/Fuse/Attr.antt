-- ===== src/Fuse/Attr.antt =====
-- pkg/fuse/file.go: Attr, FuseAttr and Attr.Expand.
pub mod Owner
use gpgfs.Base.{
  ℕ, ◌+◌, ◌%◌, ◌^◌, ◌<◌, ◌≡◌, refl, ◌≢◌, ◌⊎◌, Bool, true, false, Option, none, some, [], ◌∷◌,
  Result, ok, err, panic, ◌>>=◌, wrapping, arith, if◌then◌else◌, Bool-cases, inl, inr,
}
use gpgfs.Std.Strings.{Str, same}
use gpgfs.Std.Strings.Laws.{same_iff}
use gpgfs.Std.Strconv.{parse_uint, parse_uint-lt}

-- `fuse.Attr` of go-fuse, with the embedded owner.
pub record FuseAttr : Type 0 where
  pub ino : ℕ
  pub size : ℕ
  pub blocks : ℕ
  pub atime : ℕ
  pub mtime : ℕ
  pub ctime : ℕ
  pub atimensec : ℕ
  pub mtimensec : ℕ
  pub ctimensec : ℕ
  pub mode : ℕ
  pub nlink : ℕ
  pub uid : ℕ
  pub gid : ℕ
  pub rdev : ℕ
  pub blksize : ℕ
  pub padding : ℕ

abbrev pub zero_attr : FuseAttr
zero_attr = record {
  ino = 0;
  size = 0;
  blocks = 0;
  atime = 0;
  mtime = 0;
  ctime = 0;
  atimensec = 0;
  mtimensec = 0;
  ctimensec = 0;
  mode = 0;
  nlink = 0;
  uid = 0;
  gid = 0;
  rdev = 0;
  blksize = 0;
  padding = 0;
}

-- The embedded pointer may be nil.
pub record Attr : Type 0 where
  pub fuse_attr : Option FuseAttr
  pub user : Str
  pub group : Str

-- `user.Lookup(name).Uid` and `user.LookupGroup(name).Gid`, from the system's databases.
pub record Users : Type 0 where
  pub lookup : Str → Result Str
  pub lookup_group : Str → Result Str

set_uid : Attr → ℕ → Result Attr
set_uid a id = elim a.fuse_attr [
  | none ↦ panic "invalid memory address or nil pointer dereference"
  | some f ↦ ok (record a { fuse_attr = some (record f { uid = id % 2 ^ 32 }) })
]

set_gid : Attr → ℕ → Result Attr
set_gid a id = elim a.fuse_attr [
  | none ↦ panic "invalid memory address or nil pointer dereference"
  | some f ↦ ok (record a { fuse_attr = some (record f { gid = id % 2 ^ 32 }) })
]

module _ (U : Users) where
  expand_user : Attr → Result Attr
  unfolding same set_uid
  expand_user a = if same a.user [] then ok a else do
    uid ← U.lookup a.user
    id ← wrapping "failed to parseint given uid %q" (uid ∷ []) (parse_uint uid 32)
    set_uid a id

  expand_group : Attr → Result Attr
  unfolding same set_gid
  expand_group a = if same a.group [] then ok a else do
    gid ← U.lookup_group a.group
    id ← wrapping "failed to parseint given gid %q" (gid ∷ []) (parse_uint gid 32)
    set_gid a id

  -- `(*Attr).Expand`
  unfoldable pub expand : Attr → Result Attr
  unfolding expand_user expand_group
  expand a = do a' ← expand_user a; expand_group a'

-- The id that a name stands for: that of the database, or the old one if no name is given.
abbrev pub Owns : (Str → Result Str) → Str → ℕ → ℕ → Type 0
Owns find name old id =
    ((name ≡ []) × (id ≡ old))
    ⊎ ((name ≢ []) × (text : Str) × (find name ≡ ok text) × (parse_uint text 32 ≡ ok id))
