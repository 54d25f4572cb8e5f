-- ===== src/Fuse/Attr/Owner.antt =====
-- Whom `Expand` makes the owner.
use gpgfs.Base.{
  ℕ, ◌≡◌, refl, some, [], ok, arith, Bool-cases, inl, inr, subst, >>=-eq-ok, wrapping-eq-ok,
}
use gpgfs.Std.Strings.{same}
use gpgfs.Std.Strings.Laws.{same_iff}
use gpgfs.Std.Strconv.{parse_uint, parse_uint-lt}
use gpgfs.Fuse.Attr.{FuseAttr, Attr, Users, expand_user, expand_group, expand, Owns}

module _ (U : Users) (a : Attr) (f : FuseAttr) (held : a.fuse_attr ≡ some f) where
  expand_user-Owns :
      (a' : Attr)
      → expand_user U a ≡ ok a'
      → (id : ℕ) × Owns U.lookup a.user f.uid id
        × (a' ≡ record a { fuse_attr = some (record f { uid = id }) })
  unfolding expand_user
  expand_user-Owns a' e = elim (Bool-cases (same a.user [])) [
    | inl h ↦ (f.uid, inl ((same_iff a.user []).0 h, refl), ground arith)
    | inr h ↦
        let (text, found, e1) = >>=-eq-ok _ _ (rw h at e) in
        let (id, parsed, e2) = >>=-eq-ok _ _ e1 in
        let p = wrapping-eq-ok (parse_uint text 32) _ _ id parsed in
        (
          id,
          inr ((λ empty. let full = (same_iff a.user []).1 empty in cc), text, found, p),
          ground (arith, parse_uint-lt text 32 id p),
        )
  ]

module _ (U : Users) (a : Attr) (f : FuseAttr) (held : a.fuse_attr ≡ some f) where
  expand_group-Owns :
      (a' : Attr)
      → expand_group U a ≡ ok a'
      → (id : ℕ) × Owns U.lookup_group a.group f.gid id
        × (a' ≡ record a { fuse_attr = some (record f { gid = id }) })
  unfolding expand_group
  expand_group-Owns a' e = elim (Bool-cases (same a.group [])) [
    | inl h ↦ (f.gid, inl ((same_iff a.group []).0 h, refl), ground arith)
    | inr h ↦
        let (text, found, e1) = >>=-eq-ok _ _ (rw h at e) in
        let (id, parsed, e2) = >>=-eq-ok _ _ e1 in
        let p = wrapping-eq-ok (parse_uint text 32) _ _ id parsed in
        (
          id,
          inr ((λ empty. let full = (same_iff a.group []).1 empty in cc), text, found, p),
          ground (arith, parse_uint-lt text 32 id p),
        )
  ]

-- If `Expand` returns for an attribute set that is there, the owner is the one that the system's
-- databases give for a name that is not empty, and the old one where the name is empty, and nothing
-- else has changed.
pub expand-Owns :
    (U : Users) (a a' : Attr) (f : FuseAttr)
    → a.fuse_attr ≡ some f
    → expand U a ≡ ok a'
    → (uid gid : ℕ) × Owns U.lookup a.user f.uid uid
      × Owns U.lookup_group a.group f.gid gid
      × (a' ≡ record a { fuse_attr = some (record f { uid = uid; gid = gid }) })
unfolding expand
expand-Owns U a a' f held e =
    let (b, e1, e2) = >>=-eq-ok _ _ e in
    let (uid, owns, eb) = expand_user-Owns U a f held b e1 in
    let (gid, owns', ea) =
      expand_group-Owns U _ (record f { uid = uid }) refl a'
        (subst (λ b. expand_group U b ≡ ok a') eb e2) in
    (uid, gid, owns, owns', ea)
