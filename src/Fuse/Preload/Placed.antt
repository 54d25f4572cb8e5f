-- ===== src/Fuse/Preload/Placed.antt =====
-- What `Preload` does with one decrypted file.
use mathlib.Core.Option.{some-injective}
use gpgfs.Base.{
  ◌≡◌, ◌≢◌, ◌⊎◌, refl, true, false, Option, none, some, List, [], ◌∷◌, ◌++◌, inl, inr, Option-cases,
  All, arith, sym, ◌∙◌, subst,
}
use gpgfs.Std.Strings.{Str}
use gpgfs.Fuse.Enclave.{Bytes}
use gpgfs.Fuse.Attr.{Attr}
use gpgfs.Fuse.File.{File, new_file}
use gpgfs.Fuse.Inodes.{IsInodeTree}
use gpgfs.Fuse.Preload.{World, folder, leaf, Forest, Inode, s_ifdir, enter, enter_all, add_file}
use gpgfs.Fuse.Preload.Kept.{Extends, enter_all-Extends, add_file-Extends}

module _ (W : World) where
  -- The inode at a path of names below an inode, by `GetChild`.
  unfoldable pub descend : Forest W → Inode W → List Str → Option (Inode W)
  descend t i [] = some i
  descend t i (c ∷ cs) = elim (W.inodes.get_child t i c) [ none ↦ none | some j ↦ descend t j cs ]

  pub descend-cons :
      (t : Forest W) (i j : Inode W) (c : Str) (cs : List Str)
      → W.inodes.get_child t i c ≡ some j
      → descend t i (c ∷ cs) ≡ descend t j cs
  unfolding descend
  descend-cons t i j c cs e = rw (e, descend) refl

  descend-none :
      (t : Forest W) (i : Inode W) (c : Str) (cs : List Str)
      → W.inodes.get_child t i c ≡ none
      → descend t i (c ∷ cs) ≡ none
  unfolding descend
  descend-none t i c cs e = rw (e, descend) refl

  pub descend-eq-some :
      (t : Forest W) (i d : Inode W) (c : Str) (cs : List Str)
      → descend t i (c ∷ cs) ≡ some d
      → (j : Inode W) × (W.inodes.get_child t i c ≡ some j) × (descend t j cs ≡ some d)
  descend-eq-some t i d c cs h = elim (Option-cases (W.inodes.get_child t i c)) [
    | inl e ↦ let e' = sym (descend-none t i c cs e) ∙ h in absurd (cc)
    | inr (j, e) ↦ (j, e, sym (descend-cons t i j c cs e) ∙ h)
  ]

  -- Growing the tree keeps the paths.
  pub descend-Extends :
      (t t' : Forest W) (i d : Inode W) (cs : List Str)
      → Extends W t t'
      → descend t i cs ≡ some d
      → descend t' i cs ≡ some d
  descend-Extends t t' i d [] x h = unfold descend in h
  descend-Extends t t' i d (c ∷ cs) x h =
      let (j, e, h') = descend-eq-some t i d c cs h in
      descend-cons t' i j c cs (x.children i c j e) ∙ descend-Extends t t' j d cs x h'

  descend-one :
      (t : Forest W) (i : Inode W) (b : Str) → descend t i (b ∷ []) ≡ W.inodes.get_child t i b
  unfolding descend
  descend-one t i b = ground arith

  pub descend-append :
      (t : Forest W) (i j : Inode W) (cs : List Str) (b : Str)
      → descend t i cs ≡ some j
      → descend t i (cs ++ b ∷ []) ≡ W.inodes.get_child t j b
  descend-append t i j [] b h =
      let e : i ≡ j = unfold descend in some-injective i j h in rw e (descend-one t j b)
  descend-append t i j (c ∷ cs) b h =
      let (k, e, h') = descend-eq-some t i j c cs h in
      descend-cons t i k c (cs ++ b ∷ []) e ∙ descend-append t k j cs b h'

  -- Below an inode with no child there is nothing.
  pub descend-childless :
      (t : Forest W) (i : Inode W) (cs : List Str) (b : Str)
      → ((name : Str) → W.inodes.get_child t i name ≡ none)
      → descend t i (cs ++ b ∷ []) ≡ none
  descend-childless t i [] b h = descend-none t i b [] (h b)
  descend-childless t i (c ∷ cs) b h = descend-none t i c (cs ++ b ∷ []) (h c)

  -- After the file is added there is an inode at its path: the one that was there before, or else
  -- a new one that embeds the file.
  abbrev pub IsPlacedAt : Forest W → Forest W → Inode W → List Str → File W.enclaves → Type 0
  IsPlacedAt before after root names file =
      (i : Inode W) × (descend after root names ≡ some i)
      × ((descend before root names ≡ some i)
          ⊎ ((descend before root names ≡ none) × (W.inodes.node after i ≡ some (leaf file))))

module _ (W : World) (L : IsInodeTree W.inodes) where
  -- The loop's body goes to the child of the name, which is there afterwards.
  pub enter-get_child :
      (t : Forest W) (p : Inode W) (c : Str)
      → c ≢ []
      → let (u, q) = enter W (t, p) c in W.inodes.get_child u p c ≡ some q
  unfolding enter
  enter-get_child t p [] ne = absurd (ne refl)
  enter-get_child t p (c ∷ cs) ne = elim (Option-cases (W.inodes.get_child t p (c ∷ cs))) [
    | inl e ↦
        rw (e, enter)
          (L.get_child-add_child _ p (c ∷ cs) _ true
            (L.get_child-new t p folder s_ifdir p (c ∷ cs) ∙ e))
    | inr (q, e) ↦ rw (e, enter) e
  ]

  -- What it finds there was there, or is a new directory with no child.
  enter-old :
      (t : Forest W) (p : Inode W) (c : Str)
      → c ≢ []
      → let (u, q) = enter W (t, p) c in
        ((u ≡ t) × (W.inodes.get_child t p c ≡ some q))
        ⊎ ((name : Str) → W.inodes.get_child u q name ≡ none)
  unfolding enter
  enter-old t p [] ne = absurd (ne refl)
  enter-old t p (c ∷ cs) ne = elim (Option-cases (W.inodes.get_child t p (c ∷ cs))) [
    | inl e ↦
        rw (e, enter)
          (inr λ name.
            L.get_child-elsewhere _ p (c ∷ cs) _ true _ name (L.new_ne t p folder s_ifdir)
            ∙ L.get_child-new t p folder s_ifdir _ name
            ∙ L.new_childless t p folder s_ifdir name)
    | inr (q, e) ↦ rw (e, enter) (inl (refl, refl))
  ]

  abbrev IsNamed : List Str → Type 0
  IsNamed cs = All (λ c. c ≢ []) cs

  enter_all-descend :
      (t : Forest W) (p : Inode W) (cs : List Str)
      → IsNamed cs
      → let (u, q) = enter_all W (t, p) cs in descend W u p cs ≡ some q
  unfolding enter_all
  enter_all-descend t p [] h = unfold descend in refl
  enter_all-descend t p (c ∷ cs) (h, hs) =
      let (u, q) = enter W (t, p) c in
      let v = (enter_all W (u, q) cs).0 in
      descend-cons W v p q c cs
        ((enter_all-Extends W L u q cs).children p c q (enter-get_child t p c h))
      ∙ enter_all-descend u q cs hs

  -- A child of the directory that the loop ends in was at that path before.
  enter_all-old :
      (t : Forest W) (p d : Inode W) (cs : List Str) (b : Str)
      → IsNamed cs
      → let (u, q) = enter_all W (t, p) cs in
        W.inodes.get_child u q b ≡ some d → descend W t p (cs ++ b ∷ []) ≡ some d
  unfolding enter_all
  enter_all-old t p d [] b h e = descend-one W t p b ∙ e
  enter_all-old t p d (c ∷ cs) b (h, hs) e =
      let (u, q) = enter W (t, p) c in
      let r = enter_all-old u q d cs b hs e in
      elim (enter-old t p c h) [
        | inl (same, found) ↦
            descend-cons W t p q c (cs ++ b ∷ []) found
            ∙ subst (λ x. descend W x q (cs ++ b ∷ []) ≡ some d) same r
        | inr childless ↦ let e' = sym (descend-childless W u q cs b childless) ∙ r in absurd (cc)
      ]

  add_file-new :
      (t : Forest W) (p : Inode W) (b : Str) (attr : Attr) (plain : Bytes)
      → W.inodes.get_child t p b ≡ none
      → let v = add_file W (t, p) b attr plain in
        (i : Inode W) × (W.inodes.get_child v p b ≡ some i)
        × (W.inodes.node v i
            ≡ some (leaf (new_file W.enclaves attr (W.enclaves.new_enclave plain))))
  unfolding add_file
  add_file-new t p b attr plain free =
      let n = leaf (new_file W.enclaves attr (W.enclaves.new_enclave plain)) in
      let (t1, i) = W.inodes.new_persistent_inode t p n 0 in
      (
        i,
        L.get_child-add_child t1 p b i false (L.get_child-new t p n 0 p b ∙ free),
        L.node-add_child t1 p b i false i ∙ L.node_new t p n 0,
      )

  not-before :
      (t u : Forest W) (root q : Inode W) (cs : List Str) (b : Str)
      → Extends W t u
      → descend W u root cs ≡ some q
      → W.inodes.get_child u q b ≡ none
      → descend W t root (cs ++ b ∷ []) ≡ none
  not-before t u root q cs b grown at free = elim (Option-cases (descend W t root (cs ++ b ∷ []))) [
    | inl e ↦ e
    | inr (d, e) ↦
        let e' =
          sym free
          ∙ sym (descend-append W u root q cs b at)
          ∙ descend-Extends W t u root d (cs ++ b ∷ []) grown e in
        absurd (cc)
  ]

  pub add_file-IsPlacedAt :
      (t : Forest W) (root : Inode W) (cs : List Str) (b : Str) (attr : Attr) (plain : Bytes)
      → IsNamed cs
      → IsPlacedAt W t
          (add_file W (enter_all W (t, root) cs) b attr plain)
          root
          (cs ++ b ∷ [])
          (new_file W.enclaves attr (W.enclaves.new_enclave plain))
  add_file-IsPlacedAt t root cs b attr plain h =
      let (u, q) = enter_all W (t, root) cs in
      let v = add_file W (u, q) b attr plain in
      let at = enter_all-descend t root cs h in
      let grown = add_file-Extends W L u q b attr plain in
      let at' = descend-Extends W u v root q cs grown at in
      elim (Option-cases (W.inodes.get_child u q b)) [
        | inl free ↦
            let (i, child, node) = add_file-new u q b attr plain free in
            (
              i,
              descend-append W v root q cs b at' ∙ child,
              inr (not-before t u root q cs b (enter_all-Extends W L t root cs) at free, node),
            )
        | inr (d, e) ↦ (
          d,
          descend-append W v root q cs b at' ∙ grown.children q b d e,
          inl (enter_all-old t root d cs b h e),
        )
      ]
