-- ===== src/Fuse/Preload/Shape.antt =====
-- The inodes below the root form a tree, and a path that is free stays free while others are added.
use mathlib.Core.Option.{some-injective}
use gpgfs.Base.{
  ℕ, ◌≡◌, ◌≢◌, ◌⊎◌, refl, Bool, false, none, some, List, [], ◌∷◌, ◌++◌, inl, inr, Option-cases, sym,
  ap, ◌∙◌,
}
use gpgfs.Std.Strings.{Str}
use gpgfs.Fuse.Inodes.{IsInodeTree}
use gpgfs.Fuse.Preload.{World, Node, Forest, Inode}
use gpgfs.Fuse.Preload.Kept.{add_new-Extends}
use gpgfs.Fuse.Preload.Placed.{descend, descend-eq-some, descend-cons}

module _ (W : World) where
  -- The root is there, and no inode is at two paths below it.
  pub record IsTree (t : Forest W) (root : Inode W) : Type 0 where
    pub embeds : Node W.enclaves
    pub there : W.inodes.node t root ≡ some embeds
    pub unique :
        (p q : List Str) (i : Inode W)
        → descend W t root p ≡ some i
        → descend W t root q ≡ some i
        → p ≡ q

  -- The edge that a new inode gets when it is added: nothing, or the last step of a path.
  abbrev IsReached : Forest W → Inode W → Inode W → Str → Inode W → List Str → Inode W → Type 0
  IsReached t root p name c q d =
      (descend W t root q ≡ some d)
      ⊎ ((pre : List Str) × (q ≡ pre ++ name ∷ []) × (descend W t root pre ≡ some p) × (d ≡ c))

module _ (W : World) (L : IsInodeTree W.inodes) (t : Forest W) (p : Inode W) (n : Node W.enclaves)
    (mode : ℕ) (name : Str) (overwrite : Bool) where
  abbrev c : Inode W
  c = (W.inodes.new_persistent_inode t p n mode).1

  abbrev t' : Forest W
  t' = (W.inodes.add_child (W.inodes.new_persistent_inode t p n mode).0 p name c overwrite).0

  child_old :
      (q d : Inode W) (m : Str)
      → W.inodes.get_child t' q m ≡ some d
      → ((q ≡ p) × (m ≡ name) × (d ≡ c)) ⊎ (W.inodes.get_child t q m ≡ some d)
  child_old q d m h = elim (L.get_child-old _ p name c overwrite q m d h) [
    | inl e ↦ inl e
    | inr e ↦ inr (sym (L.get_child-new t p n mode q m) ∙ e)
  ]

  below_new : (q : List Str) (d : Inode W) → descend W t' c q ≡ some d → (q ≡ []) × (d ≡ c)
  below_new [] d h = (refl, unfold descend in sym (some-injective _ _ h))
  below_new (m ∷ q) d h =
      let (j, e, _) = descend-eq-some W t' c d m q h in
      elim (child_old c j m e) [
        | inl (at, _, _) ↦ absurd (L.new_ne t p n mode at)
        | inr old ↦ let e' = sym (L.new_childless t p n mode m) ∙ old in absurd (cc)
      ]

  reached :
      (i d : Inode W) (q : List Str) → descend W t' i q ≡ some d → IsReached W t i p name c q d
  reached i d [] h = inl (unfold descend in h)
  reached i d (m ∷ q) h =
      let (j, e, h') = descend-eq-some W t' i d m q h in
      elim (child_old i j m e) [
        | inl (at, named, new) ↦
            let (end, same) = below_new q d (let e' = new in rw e' at h') in
            inr ([], (rw (named, end) refl), (unfold descend in ap some at), same)
        | inr old ↦ elim (reached j d q h') [
          | inl down ↦ inl (descend-cons W t i j m q old ∙ down)
          | inr (pre, split, down, same) ↦
              inr (m ∷ pre, ap (λ x. m ∷ x) split, descend-cons W t i j m pre old ∙ down, same)
        ]
      ]

  -- A new inode was at no path.
  unlinked : (i : Inode W) (m : Str) (q : List Str) → descend W t i (m ∷ q) ≢ some c
  unlinked i m [] h =
      let (j, e, h') = descend-eq-some W t i c m [] h in
      let same : j ≡ c = unfold descend in some-injective j c h' in
      L.new_unlinked t p n mode i m (e ∙ ap some same)
  unlinked i m (m' ∷ q) h =
      let (j, e, h') = descend-eq-some W t i c m (m' ∷ q) h in unlinked j m' q h'

  unreached : (root : Inode W) (q : List Str) → IsTree W t root → descend W t root q ≢ some c
  unreached root [] T h =
      L.new_fresh t p n T.embeds mode root T.there (unfold descend in sym (some-injective root c h))
  unreached root (m ∷ q) T h = unlinked root m q h

  -- Adding a new inode where no child is, or with no right to overwrite, keeps the tree.
  pub add_new-IsTree :
      (root : Inode W)
      → IsTree W t root
      → (W.inodes.get_child t p name ≡ none) ⊎ (overwrite ≡ false)
      → IsTree W t' root
  add_new-IsTree root T free = record {
    embeds = T.embeds;
    there = (add_new-Extends W L t p n mode name overwrite free).nodes root T.embeds T.there;
    unique = λ a b i ha hb. elim (reached root i a ha) [
      | inl oa ↦ elim (reached root i b hb) [
        | inl ob ↦ T.unique a b i oa ob
        | inr (_, _, _, new) ↦ absurd (unreached root a T (oa ∙ ap some new))
      ]
      | inr (pa, ea, da, new) ↦ elim (reached root i b hb) [
        | inl ob ↦ absurd (unreached root b T (ob ∙ ap some new))
        | inr (pb, eb, db, _) ↦ ea ∙ ap (λ x. x ++ name ∷ []) (T.unique pa pb p da db) ∙ sym eb
      ]
    ];
  }

  -- A path that leads nowhere leads nowhere afterwards, but for that of the new inode.
  pub add_new-free :
      (root : Inode W) (pre q : List Str)
      → IsTree W t root
      → descend W t root pre ≡ some p
      → descend W t root q ≡ none
      → q ≢ pre ++ name ∷ []
      → descend W t' root q ≡ none
  add_new-free root pre q T at free ne = elim (Option-cases (descend W t' root q)) [
    | inl e ↦ e
    | inr (d, e) ↦ elim (reached root d q e) [
      | inl old ↦ let e' = sym free ∙ old in absurd (cc)
      | inr (pre', split, at', _) ↦
          absurd (ne (split ∙ ap (λ x. x ++ name ∷ []) (T.unique pre' pre p at' at)))
    ]
  ]
