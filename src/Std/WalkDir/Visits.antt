-- ===== src/Std/WalkDir/Visits.antt =====
-- What a walk does to the state, from what one call of its callback does.
use gpgfs.Base.{◌≡◌, refl, Option, none, some, Error}
use gpgfs.Std.Strings.{Str}
use gpgfs.Std.FilePath.{join_path}
use gpgfs.Std.WalkDir.{
  Kind, directory, regular, irregular, Entry, file, special, dir, Entries, end, entry, Root,
  missing, present, Callback, then_if_nil, report, walk_dir, walk_entries, walk,
}

-- A regular file stands at the path `q` in the tree that is walked from `p`.
mutual
  pub data HasFile (q : Str) : Str → Entry → Type 0 where
    here : {p : Str} → q ≡ p → HasFile q p file
    inside :
        {p : Str} {failed : Option Error} {es : Entries}
        → HasFileIn q p es
        → HasFile q p (dir failed es)

  pub data HasFileIn (q : Str) : Str → Entries → Type 0 where
    first :
        {p n : Str} {e : Entry} {es : Entries}
        → HasFile q (join_path p n) e
        → HasFileIn q p (entry n e es)
    later : {p n : Str} {e : Entry} {es : Entries} → HasFileIn q p es → HasFileIn q p (entry n e es)

-- A relation that every call of the callback keeps to, reflexive and transitive.
pub record IsKept {S X : Type 0} (f : Callback S X) (R : S → S → Type 0) : Type 0 where
  pub same : (s : S) → R s s
  pub chain : (s t u : S) → R s t → R t u → R s u
  pub step : (p : Str) (k : Option Kind) (e : Option Error) (s : S) → R s (f p k e s).0

module _ {S X : Type 0} (f : Callback S X) where
  pub then_if_nil-eq :
      (r : S × Option X) (k : S → S × Option X)
      → (then_if_nil f r k).1 ≡ none
      → (r.1 ≡ none) × (then_if_nil f r k ≡ k r.0)
  then_if_nil-eq (t, none) k h = (refl, refl)
  then_if_nil-eq (t, some e) k h = cc

module _ {S X : Type 0} (f : Callback S X) (R : S → S → Type 0) (K : IsKept f R) where
  then_if_nil-kept :
      (s : S) (r : S × Option X) (k : S → S × Option X)
      → R s r.0
      → ((t : S) → R t (k t).0)
      → R s (then_if_nil f r k).0
  then_if_nil-kept s (t, none) k h hk = K.chain s t (k t).0 h (hk t)
  then_if_nil-kept s (t, some e) k h hk = h

  report-kept : (p : Str) (failed : Option Error) (s : S) → R s (report f p failed s).0
  unfolding report
  report-kept p none s = K.same s
  report-kept p (some e) s = K.step p (some directory) (some e) s

  mutual
    unfolding walk_dir

    walk_dir-kept_in : (p : Str) (e : Entry) (s : S) → R s (walk_dir f p e s).0
    walk_dir-kept_in p file s = K.step p (some regular) none s
    walk_dir-kept_in p special s = K.step p (some irregular) none s
    walk_dir-kept_in p (dir failed es) s =
        then_if_nil-kept s (f p (some directory) none s) _ (K.step p (some directory) none s) λ t.
          then_if_nil-kept t (report f p failed t) _ (report-kept p failed t)
            λ u. walk_entries-kept p es u

    walk_entries-kept : (p : Str) (es : Entries) (s : S) → R s (walk_entries f p es s).0
    walk_entries-kept p end s = K.same s
    walk_entries-kept p (entry n e es) s =
        then_if_nil-kept s (walk_dir f (join_path p n) e s) _ (walk_dir-kept_in (join_path p n) e s)
          λ t. walk_entries-kept p es t

  pub walk-kept : (p : Str) (r : Root) (s : S) → R s (walk f p r s).0
  unfolding walk
  walk-kept p (missing e) s = K.step p none (some e) s
  walk-kept p (present e) s = walk_dir-kept_in p e s

  -- The callback was called for the file, between the states `s` and `t`, and reported no error.
  abbrev pub Visited : Str → S → S → Type 0
  Visited q s t =
      (u : S) × R s u × ((f q (some regular) none u).1 ≡ none) × R (f q (some regular) none u).0 t

  Visited-extend : (q : Str) (s s' t' t : S) → R s s' → Visited q s' t' → R t' t → Visited q s t
  Visited-extend q s s' t' t a (u, b, e, c) d = (u, K.chain s s' u a b, e, K.chain _ t' t c d)

  mutual
    unfolding walk_dir

    walk_dir-Visited :
        (q p : Str) (e : Entry) (s : S)
        → (walk_dir f p e s).1 ≡ none
        → HasFile q p e
        → Visited q s (walk_dir f p e s).0
    walk_dir-Visited q p file s h (here same) =
        rw same (s, K.same s, h, K.same (f p (some regular) none s).0)
    walk_dir-Visited q p special s h w = elim w [ ]
    walk_dir-Visited q p (dir failed es) s h (inside w) =
        let (h1, e1) = then_if_nil-eq f (f p (some directory) none s) _ h in
        let t = (f p (some directory) none s).0 in
        let h' = rw e1 at h in
        let (h2, e2) = then_if_nil-eq f (report f p failed t) _ h' in
        let u = (report f p failed t).0 in
        let v = walk_entries-Visited q p es u (rw e2 at h') w in
        rw (e1, e2)
          (Visited-extend q s u _ _
            (K.chain s t u (K.step p (some directory) none s) (report-kept p failed t)) v
            (K.same _))

    walk_entries-Visited :
        (q p : Str) (es : Entries) (s : S)
        → (walk_entries f p es s).1 ≡ none
        → HasFileIn q p es
        → Visited q s (walk_entries f p es s).0
    walk_entries-Visited q p end s h w = elim w [ ]
    walk_entries-Visited q p (entry n e es) s h (first w) =
        let r = walk_dir f (join_path p n) e s in
        let (h1, e1) = then_if_nil-eq f r _ h in
        rw e1 (
          Visited-extend q s s r.0 _ (K.same s) (walk_dir-Visited q (join_path p n) e s h1 w)
            (walk_entries-kept p es r.0))
    walk_entries-Visited q p (entry n e es) s h (later w) =
        let r = walk_dir f (join_path p n) e s in
        let (h1, e1) = then_if_nil-eq f r _ h in
        rw e1 (
          Visited-extend q s r.0 _ _ (walk_dir-kept_in (join_path p n) e s)
            (walk_entries-Visited q p es r.0 (rw e1 at h) w) (K.same _))

  -- A walk that ends with no error has called the callback for every regular file.
  pub walk-Visited :
      (q p : Str) (e : Entry) (s : S)
      → (walk f p (present e) s).1 ≡ none
      → HasFile q p e
      → Visited q s (walk f p (present e) s).0
  unfolding walk
  walk-Visited q p e s h w = walk_dir-Visited q p e s h w
