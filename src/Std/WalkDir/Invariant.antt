-- ===== src/Std/WalkDir/Invariant.antt =====
-- An invariant of a walk that depends on the files that are there.
use gpgfs.Base.{◌≡◌, refl, Option, none, some, Error}
use gpgfs.Std.Strings.{Str}
use gpgfs.Std.FilePath.{join_path}
use gpgfs.Std.WalkDir.{
  directory, regular, irregular, Entry, file, special, dir, Entries, end, entry, present, Callback,
  report, walk_dir, walk_entries, walk,
}
use gpgfs.Std.WalkDir.Visits.{HasFile, here, inside, HasFileIn, first, later, then_if_nil-eq}

-- What the calls of the callback keep: for a file of a kind, if the call reports no error.
pub record IsStable {S X : Type 0} (f : Callback S X) (Q : S → Type 0) (ok : Str → Type 0)
    : Type 0 where
  pub at_file :
      (p : Str) (s : S)
      → ok p
      → (f p (some regular) none s).1 ≡ none
      → Q s
      → Q (f p (some regular) none s).0
  pub at_special : (p : Str) (s : S) → Q s → Q (f p (some irregular) none s).0
  pub at_dir : (p : Str) (x : Option Error) (s : S) → Q s → Q (f p (some directory) x s).0

module _ {S X : Type 0} (f : Callback S X) (Q : S → Type 0) (ok : Str → Type 0)
    (K : IsStable f Q ok) where
  report-stable : (p : Str) (failed : Option Error) (s : S) → Q s → Q (report f p failed s).0
  unfolding report
  report-stable p none s h = h
  report-stable p (some e) s h = K.at_dir p (some e) s h

  mutual
    unfolding walk_dir

    walk_dir-stable :
        (p : Str) (e : Entry) (s : S)
        → ((q : Str) → HasFile q p e → ok q)
        → (walk_dir f p e s).1 ≡ none
        → Q s
        → Q (walk_dir f p e s).0
    walk_dir-stable p file s fits h i = K.at_file p s (fits p (here refl)) h i
    walk_dir-stable p special s fits h i = K.at_special p s i
    walk_dir-stable p (dir failed es) s fits h i =
        let (h1, e1) = then_if_nil-eq f (f p (some directory) none s) _ h in
        let t = (f p (some directory) none s).0 in
        let h' = rw e1 at h in
        let (h2, e2) = then_if_nil-eq f (report f p failed t) _ h' in
        let u = (report f p failed t).0 in
        rw (e1, e2)
          (walk_entries-stable p es u (λ q w. fits q (inside w)) (rw e2 at h')
            (report-stable p failed t (K.at_dir p none s i)))

    walk_entries-stable :
        (p : Str) (es : Entries) (s : S)
        → ((q : Str) → HasFileIn q p es → ok q)
        → (walk_entries f p es s).1 ≡ none
        → Q s
        → Q (walk_entries f p es s).0
    walk_entries-stable p end s fits h i = i
    walk_entries-stable p (entry n e es) s fits h i =
        let r = walk_dir f (join_path p n) e s in
        let (h1, e1) = then_if_nil-eq f r _ h in
        rw e1 (
          walk_entries-stable p es r.0 (λ q w. fits q (later w)) (rw e1 at h)
            (walk_dir-stable (join_path p n) e s (λ q w. fits q (first w)) h1 i))

  -- A walk that ends with no error keeps what its calls keep for the files of the tree.
  pub walk-stable :
      (p : Str) (e : Entry) (s : S)
      → ((q : Str) → HasFile q p e → ok q)
      → (walk f p (present e) s).1 ≡ none
      → Q s
      → Q (walk f p (present e) s).0
  unfolding walk
  walk-stable p e s fits h i = walk_dir-stable p e s fits h i
