-- ===== src/Cli/Wiring/Built.antt =====
-- When a container can build the values of a type.
use gpgfs.Base.{
  ℕ, zero, suc, ◌<◌, ◌≤◌, ◌≡◌, ◌≢◌, ◌⊎◌, inl, inr, refl, sym, ap, ◌∙◌, subst, All, List, [], ◌∷◌,
  ok, >>=-of_ok, arith,
}
use gpgfs.Cli.Wiring.{Kind, Provider, Dig, provide_all}

abbrev pub IsIn : Provider → List Provider → Type 0
IsIn x [] = ⊥
IsIn x (y ∷ ys) = (y ≡ x) ⊎ IsIn x ys

-- A value of the type can be built: a constructor of it is known, and a value of each type that it
-- needs can be built.
mutual
  pub data Builds (ps : List Provider) : Kind → Type 0 where
    build : (p : Provider) → IsIn p ps → BuildsAll ps p.needs → Builds ps p.gives

  pub data BuildsAll (ps : List Provider) : List Kind → Type 0 where
    none_left : BuildsAll ps []
    one_more : {k : Kind} {ks : List Kind} → Builds ps k → BuildsAll ps ks → BuildsAll ps (k ∷ ks)

-- Some constructor of the list makes the type.
abbrev pub IsGiven : List Provider → Kind → Type 0
IsGiven ps k = (p : Provider) × IsIn p ps × (p.gives ≡ k)

-- Constructors without a cycle: each needs types of a lower rank than that of the type it makes.
abbrev pub IsRanked : (Kind → ℕ) → List Provider → Type 0
IsRanked rank ps = All (λ (p : Provider). All (λ k. rank k < rank p.gives) p.needs) ps

-- What the constructors need, other constructors make.
abbrev pub IsClosed : List Provider → List Provider → Type 0
IsClosed all ps = All (λ (p : Provider). All (IsGiven all) p.needs) ps

All-IsIn : (P : Provider → Type 0) (p : Provider) (ps : List Provider) → All P ps → IsIn p ps → P p
All-IsIn P p [] h i = absurd i
All-IsIn P p (q ∷ qs) (x, h) (inl e) = subst P e x
All-IsIn P p (q ∷ qs) (x, h) (inr i) = All-IsIn P p qs h i

module _ (rank : Kind → ℕ) (all : List Provider) (ranked : IsRanked rank all)
    (closed : IsClosed all all) where
  BuildsAll-below :
      (n m : ℕ) (ks : List Kind)
      → ((k : Kind) → rank k < n → IsGiven all k → Builds all k)
      → m ≤ n
      → All (λ k. rank k < m) ks
      → All (IsGiven all) ks
      → BuildsAll all ks
  BuildsAll-below n m [] below le low given = none_left
  BuildsAll-below n m (k ∷ ks) below le (l, low) (g, given) =
      one_more (below k (omega arith) g) (BuildsAll-below n m ks below le low given)

  Builds-below : (n : ℕ) (k : Kind) → rank k < n → IsGiven all k → Builds all k
  Builds-below zero k l g = absurd (omega arith)
  Builds-below (suc n) k l (p, i, e) =
      let low = All-IsIn _ p all ranked i in
      let given = All-IsIn _ p all closed i in
      let le : rank p.gives ≤ n = omega (arith, ap rank e) in
      subst (Builds all) e
        (build p i (BuildsAll-below n (rank p.gives) p.needs (Builds-below n) le low given))

  -- Whatever is given can be built.
  pub given-Builds : (ks : List Kind) → All (IsGiven all) ks → BuildsAll all ks
  given-Builds [] h = none_left
  given-Builds (k ∷ ks) (g, h) =
      one_more (Builds-below (suc (rank k)) k (omega arith) g) (given-Builds ks h)

-- What the container is documented to do: it takes a constructor of a type that it has none for yet,
-- if there is no cycle, and building values teaches it nothing.
pub record IsDig (D : Dig) : Type 0 where
  pub known : D.Container → List Provider
  pub new-known : known D.new ≡ []
  pub provide-ok :
      (p : Provider) (c : D.Container) (rank : Kind → ℕ)
      → All (λ (q : Provider). q.gives ≢ p.gives) (known c)
      → IsRanked rank (p ∷ known c)
      → (d : D.Container) × (D.provide p c ≡ ok d) × (known d ≡ p ∷ known c)
  pub invoke-known : (ks : List Kind) (c d : D.Container) → D.invoke ks c ≡ ok d → known d ≡ known c

-- The constructors that are known after some more.
abbrev pub taught : List Provider → List Provider → List Provider
taught [] qs = qs
taught (p ∷ ps) qs = taught ps (p ∷ qs)

abbrev pub IsFresh : List Provider → List Provider → Type 0
IsFresh [] qs = Unit {0}
IsFresh (p ∷ ps) qs = All (λ (q : Provider). q.gives ≢ p.gives) qs × IsFresh ps (p ∷ qs)

module _ (D : Dig) (L : IsDig D) (rank : Kind → ℕ) where
  pub provide_all-ok :
      (ps qs : List Provider) (c : D.Container)
      → L.known c ≡ qs
      → IsFresh ps qs
      → IsRanked rank ps
      → IsRanked rank qs
      → (d : D.Container) × (provide_all D ps c ≡ ok d) × (L.known d ≡ taught ps qs)
  unfolding provide_all
  provide_all-ok [] qs c e fresh r s = (c, refl, e)
  provide_all-ok (p ∷ ps) qs c e (f, fresh) (r, rs) s =
      let (d, made, known) =
        L.provide-ok p c rank (subst (λ x. All (λ (q : Provider). q.gives ≢ p.gives) x) (sym e) f)
          (r, subst (IsRanked rank) (sym e) s) in
      let (d', all, known') =
        provide_all-ok ps (p ∷ qs) d (known ∙ ap (λ x. p ∷ x) e) fresh rs (r, s) in
      (d', >>=-of_ok _ made ∙ all, known')
