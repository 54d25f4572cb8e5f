-- ===== src/Config/Load/Valid.antt =====
-- What a loaded configuration is.
use gpgfs.Base.{
  ok-injective, refl, ◌>>=◌, ◌≡◌, ◌≢◌, sym, subst, ok, List, [], ◌∷◌, ◌++◌, >>=-eq-ok, ◌∙◌, ap,
}
use gpgfs.Std.Strings.{Str, codes}
use gpgfs.Std.Space.{trim_space}
use gpgfs.Config.Sections.{Config}
use gpgfs.Config.Tree.{fill, zero_config, validate_sections}
use gpgfs.Config.Tree.Valid.{fill-valid, key_path}
use gpgfs.Config.Tree.Twice.{fill-twice}
use gpgfs.Log.{Zerolog, Process, create}
use gpgfs.Config.Load.{
  Post, defaults, validation, Revip, IsRevip, chosen, etcd_updates, validate, loaders, load,
}

module _ (R : Revip) (L : IsRevip R) where
  -- The sources before the last are applied first.
  load-append :
      (ss : List R.Source) (t : R.Source) (c d : Config)
      → R.load (ss ++ t ∷ []) c ≡ ok d
      → (m : Config) × (R.load ss c ≡ ok m) × (R.apply t m ≡ ok d)
  load-append [] t c d h =
      let (m, e, done) =
        >>=-eq-ok (R.apply t c) (λ x. R.load [] x) (sym (L.load-cons t [] c) ∙ h) in
      (c, L.load-nil c, e ∙ sym (L.load-nil m) ∙ done)
  load-append (s ∷ ss) t c d h =
      let (n, e, rest) =
        >>=-eq-ok (R.apply s c) (λ x. R.load (ss ++ t ∷ []) x) (sym (L.load-cons s _ c) ∙ h) in
      let (m, inner, last) = load-append ss t n d rest in
      (m, L.load-cons s ss c ∙ ap (λ r. r >>= λ x. R.load ss x) e ∙ inner, last)

module _ (R : Revip) where
  -- Each path, without the white space around it, names a source, and the sources are applied from
  -- the first path to the last.
  pub data ReadsAll : List Str → Config → Config → Type 0 where
    read_none : {c : Config} → ReadsAll [] c c
    read_path :
        {path : Str} {paths : List Str} {c m d : Config} (s : R.Source)
        → R.from_url (trim_space path) ≡ ok s
        → R.apply s c ≡ ok m
        → ReadsAll paths m d
        → ReadsAll (path ∷ paths) c d

  -- What the paths and then the environment made of the defaults, before the options see it.
  abbrev pub Reads : List Str → Config → Type 0
  Reads paths c =
      (m : Config) × ReadsAll paths (fill zero_config) m
      × (R.apply (R.from_environ (codes "GPGFS")) m ≡ ok c)

  ReadsAll-unique :
      {paths : List Str} {c d e : Config} → ReadsAll paths c d → ReadsAll paths c e → d ≡ e
  ReadsAll-unique read_none read_none = refl
  ReadsAll-unique {e = e} (read_path {paths = paths} {m = m} s hs hm h)
        (read_path {m = n} t ht hn k) =
      let q : m ≡ n = cc in ReadsAll-unique h (subst (λ x. ReadsAll paths x e) (sym q) k)

module _ (R : Revip) (L : IsRevip R) (Z : Zerolog) (process : Process) where
  loaders-ReadsAll :
      (paths : List Str) (sources : List R.Source) (c d : Config)
      → loaders R paths ≡ ok sources
      → R.load sources c ≡ ok d
      → ReadsAll R paths c d
  unfolding loaders
  loaders-ReadsAll [] sources c d hs h =
      let q : [] ≡ sources = ok-injective hs in
      let e : c ≡ d = cc (L.load-nil c) in subst (ReadsAll R [] c) e read_none
  loaders-ReadsAll (path ∷ paths) sources c d hs h =
      let (s, named, h1) = >>=-eq-ok (R.from_url (trim_space path)) _ hs in
      let (ss, rest, h2) = >>=-eq-ok (loaders R paths) _ h1 in
      let q : s ∷ ss ≡ sources = ok-injective h2 in
      let (m, applied, more) =
        >>=-eq-ok (R.apply s c) (λ x. R.load ss x)
          (sym (L.load-cons s ss c) ∙ ap (λ x. R.load x c) q ∙ h) in
      read_path s named applied (loaders-ReadsAll paths ss m d rest more)

  load-Reads :
      (paths : List Str) (posts : List (Post R.Client)) (d : Config)
      → load R Z process paths posts ≡ ok d
      → (options : List (Post R.Client)) × (c : Config) × (chosen R paths posts ≡ ok options)
        × Reads R paths c
        × (R.postprocess options c ≡ ok d)
  unfolding load
  load-Reads paths posts d h =
      let (l, _, h1) = >>=-eq-ok (create Z process (record { level = codes "info" })) _ h in
      let (options, he, h2) = >>=-eq-ok (chosen R paths posts) _ h1 in
      let (sources, hs, h3) = >>=-eq-ok (loaders R paths) _ h2 in
      let (c0, h0, h4) = >>=-eq-ok (R.postprocess (defaults ∷ []) zero_config) _ h3 in
      let (c, hr, done) =
        >>=-eq-ok (R.load (sources ++ R.from_environ (codes "GPGFS") ∷ []) c0) _ h4 in
      let filled : c0 ≡ fill zero_config = cc (h0, L.postprocess-defaults zero_config) in
      let (m, hm, last) = load-append R L sources _ c0 c hr in
      let whole = subst (λ x. R.load sources x ≡ ok m) filled hm in
      (
        options,
        c,
        he,
        (m, loaders-ReadsAll paths sources (fill zero_config) m hs whole, last),
        done,
      )

  Reads-unique : (paths : List Str) (c d : Config) → Reads R paths c → Reads R paths d → c ≡ d
  Reads-unique paths c d (m, hm, hc) (n, hn, hd) = let q = ReadsAll-unique R hm hn in cc

  complete_of :
      (c d : Config) (ps : List (Post R.Client))
      → R.postprocess (defaults ∷ validation ∷ ps) c ≡ ok d
      → (fill d ≡ d) × (key_path d ≢ []) × (d ≡ fill c)
  complete_of c d ps given =
      let (e, checked) = L.postprocess-validation c d ps given in
      let whole : fill d ≡ d = ap fill e ∙ fill-twice c ∙ sym e in
      let (there, back) = fill-valid d in (whole, there (ap validate_sections whole ∙ checked), e)

  -- With LocalPostprocessors as the options.
  pub load-local :
      (paths : List Str) (d : Config)
      → load R Z process paths (defaults ∷ validation ∷ []) ≡ ok d
      → (fill d ≡ d) × (key_path d ≢ [])
  unfolding chosen
  load-local paths d h =
      let (options, c, he, reads, done) = load-Reads paths (defaults ∷ validation ∷ []) d h in
      let (whole, given, e) = complete_of c d [] cc in (whole, given)

  -- A configuration that is loaded without options began as the defaults, went through the sources
  -- that the paths name, without the white space around them, from the first path to the last, and
  -- through the environment after them, and is what the defaults make of the result. It is complete, since the defaults change nothing of it, and its
  -- key has a path. revip behaves as it documents.
  pub load-valid :
      (paths : List Str) (d : Config)
      → load R Z process paths [] ≡ ok d
      → (fill d ≡ d) × (key_path d ≢ []) × (c : Config) × Reads R paths c × (d ≡ fill c)
  unfolding chosen
  load-valid paths d h =
      let (options, c, he, reads, done) = load-Reads paths [] d h in
      let (ps, hp, ho) = >>=-eq-ok (etcd_updates R paths) _ he in
      let given : R.postprocess (defaults ∷ validation ∷ ps) c ≡ ok d = cc in
      let (whole, nonempty, e) = complete_of c d ps given in (whole, nonempty, c, reads, e)

  -- With the defaults as only option, nothing is checked.
  pub load-unchecked :
      (paths : List Str) (d : Config)
      → load R Z process paths (defaults ∷ []) ≡ ok d
      → (c : Config) × Reads R paths c × (d ≡ fill c)
  unfolding chosen
  load-unchecked paths d h =
      let (options, c, he, reads, done) = load-Reads paths (defaults ∷ []) d h in
      let given : R.postprocess (defaults ∷ []) c ≡ ok d = cc in
      let same : ok d ≡ ok (fill c) = sym given ∙ L.postprocess-defaults c in (c, reads, cc)

  -- `Validate` asks the configuration itself for a Validate method, which it does not have: it
  -- accepts each configuration without a path of the key that is loaded with the defaults as only
  -- option, and without options the same sources are refused. revip behaves as it documents.
  pub validate-misses :
      (paths : List Str) (d : Config)
      → load R Z process paths (defaults ∷ []) ≡ ok d
      → key_path d ≡ []
      → (validate R d ≡ ok tt) × ((e : Config) → load R Z process paths [] ≢ ok e)
  unfolding validate
  validate-misses paths d h missing = (
    L.with_validation-none d,
    λ e he.
        let (c, reads, hd) = load-unchecked paths d h in
        let (_, given, c2, reads2, e2) = load-valid paths e he in
        let q : d ≡ e = cc (Reads-unique paths c c2 reads reads2) in
        given (ap key_path (sym q) ∙ missing),
  )
