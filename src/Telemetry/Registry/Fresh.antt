-- ===== src/Telemetry/Registry/Fresh.antt =====
-- The registry that the program begins with has room for the telemetry of every subsystem.
use gpgfs.Base.{
  true, false, ◌≡◌, ◌≢◌, refl, sym, ap, ◌∙◌, All, Result, ok, err, panic, ◌>>=◌, List, [], ◌∷◌,
  ◌++◌,
}
use gpgfs.Std.Strings.{Str, codes, has_prefix}
use gpgfs.Server.Metrics.{Registry, IsRegistry, new_telemetry}
use gpgfs.Server.Metrics.Names.{Metric, metric_name, metric_name-has_prefix}
use gpgfs.Server.Metrics.Once.{IsFree, new_telemetry-once}
use gpgfs.Telemetry.Registry.{go_build_info, register_all, init}

-- No name is there twice.
abbrev pub IsDistinct : List Str → Type 0
IsDistinct [] = Unit {0}
IsDistinct (n ∷ ns) = All (λ m. m ≢ n) ns × IsDistinct ns

-- No name of the list is one of this program.
abbrev pub IsForeign : List Str → Type 0
IsForeign ns = All (λ n. has_prefix n (codes "gpgfs_") ≡ false) ns

>>=-assoc :
    {A B C : Type 0} (r : Result A) (f : A → Result B) (g : B → Result C)
    → (r >>= f) >>= g ≡ r >>= (λ a. f a >>= g)
>>=-assoc (ok a) f g = refl
>>=-assoc (err e) f g = refl
>>=-assoc (panic m) f g = refl

>>=-ok : {A : Type 0} (r : Result A) → r >>= (λ a. ok a) ≡ r
>>=-ok (ok a) = refl
>>=-ok (err e) = refl
>>=-ok (panic m) = refl

module _ (G : Registry) where
  register_all-append :
      (ms ns : List Str) (s : G.State)
      → register_all G (ms ++ ns) s ≡ register_all G ms s >>= λ t. register_all G ns t
  unfolding register_all
  register_all-append [] ns s = refl
  register_all-append (m ∷ ms) ns s =
      ap (λ f. G.must_register m s >>= f) (λ i t. register_all-append ms ns t i)
      ∙ sym (>>=-assoc (G.must_register m s) _ _)

module _ (G : Registry) (L : IsRegistry G) where
  abbrev Unused : G.State → Str → Type 0
  Unused s n = L.Registered n s → ⊥

  still-Unused :
      (n : Str) (s t : G.State) (ns : List Str)
      → ((m : Str) → m ≢ n → L.Registered m t → L.Registered m s)
      → All (λ m. m ≢ n) ns
      → All (Unused s) ns
      → All (Unused t) ns
  still-Unused n s t [] only apart unused = tt
  still-Unused n s t (m ∷ ms) only (ne, apart) (u, unused) =
      ((λ r. u (only m ne r)), still-Unused n s t ms only apart unused)

  -- Names that are distinct and not taken can be registered, and nothing else is then taken.
  register_all-free :
      (ns : List Str) (s : G.State)
      → IsDistinct ns
      → All (Unused s) ns
      → (t : G.State) × (register_all G ns s ≡ ok t)
        × ((m : Str) → All (λ n. m ≢ n) ns → Unused s m → Unused t m)
  unfolding register_all
  register_all-free [] s distinct unused = (s, refl, λ m apart u. u)
  register_all-free (n ∷ ns) s (apart, distinct) (u, unused) =
      let (s1, e, taken, keep, only) = L.must_register-free n s u in
      let (t, rest, still) =
        register_all-free ns s1 distinct (still-Unused n s s1 ns only apart unused) in
      (t, rw e rest, λ m (ne, others) free. still m others (λ r. free (only m ne r)))

  empty-Unused : (s : G.State) (ns : List Str) → ((n : Str) → Unused s n) → All (Unused s) ns
  empty-Unused s [] h = tt
  empty-Unused s (n ∷ ns) h = (h n, empty-Unused s ns h)

IsForeign-append : (ms ns : List Str) → IsForeign ms → IsForeign ns → IsForeign (ms ++ ns)
IsForeign-append [] ns a b = b
IsForeign-append (m ∷ ms) ns (h, a) b = (h, IsForeign-append ms ns a b)

pub foreign-apart :
    (m : Metric) (s : Str) (ns : List Str) → IsForeign ns → All (λ n. metric_name m s ≢ n) ns
foreign-apart m s [] h = tt
foreign-apart m s (n ∷ ns) (f, h) = (
  (λ e.
      let clash : true ≡ false =
        sym (metric_name-has_prefix m s) ∙ ap (λ x. has_prefix x (codes "gpgfs_")) e ∙ f in
      absurd cc),
  foreign-apart m s ns h,
)

build_info-IsForeign : IsForeign (go_build_info ∷ [])
unfolding has_prefix
build_info-IsForeign = (refl, tt)

pub names-IsForeign :
    (process go : List Str)
    → IsForeign process
    → IsForeign go
    → IsForeign (process ++ (go ++ go_build_info ∷ []))
names-IsForeign process go f_p f_g =
    IsForeign-append process _ f_p (IsForeign-append go _ f_g build_info-IsForeign)

module _ (G : Registry) (L : IsRegistry G) where
  register_all-info :
      (go : List Str) (s : G.State)
      → register_all G (go ++ go_build_info ∷ []) s
        ≡ register_all G go s >>= (λ t. G.must_register go_build_info t)
  unfolding register_all
  register_all-info go s =
      register_all-append G go (go_build_info ∷ []) s
      ∙ ap (λ k. register_all G go s >>= k) (λ i t. >>=-ok (G.must_register go_build_info t) i)

  init-eq-register_all :
      (process go : List Str) (s : G.State)
      → init G process go s ≡ register_all G (process ++ (go ++ go_build_info ∷ [])) s
  unfolding init register_all
  init-eq-register_all process go s = sym (
      register_all-append G process (go ++ go_build_info ∷ []) s
      ∙ ap (λ k. register_all G process s >>= k) (λ i t. register_all-info go t i))

  -- Once the registry is set up, only its own names are taken.
  pub init-free :
      (process go : List Str) (empty : G.State)
      → ((n : Str) → L.Registered n empty → ⊥)
      → IsDistinct (process ++ (go ++ go_build_info ∷ []))
      → (s : G.State) × (init G process go empty ≡ ok s)
        × ((m : Str)
            → All (λ n. m ≢ n) (process ++ (go ++ go_build_info ∷ []))
            → L.Registered m s
            → ⊥)
  init-free process go empty none distinct =
      let names = process ++ (go ++ go_build_info ∷ []) in
      let (s, e, still) =
        register_all-free G L names empty distinct (empty-Unused G L empty names none) in
      (s, init-eq-register_all process go empty ∙ e, λ m apart. still m apart (none m))

  -- The collectors of prometheus have distinct names, which are not `go_build_info` and do not begin
  -- with `gpgfs_`. Then the registry is there before the program begins, and the telemetry of any
  -- subsystem can be made on it. The registry behaves as prometheus documents.
  pub init-new_telemetry :
      (process go : List Str) (empty : G.State) (subsystem : Str)
      → ((n : Str) → L.Registered n empty → ⊥)
      → IsDistinct (process ++ (go ++ go_build_info ∷ []))
      → IsForeign process
      → IsForeign go
      → (s t : G.State) × (init G process go empty ≡ ok s) × (new_telemetry G subsystem s ≡ ok t)
  init-new_telemetry process go empty subsystem none distinct f_p f_g =
      let (s, e, still) = init-free process go empty none distinct in
      let theirs = names-IsForeign process go f_p f_g in
      let free : IsFree G L subsystem s =
        λ m. still (metric_name m subsystem) (foreign-apart m subsystem _ theirs) in
      let (t, made, _, _, _) = new_telemetry-once G L subsystem s free in (s, t, e, made)
