-- ===== src/Cli/Settings/Pushed.antt =====
-- What `config push` has done when it ends.
use gpgfs.Base.{inl, inr}
use gpgfs.Base.{
  append-nil, ◌≡◌, ◌≢◌, refl, sym, ap, ◌∙◌, Result, ok, append_assoc, Result-cases, >>=-eq-ok,
  ◌>>=◌, List, [], ◌∷◌, ◌++◌, map, ◌⊎◌,
}
use gpgfs.Std.Strings.{Str}
use gpgfs.Config.Sections.{Config}
use gpgfs.Config.Tree.{fill}
use gpgfs.Config.Tree.Valid.{key_path}
use gpgfs.Config.Load.{defaults, validation, Revip, IsRevip, load}
use gpgfs.Config.Load.Valid.{load-local}
use gpgfs.Log.{Zerolog, Process}
use gpgfs.Cli.Settings.{Writers, Outcome, push_all, push_args, config_push, with_logger}

module _ (W : Writers) where
  -- The configuration went to the destinations before the first that refused it, whose refusal is
  -- how the command ended, or to all of them.
  abbrev pub Pushes : Config → List Str → List (Str × Config) → Outcome → Type 0
  Pushes c ds before o =
      (done : List Str) × (todo : List Str) × (ds ≡ done ++ todo)
      × (o.pushed ≡ before ++ map (λ d. (d, c)) done)
      × (((todo ≡ []) × (o.ended ≡ ok tt))
          ⊎ ((d : Str) × (rest : List Str) × (todo ≡ d ∷ rest)
              × (o.ended ≢ ok tt)
              × (o.ended ≡ (W.to_url d >>= λ w. W.push w c))))

module _ (W : Writers) where
  push_all-Pushes :
      (c : Config) (ds : List Str) (before : List (Str × Config))
      → Pushes W c ds before (push_all W c ds before)
  unfolding push_all
  push_all-Pushes c [] before = ([], [], refl, sym (append-nil before), inl (refl, refl))
  push_all-Pushes c (d ∷ ds) before =
      let (done, todo, split, pushed, ended) = push_all-Pushes c ds (before ++ (d, c) ∷ []) in
      let refusal : Str → Result (Unit {0}) = λ x. W.to_url x >>= λ w. W.push w c in
      elim (Result-cases (refusal d)) [
        | inl (u, e) ↦
            rw (push_all, e)
              (
                d ∷ done,
                todo,
                ap (λ r. d ∷ r) split,
                pushed ∙ append_assoc before ((d, c) ∷ []) (map (λ x. (x, c)) done),
                ended,
              )
        | inr (inl (error, e)) ↦
            rw (push_all, e)
              ([], d ∷ ds, refl, sym (append-nil before), inr (d, ds, refl, λ h. absurd cc, sym e))
        | inr (inr (text, e)) ↦
            rw (push_all, e)
              ([], d ∷ ds, refl, sym (append-nil before), inr (d, ds, refl, λ h. absurd cc, sym e))
      ]

  push_args-Pushes :
      (c : Config) (args : List Str)
      → (((push_args W c args).pushed ≡ []) × ((push_args W c args).ended ≢ ok tt))
        ⊎ Pushes W c args [] (push_args W c args)
  unfolding push_args
  push_args-Pushes c [] = inl (refl, λ h. absurd cc)
  push_args-Pushes c (d ∷ ds) = inr (push_all-Pushes c (d ∷ ds) [])

module _ (R : Revip) (L : IsRevip R) (W : Writers) (Z : Zerolog) (process : Process) where
  -- `config push` pushes one configuration, complete and with a path of the key, to the
  -- destinations in their order up to the first that refuses it, whose error is the command's, or
  -- to all of them; or it fails and has pushed nothing. revip loads as it documents.
  pub config_push-Pushes :
      (paths : List Str) (flag : Str) (args : List Str)
      → let o = config_push R W Z process paths flag args in
        ((o.pushed ≡ []) × (o.ended ≢ ok tt))
        ⊎ ((c : Config) × (key_path c ≢ []) × (fill c ≡ c) × Pushes W c args [] o)
  unfolding config_push
  config_push-Pushes paths flag args =
      elim (Result-cases (
        with_logger R Z process paths flag >>= λ l.
        load R Z process paths (defaults ∷ validation ∷ []))) [
          | inl (c, e) ↦
              let (l, _, hc) = >>=-eq-ok (with_logger R Z process paths flag) _ e in
              let (whole, given) = load-local R L Z process paths c hc in
              rw (config_push, e)
                (elim (push_args-Pushes W c args) [
                  | inl failed ↦ inl failed
                  | inr pushes ↦ inr (c, given, whole, pushes)
                ])
          | inr (inl (error, e)) ↦ rw (config_push, e) (inl (refl, λ h. absurd cc))
          | inr (inr (text, e)) ↦ rw (config_push, e) (inl (refl, λ h. absurd cc))
        ]
