-- ===== src/Cli/Wiring/Resolved.antt =====
-- The providers of cli/cli.go fit together.
use gpgfs.Base.{
  ok-injective, >>=-of_ok, ◌≡◌, refl, sym, ap, ◌∙◌, subst, Bool, true, false, List, [], ok,
  >>=-eq-ok, if◌then◌else◌, arith,
}
use gpgfs.Cli.Wiring.{
  Kind, Provider, Dig, provide_all, before_providers, mount_providers, profiler_needs, loop_needs,
  before, mount, Action, action_needs, config_show, config_validate, config_push, key_convert,
  message_encrypt, message_decrypt,
}
use gpgfs.Cli.Wiring.Built.{
  BuildsAll, IsRanked, given-Builds, IsDig, taught, IsFresh, provide_all-ok,
}
use gpgfs.Cli.Wiring.Checks.{
  rank, fresh, fresh_sound, closed, closed_sound, gives_all, gives_all_sound,
}

abbrev early : List Provider
unfolding before_providers
early = taught before_providers []

abbrev all : List Provider
unfolding mount_providers before_providers
all = taught mount_providers early

before-IsRanked : IsRanked rank before_providers
unfolding before_providers
before-IsRanked = ground arith

mount-IsRanked : IsRanked rank mount_providers
unfolding mount_providers
mount-IsRanked = ground arith

early-IsRanked : IsRanked rank early
unfolding before_providers early
early-IsRanked = ground arith

all-IsRanked : IsRanked rank all
unfolding before_providers mount_providers all early
all-IsRanked = ground arith

before-IsFresh : IsFresh before_providers []
before-IsFresh = fresh_sound before_providers [] (unfold fresh before_providers in refl)

mount-IsFresh : IsFresh mount_providers early
mount-IsFresh =
    fresh_sound mount_providers early (unfold fresh mount_providers early before_providers in refl)

early-BuildsAll : (ks : List Kind) → gives_all early ks ≡ true → BuildsAll early ks
unfolding before_providers early closed
early-BuildsAll ks h =
    given-Builds rank early early-IsRanked (closed_sound early early refl) ks
      (gives_all_sound early ks h)

action-BuildsAll : (a : Action) → BuildsAll early (action_needs a)
unfolding before_providers early gives_all action_needs
action-BuildsAll config_show = early-BuildsAll (action_needs config_show) refl
action-BuildsAll config_validate = early-BuildsAll (action_needs config_validate) refl
action-BuildsAll config_push = early-BuildsAll (action_needs config_push) refl
action-BuildsAll key_convert = early-BuildsAll (action_needs key_convert) refl
action-BuildsAll message_encrypt = early-BuildsAll (action_needs message_encrypt) refl
action-BuildsAll message_decrypt = early-BuildsAll (action_needs message_decrypt) refl

profilers-BuildsAll : BuildsAll early profiler_needs
unfolding before_providers early gives_all
profilers-BuildsAll = early-BuildsAll profiler_needs refl

loop-BuildsAll : BuildsAll all loop_needs
unfolding before_providers mount_providers early all closed gives_all
loop-BuildsAll =
    given-Builds rank all all-IsRanked (closed_sound all all refl) loop_needs
      (gives_all_sound all loop_needs refl)

module _ (D : Dig) (L : IsDig D) where
  flagged-known :
      (flag : Bool) (ks : List Kind) (c d : D.Container)
      → (if flag then D.invoke ks c else ok c) ≡ ok d
      → L.known d ≡ L.known c
  flagged-known true ks c d e = L.invoke-known ks c d e
  flagged-known false ks c d e = ap L.known (sym (ok-injective e))

  taught_before :
      (d : D.Container) × (provide_all D before_providers D.new ≡ ok d) × (L.known d ≡ early)
  unfolding early before_providers
  taught_before =
      provide_all-ok D L rank before_providers [] D.new L.new-known before-IsFresh before-IsRanked
        tt

  before-known :
      (profile trace : Bool) (c : D.Container) → before D profile trace ≡ ok c → L.known c ≡ early
  unfolding before
  before-known profile trace c h =
      let (c0, h0, h1) = >>=-eq-ok (provide_all D before_providers D.new) _ h in
      let (c1, h2, h3) = >>=-eq-ok (if profile then D.invoke profiler_needs c0 else ok c0) _ h1 in
      let (d, made, known) = taught_before in
      let same : d ≡ c0 = ok-injective (sym made ∙ h0) in
      flagged-known trace profiler_needs c1 c h3
      ∙ flagged-known profile profiler_needs c0 c1 h2
      ∙ ap L.known (sym same)
      ∙ known

  -- The container takes every constructor that `Before` gives it, so that without the flags of the
  -- profilers `Before` returns. Whenever it has returned, the container also takes the constructors of
  -- MountAction, and can then build each value that the function with the event loop asks for; what
  -- the profilers and the actions of the other commands ask for, it can build before. The container behaves as dig documents.
  pub mount_wired :
      (profile trace : Bool) (c : D.Container)
      → before D profile trace ≡ ok c
      → (b : D.Container) × (before D false false ≡ ok b)
        × (d : D.Container) × (mount D c ≡ ok d)
        × BuildsAll (L.known d) loop_needs
        × BuildsAll (L.known c) profiler_needs
        × ((a : Action) → BuildsAll (L.known c) (action_needs a))
  unfolding mount before
  mount_wired profile trace c h =
      let known = before-known profile trace c h in
      let (b, made, _) = taught_before in
      let (d, taken, more) =
        provide_all-ok D L rank mount_providers early c known mount-IsFresh mount-IsRanked
          early-IsRanked in
      (
        b,
        >>=-of_ok _ made,
        d,
        taken,
        subst (λ ps. BuildsAll ps loop_needs) (sym more) loop-BuildsAll,
        subst (λ ps. BuildsAll ps profiler_needs) (sym known) profilers-BuildsAll,
        λ a. subst (λ ps. BuildsAll ps (action_needs a)) (sym known) (action-BuildsAll a),
      )
