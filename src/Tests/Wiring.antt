-- ===== src/Tests/Wiring.antt =====
-- A container that is the list of its constructors.
use gpgfs.Base.{◌≡◌, refl, true, false, List, [], ◌∷◌, ok}
use gpgfs.Cli.Wiring.{
  Provider, Dig, before_providers, profiler_needs, loop_needs, before, mount, Action, action_needs,
}
use gpgfs.Cli.Wiring.Built.{BuildsAll, IsDig, taught}
use gpgfs.Cli.Wiring.Resolved.{mount_wired}

abbrev listed : Dig
listed = record {
  Container = List Provider;
  new = [];
  provide = λ p c. ok (p ∷ c);
  invoke = λ ks c. ok c;
}

listed-IsDig : IsDig listed
listed-IsDig = record {
  known = λ c. c;
  new-known = refl;
  provide-ok = λ p c rank fresh ranked. (p ∷ c, refl, refl);
  invoke-known = λ ks c d e. let same : ok c ≡ ok d = e in cc;
}

abbrev begun : List Provider
unfolding before_providers
begun = taught before_providers []

begins : before listed true false ≡ ok begun
unfolding before begun
begins = refl

mount_wired_example :
    (b : List Provider) × (before listed false false ≡ ok b)
    × (d : List Provider) × (mount listed begun ≡ ok d)
    × BuildsAll d loop_needs
    × BuildsAll begun profiler_needs
    × ((a : Action) → BuildsAll begun (action_needs a))
unfolding listed-IsDig
mount_wired_example = mount_wired listed listed-IsDig true false begun begins
