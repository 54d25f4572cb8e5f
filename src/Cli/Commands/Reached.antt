-- ===== src/Cli/Commands/Reached.antt =====
-- Which actions the words of a command line reach.
use mathlib.Core.Path.{fun_ext}
use gpgfs.Base.{
  subst, sym, ap, ◌∙◌, ◌≡◌, refl, Bool, false, ◌||◌, Option, none, some, List, [], ◌∷◌,
  if◌then◌else◌,
}
use gpgfs.Std.Strings.{Str, codes, same}
use gpgfs.Cli.Commands.{
  Action, config_show_default, config_show, config_validate, config_push, key_convert,
  message_encrypt, message_decrypt, mount, Flag, Commands, no_command, command, commands,
}

abbrev one_of : List Str → Str → Bool
one_of [] w = false
one_of (n ∷ ns) w = same n w || one_of ns w

-- The framework's lookup of a word among commands: the action and the subcommands.
abbrev pub Lookup : Type 0
Lookup = Str → Commands → Option (Option Action × Commands)

-- It gives the first command that has the word as its name or as an alias.
pub record IsLookup (find : Lookup) : Type 0 where
  pub find-none : (w : Str) → find w no_command ≡ none
  pub find-first :
      (w name : Str) (aliases : List Str) (a : Option Action) (fs : List Flag) (sub rest : Commands)
      → find w (command name aliases a fs sub rest)
        ≡ (if one_of (name ∷ aliases) w then some (a, sub) else find w rest)

module _ (find : Lookup) where
  -- The action that the words of a command line reach.
  abbrev pub reach : List Str → Option Action → Commands → Option Action
  reach [] a cs = a
  reach (w ∷ ws) a cs = elim (find w cs) [ none ↦ none | some (b, sub) ↦ reach ws b sub ]

-- The lookup by clauses.
first : Lookup
unfolding same
first w no_command = none
first w (command name aliases a fs sub rest) =
    let later = first w rest in if one_of (name ∷ aliases) w then some (a, sub) else later

-- Where the names of the commands lead, and `m` followed by `e`.
abbrev pub Reaches : Lookup → Type 0
Reaches find =
    let at : List Str → Option Action = λ ws. reach find ws none commands in
    (at (codes "config" ∷ codes "show-default" ∷ []) ≡ some config_show_default)
    × (at (codes "config" ∷ codes "show" ∷ []) ≡ some config_show)
    × (at (codes "config" ∷ codes "validate" ∷ []) ≡ some config_validate)
    × (at (codes "config" ∷ codes "push" ∷ []) ≡ some config_push)
    × (at (codes "key" ∷ codes "convert" ∷ []) ≡ some key_convert)
    × (at (codes "message" ∷ codes "encrypt" ∷ []) ≡ some message_encrypt)
    × (at (codes "message" ∷ codes "decrypt" ∷ []) ≡ some message_decrypt)
    × (at (codes "mount" ∷ []) ≡ some mount)
    × (at (codes "m" ∷ codes "e" ∷ []) ≡ some message_encrypt)

first-Reaches : Reaches first
unfolding first same
first-Reaches = (refl, refl, refl, refl, refl, refl, refl, refl, refl)

module _ (find : Lookup) (L : IsLookup find) where
  find_lem : (w : Str) (cs : Commands) → find w cs ≡ first w cs
  unfolding first
  find_lem w no_command = L.find-none w
  find_lem w (command name aliases a fs sub rest) =
      L.find-first w name aliases a fs sub rest
      ∙ ap (λ r. if one_of (name ∷ aliases) w then some (a, sub) else r) (find_lem w rest)

  find-eq-first : find ≡ first
  find-eq-first = fun_ext (λ w. fun_ext (λ cs. find_lem w cs))

  -- Every action is reached by the names of its command, although `m` is an alias of `message` and
  -- `mount`, and `e` one of `encrypt` and `decrypt`: those reach the former.
  pub reach-commands : Reaches find
  reach-commands = subst Reaches (sym find-eq-first) first-Reaches
