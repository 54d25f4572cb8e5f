-- ===== src/Cli/Wiring/Checks.antt =====
-- Tests that a list of providers fits together, by numbers for the types.
use gpgfs.Base.{
  ℕ, zero, suc, ◌≡◌, ◌≢◌, inl, inr, refl, sym, ap, ◌∙◌, Bool, true, false, not, ◌&&◌, ◌||◌, All,
  List, [], ◌∷◌, ◌==◌, ==_iff, Bool-cases,
}
use gpgfs.Cli.Wiring.{
  Kind, done_ch, cli_context, spew_config, json_encoder, config, logger, rand, registry,
  telemetry_server, wait_group, error_ch, signal_ch, context, fuse, fuse_server, Provider,
}
use gpgfs.Cli.Wiring.Built.{IsGiven, IsClosed, IsFresh}

-- The types by number.
abbrev pub number : Kind → ℕ
number done_ch = 0
number cli_context = 1
number spew_config = 2
number json_encoder = 3
number config = 4
number logger = 5
number rand = 6
number registry = 7
number telemetry_server = 8
number wait_group = 9
number error_ch = 10
number signal_ch = 11
number context = 12
number fuse = 13
number fuse_server = 14

kinds : List Kind
kinds =
    done_ch ∷ cli_context ∷ spew_config ∷ json_encoder ∷ config ∷ logger ∷ rand ∷ registry
    ∷ telemetry_server ∷ wait_group ∷ error_ch ∷ signal_ch ∷ context ∷ fuse ∷ fuse_server ∷ []

pick : List Kind → ℕ → Kind
pick [] n = done_ch
pick (k ∷ ks) zero = k
pick (k ∷ ks) (suc n) = pick ks n

pick-number : (k : Kind) → pick kinds (number k) ≡ k
unfolding pick kinds
pick-number done_ch = refl
pick-number cli_context = refl
pick-number spew_config = refl
pick-number json_encoder = refl
pick-number config = refl
pick-number logger = refl
pick-number rand = refl
pick-number registry = refl
pick-number telemetry_server = refl
pick-number wait_group = refl
pick-number error_ch = refl
pick-number signal_ch = refl
pick-number context = refl
pick-number fuse = refl
pick-number fuse_server = refl

number-injective : (j k : Kind) → number j ≡ number k → j ≡ k
number-injective j k e = sym (pick-number j) ∙ ap (pick kinds) e ∙ pick-number k

-- Values first, and what is made of them later.
abbrev pub rank : Kind → ℕ
rank done_ch = 0
rank cli_context = 0
rank spew_config = 0
rank json_encoder = 0
rank rand = 0
rank registry = 0
rank wait_group = 0
rank error_ch = 0
rank signal_ch = 0
rank config = 1
rank context = 1
rank logger = 2
rank telemetry_server = 3
rank fuse = 3
rank fuse_server = 4

gives : List Provider → Kind → Bool
gives [] k = false
gives (p ∷ ps) k = number p.gives == number k || gives ps k

gives-IsGiven : (ps : List Provider) (k : Kind) → gives ps k ≡ true → IsGiven ps k
unfolding gives
gives-IsGiven [] k e = absurd (cc)
gives-IsGiven (p ∷ ps) k e = elim (Bool-cases (number p.gives == number k)) [
  | inl h ↦ (p, inl refl, number-injective p.gives k ((==_iff _ _).0 h))
  | inr h ↦ let (q, i, g) = gives-IsGiven ps k (rw h at e) in (q, inr i, g)
]

unfoldable pub gives_all : List Provider → List Kind → Bool
unfolding gives
gives_all ps [] = true
gives_all ps (k ∷ ks) = gives ps k && gives_all ps ks

pub gives_all_sound :
    (ps : List Provider) (ks : List Kind) → gives_all ps ks ≡ true → All (IsGiven ps) ks
unfolding gives_all
gives_all_sound ps [] e = tt
gives_all_sound ps (k ∷ ks) e = elim (Bool-cases (gives ps k)) [
  | inl h ↦ (gives-IsGiven ps k h, gives_all_sound ps ks (rw h at e))
  | inr h ↦ let n : false ≡ true = rw h at e in absurd (cc)
]

unfoldable pub closed : List Provider → List Provider → Bool
unfolding gives_all
closed all [] = true
closed all (p ∷ ps) = gives_all all p.needs && closed all ps

pub closed_sound : (all ps : List Provider) → closed all ps ≡ true → IsClosed all ps
unfolding closed
closed_sound all [] e = tt
closed_sound all (p ∷ ps) e = elim (Bool-cases (gives_all all p.needs)) [
  | inl h ↦ (gives_all_sound all p.needs h, closed_sound all ps (rw h at e))
  | inr h ↦ let n : false ≡ true = rw h at e in absurd (cc)
]

gives-fresh :
    (p : Provider) (qs : List Provider)
    → gives qs p.gives ≡ false
    → All (λ (q : Provider). q.gives ≢ p.gives) qs
unfolding gives
gives-fresh p [] e = tt
gives-fresh p (q ∷ qs) e = elim (Bool-cases (number q.gives == number p.gives)) [
  | inl h ↦ let n : true ≡ false = rw h at e in absurd (cc)
  | inr h ↦ (
    λ same.
        let t : (number q.gives == number p.gives) ≡ true = (==_iff _ _).1 (ap number same) in
        absurd (cc),
    gives-fresh p qs (rw h at e),
  )
]

unfoldable pub fresh : List Provider → List Provider → Bool
unfolding gives
fresh [] qs = true
fresh (p ∷ ps) qs = not (gives qs p.gives) && fresh ps (p ∷ qs)

pub fresh_sound : (ps qs : List Provider) → fresh ps qs ≡ true → IsFresh ps qs
unfolding fresh
fresh_sound [] qs e = tt
fresh_sound (p ∷ ps) qs e = elim (Bool-cases (gives qs p.gives)) [
  | inl h ↦ let n : false ≡ true = rw h at e in absurd (cc)
  | inr h ↦ (gives-fresh p qs h, fresh_sound ps (p ∷ qs) (rw h at e))
]
