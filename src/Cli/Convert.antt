-- ===== src/Cli/Convert.antt =====
-- cli/cli.go: KeyConvertAction.
pub mod Chain
use gpgfs.Base.{
  ℕ, zero, suc, ◌<◌, ◌≡◌, length, Option, none, some, List, [], ◌∷◌, Result, ok, err, panic, ◌>>=◌,
  ◌>>◌,
}
use gpgfs.Std.Strings.{Str}
use gpgfs.Fuse.Enclave.{Bytes, Enclaves, open_pointer}
use gpgfs.Fuse.Key.OpenPgp.{UserId, Pgp}
use gpgfs.Fuse.Key.{key_format_ssh, new_key}
use gpgfs.Cli.Host.{Host, System, open_input, open_output, read_all, write_output}

-- The package pem: `Decode` finds the next block and what is behind it.
pub record Pem : Type 1 where
  pub Block : Type 0
  pub decode : Bytes → Option (Block × Bytes)
  pub encode_to_memory : Block → Bytes

-- "The remainder of the input" is shorter than the input.
pub record IsShrinking (M : Pem) : Type 0 where
  pub shorter :
      (chain rest : Bytes) (b : M.Block)
      → M.decode chain ≡ some (b, rest)
      → length rest < length chain

abbrev pub newline : Bytes
newline = 10 ∷ []

module _ (P : Pgp) (G : Enclaves) (Y : System) (M : Pem) (uid : UserId) where
  -- The converted key of a block.
  unfoldable pub converted : Str → M.Block → Result Bytes
  converted key_type block = do
    enclave ← new_key P G key_format_ssh uid key_type (M.encode_to_memory block)
    buf ← open_pointer G enclave
    ok buf.bytes

  -- The key and a newline, printed to the output.
  unfoldable pub print : Str → Bytes → Host → Host
  unfolding write_output
  print output text h = write_output output newline (write_output output text h)

  -- The jumps to the label `next`, on fuel: `none` is that there is not enough.
  unfoldable pub convert_loop : ℕ → Str → Str → Bytes → Host → Option (Host × Result (Unit {0}))
  unfolding converted print
  convert_loop zero key_type output chain h = none
  convert_loop (suc fuel) key_type output chain h = elim (M.decode chain) [
    | none ↦ some (h, ok tt)
    | some (block, rest) ↦ elim (converted key_type block) [
      | ok text ↦ convert_loop fuel key_type output rest (print output text h)
      | err e ↦ some (h, err e)
      | panic m ↦ some (h, panic m)
    ]
  ]

  -- `KeyConvertAction`
  unfoldable pub key_convert : ℕ → Host → Str → Str → Str → Option (Host × Result (Unit {0}))
  unfolding convert_loop open_input open_output read_all
  key_convert fuel h key_type input output = elim (open_input Y h input >> open_output Y h output) [
    | ok h1 ↦ convert_loop fuel key_type output (read_all h1 input) h1
    | err e ↦ some (h, err e)
    | panic m ↦ some (h, panic m)
  ]
