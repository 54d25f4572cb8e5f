-- ===== src/Cli/Message.antt =====
-- cli/cli.go: MessageEncryptAction and MessageDecryptAction.
pub mod RoundTrip
pub mod Mounted
use gpgfs.Base.{Option, Result, ok, err, panic, ◌>>=◌, ◌>>◌}
use gpgfs.Std.Strings.{Str}
use gpgfs.Fuse.Enclave.{Bytes, LockedBuffer, Enclaves, open_pointer}
use gpgfs.Fuse.Key.OpenPgp.{UserId, Pgp}
use gpgfs.Fuse.Key.{key_format_ssh, key_type_private, new_key, encrypt, decrypt}
use gpgfs.Cli.Host.{Host, System, read_file, open_input, open_output, read_all, write_output}

module _ (P : Pgp) (G : Enclaves) (Y : System) (uid : UserId) where
  -- The private key of the SSH key at the path, in its buffer.
  unfoldable pub unlock : Host → Str → Result LockedBuffer
  unfolding read_file
  unlock h key = do
    raw ← read_file Y h key
    enclave ← new_key P G key_format_ssh uid key_type_private raw
    open_pointer G enclave

  encrypted : Host → Str → Str → Result Bytes
  unfolding unlock read_all encrypt
  encrypted h key input = do buf ← unlock h key; encrypt P buf (read_all h input)

  decrypted : Host → Str → Str → Result Bytes
  unfolding unlock read_all decrypt
  decrypted h key input = do buf ← unlock h key; decrypt P buf (read_all h input)

  -- The last write, if what goes before it returns.
  write_result : Host → Str → Result Bytes → Host × Result (Unit {0})
  unfolding write_output
  write_result h output (ok b) = (write_output output b h, ok tt)
  write_result h output (err e) = (h, err e)
  write_result h output (panic m) = (h, panic m)

  -- `MessageEncryptAction`: the input and the output are opened first.
  unfoldable pub message_encrypt : Host → Str → Str → Str → Host × Result (Unit {0})
  unfolding open_input open_output encrypted write_result
  message_encrypt h key input output = elim (open_input Y h input >> open_output Y h output) [
    | ok h1 ↦ write_result h1 output (encrypted h1 key input)
    | err e ↦ (h, err e)
    | panic m ↦ (h, panic m)
  ]

  -- `MessageDecryptAction`
  unfoldable pub message_decrypt : Host → Str → Str → Str → Host × Result (Unit {0})
  unfolding open_input open_output decrypted write_result
  message_decrypt h key input output = elim (open_input Y h input >> open_output Y h output) [
    | ok h1 ↦ write_result h1 output (decrypted h1 key input)
    | err e ↦ (h, err e)
    | panic m ↦ (h, panic m)
  ]
