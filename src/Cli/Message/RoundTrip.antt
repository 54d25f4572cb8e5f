-- ===== src/Cli/Message/RoundTrip.antt =====
-- Encrypting a file and decrypting the result, by the two actions.
use gpgfs.Base.{◌≡◌, refl, ◌≢◌, none, some, [], ok, ◌>>=◌, ◌∙◌}
use gpgfs.Std.Strings.{Str}
use gpgfs.Fuse.Enclave.{Bytes, LockedBuffer, Enclaves, open_pointer}
use gpgfs.Fuse.Key.OpenPgp.{UserId, Pgp, IsPublicKeyCrypto}
use gpgfs.Fuse.Key.{key_format_ssh, key_type_private, new_key, encrypt, decrypt}
use gpgfs.Fuse.Key.Messages.{IsPrivateKeyBuffer, decrypt-encrypt}
use gpgfs.Cli.Host.{
  Host, System, stream, put, put_self, put_ne, read_file_lem, open_input_lem, open_output_lem,
  read_all_lem, write_output-put,
}
use gpgfs.Cli.Message.{unlock, encrypted, decrypted, write_result, message_encrypt, message_decrypt}

-- The key at the path, from its raw text, is the private key in the buffer.
pub record IsKeyFile (P : Pgp) (G : Enclaves) (uid : UserId) (h : Host) (key : Str)
    (buf : LockedBuffer) : Type 0 where
  pub raw : Bytes
  pub held : h.files key ≡ some raw
  pub opens :
      (new_key P G key_format_ssh uid key_type_private raw >>= λ e. open_pointer G e) ≡ ok buf

module _ (P : Pgp) (G : Enclaves) (Y : System) (uid : UserId) where
  unlock_lem :
      (h : Host) (key : Str) (buf : LockedBuffer)
      → IsKeyFile P G uid h key buf
      → unlock P G Y uid h key ≡ ok buf
  unfolding unlock
  unlock_lem h key buf k = rw (read_file_lem Y h key k.raw k.held) k.opens

  -- Making another file leaves the key as it is.
  IsKeyFile-put :
      (h : Host) (key name : Str) (b : Bytes) (buf : LockedBuffer)
      → key ≢ name
      → IsKeyFile P G uid h key buf
      → IsKeyFile P G uid (put name b h) key buf
  IsKeyFile-put h key name b buf ne k = record {
    raw = k.raw;
    held = put_ne name key b h ne ∙ k.held;
    opens = k.opens;
  }

  module _ (h : Host) (key input output : Str) (text out : Bytes) (buf : LockedBuffer)
      (k : IsKeyFile P G uid h key buf) (named : input ≢ stream) (named' : output ≢ stream)
      (apart : input ≢ output) (apart' : key ≢ output) (there : h.files input ≡ some text)
      (makes : Y.creatable output ≡ none) where
    pub message_encrypt_lem :
        encrypt P buf text ≡ ok out
        → message_encrypt P G Y uid h key input output ≡ (put output out (put output [] h), ok tt)
    unfolding message_encrypt encrypted write_result
    message_encrypt_lem e =
        rw
          (
            open_input_lem Y h input text named there,
            open_output_lem Y h output named' makes,
            message_encrypt,
            unlock_lem (put output [] h) key buf (IsKeyFile-put h key output [] buf apart' k),
            read_all_lem (put output [] h) input text named
                (put_ne output input [] h apart ∙ there),
            e,
            write_result,
            write_output-put h output out named',
          )
          refl

    message_decrypt_lem :
        decrypt P buf text ≡ ok out
        → message_decrypt P G Y uid h key input output ≡ (put output out (put output [] h), ok tt)
    unfolding message_decrypt decrypted write_result
    message_decrypt_lem e =
        rw
          (
            open_input_lem Y h input text named there,
            open_output_lem Y h output named' makes,
            message_decrypt,
            unlock_lem (put output [] h) key buf (IsKeyFile-put h key output [] buf apart' k),
            read_all_lem (put output [] h) input text named
                (put_ne output input [] h apart ∙ there),
            e,
            write_result,
            write_output-put h output out named',
          )
          refl

-- Four files on which the two actions can run one after the other.
pub record AreApart (Y : System) (key input middle output : Str) : Type 0 where
  pub input_named : input ≢ stream
  pub middle_named : middle ≢ stream
  pub output_named : output ≢ stream
  pub input_middle : input ≢ middle
  pub middle_output : middle ≢ output
  pub key_middle : key ≢ middle
  pub key_output : key ≢ output
  pub makes_middle : Y.creatable middle ≡ none
  pub makes_output : Y.creatable output ≡ none

-- Encrypting a file with a private key and decrypting the result with the same key, both into
-- files of their own that can be made, returns, and the last file holds the text of the first one,
-- provided that the message can be encrypted at all. OpenPGP decrypts with the private key what is
-- encrypted to its public part.
pub message_decrypt-message_encrypt :
    (P : Pgp) (G : Enclaves) (Y : System) (uid : UserId) (h : Host) (key input middle output : Str)
    (text c : Bytes) (buf : LockedBuffer) (x : P.Key) (opening : P.KeyRing)
    → IsPublicKeyCrypto P
    → IsPrivateKeyBuffer P buf x opening
    → IsKeyFile P G uid h key buf
    → AreApart Y key input middle output
    → h.files input ≡ some text
    → encrypt P buf text ≡ ok c
    → let (h1, r1) = message_encrypt P G Y uid h key input middle in
      let (h2, r2) = message_decrypt P G Y uid h1 key middle output in
      (r1 ≡ ok tt) × (r2 ≡ ok tt) × (h1.files middle ≡ some c) × (h2.files output ≡ some text)
message_decrypt-message_encrypt P G Y uid h key input middle output text c buf x opening C b k a
      there e =
    let h1 = put middle c (put middle [] h) in
    let k1 =
      IsKeyFile-put P G Y uid (put middle [] h) key middle c buf a.key_middle
        (IsKeyFile-put P G Y uid h key middle [] buf a.key_middle k) in
    let held = put_self middle c (put middle [] h) in
    let first =
      message_encrypt_lem P G Y uid h key input middle text c buf k a.input_named a.middle_named
        a.input_middle a.key_middle there a.makes_middle e in
    let second =
      message_decrypt_lem P G Y uid h1 key middle output c text buf k1 a.middle_named a.output_named
        a.middle_output a.key_output held a.makes_output
        (decrypt-encrypt P buf x opening C b text c e) in
    rw (first, second) (refl, refl, held, put_self output text (put output [] h1))

-- Encrypting a file into itself, with a key from another file, loses its text: the output is
-- emptied before the input is read, and what stands there afterwards is the encryption of the
-- empty message.
pub message_encrypt-same :
    (P : Pgp) (G : Enclaves) (Y : System) (uid : UserId) (h : Host) (key file : Str)
    (text c : Bytes) (buf : LockedBuffer)
    → IsKeyFile P G uid h key buf
    → file ≢ stream
    → key ≢ file
    → h.files file ≡ some text
    → Y.creatable file ≡ none
    → encrypt P buf [] ≡ ok c
    → let (h1, r1) = message_encrypt P G Y uid h key file file in
      (r1 ≡ ok tt) × (h1.files file ≡ some c)
unfolding message_encrypt encrypted write_result
message_encrypt-same P G Y uid h key file text c buf k named apart there makes e =
    rw
      (
        open_input_lem Y h file text named there,
        open_output_lem Y h file named makes,
        message_encrypt,
        unlock_lem P G Y uid (put file [] h) key buf
            (IsKeyFile-put P G Y uid h key file [] buf apart k),
        read_all_lem (put file [] h) file [] named (put_self file [] h),
        e,
        write_result,
        write_output-put h file c named,
      )
      (refl, put_self file c (put file [] h))
