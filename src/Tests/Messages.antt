-- ===== src/Tests/Messages.antt =====
-- Keys and messages, by the functions and by the actions of the command line.
use gpgfs.Base.{ℕ, ◌≡◌, ◌≢◌, ◌<◌, refl, true, Option, none, some, [], ◌∷◌, ok, length, arith, new}
use gpgfs.Std.Strings.{codes, same}
use gpgfs.Fuse.Enclave.{Bytes, locked, LockedBuffer, open_pointer}
use gpgfs.Fuse.Key.OpenPgp.{UserId}
use gpgfs.Fuse.Key.{Entity, key_format_ssh, key_type_private, key_format_ctor, new_key, encrypt}
use gpgfs.Fuse.Key.Conversion.{IsEntityOf, IsArmoredKey, new_key-eq-ok}
use gpgfs.Fuse.Key.Messages.{IsPrivateKeyBuffer}
use gpgfs.Cli.Host.{Host, System, stream, put}
use gpgfs.Cli.Message.{message_encrypt, message_decrypt}
use gpgfs.Cli.Message.RoundTrip.{
  IsKeyFile, AreApart, message_decrypt-message_encrypt, message_encrypt-same,
}
use gpgfs.Cli.Convert.{Pem, IsShrinking, converted, convert_loop}
use gpgfs.Cli.Convert.Chain.{
  Converts, finished, block, IsPrinted, printed, convert_loop_lem, convert_loop_total,
}
use gpgfs.Tests.World.{memory, tagging, tagging-IsPublicKeyCrypto}

abbrev pub uid : UserId
uid = record { id = codes "root" }

-- The key that the raw text 9 stands for, in its armor.
abbrev armor : Bytes
armor = 45 ∷ 9 ∷ []

makes : new_key tagging memory key_format_ssh uid key_type_private (9 ∷ []) ≡ ok (some armor)
unfolding new_key key_format_ctor same
makes = refl

new_key-eq-ok_example :
    (key_format_ssh ≡ key_format_ssh)
    × (x : Entity tagging) × IsEntityOf tagging uid (9 ∷ []) x
    × (out : Bytes) × IsArmoredKey tagging uid (9 ∷ []) key_type_private x out
    × (some armor ≡ memory.new_enclave out)
new_key-eq-ok_example =
    new_key-eq-ok tagging memory key_format_ssh uid key_type_private (9 ∷ []) (some armor) makes

abbrev pub system : System
system = record { unreadable = λ name. new "no such file" []; creatable = λ name. none }

abbrev pub empty_host : Host
empty_host = record { files = λ name. none; stdin = []; stdout = [] }

-- The key in the file `k`, a message in the file `m`.
abbrev host : Host
host = put (codes "k") (9 ∷ []) (put (codes "m") (104 ∷ []) empty_host)

abbrev pub buffer : LockedBuffer
buffer = locked armor

host-IsKeyFile : IsKeyFile tagging memory uid host (codes "k") buffer
unfolding put new_key key_format_ctor same open_pointer
host-IsKeyFile = record { raw = 9 ∷ []; held = refl; opens = refl }

pub buffer-IsPrivateKeyBuffer : IsPrivateKeyBuffer tagging buffer true true
buffer-IsPrivateKeyBuffer = record { parsed = refl; private = refl; ring = refl }

apart : AreApart system (codes "k") (codes "m") (codes "c") (codes "o")
apart = record {
  input_named = λ e. ground arith;
  middle_named = λ e. ground arith;
  output_named = λ e. ground arith;
  input_middle = λ e. ground arith;
  middle_output = λ e. ground arith;
  key_middle = λ e. ground arith;
  key_output = λ e. ground arith;
  makes_middle = refl;
  makes_output = refl;
}

message_there : host.files (codes "m") ≡ some (104 ∷ [])
unfolding put same
message_there = refl

buffer_encrypts : encrypt tagging buffer (104 ∷ []) ≡ ok (1 ∷ 104 ∷ [])
unfolding encrypt
buffer_encrypts = refl

buffer_encrypts_empty : encrypt tagging buffer [] ≡ ok (1 ∷ [])
unfolding encrypt
buffer_encrypts_empty = refl

message_decrypt-message_encrypt_example :
    let (h1, r1) =
      message_encrypt tagging memory system uid host (codes "k") (codes "m") (codes "c") in
    let (h2, r2) =
      message_decrypt tagging memory system uid h1 (codes "k") (codes "c") (codes "o") in
    (r1 ≡ ok tt)
    × (r2 ≡ ok tt)
    × (h1.files (codes "c") ≡ some (1 ∷ 104 ∷ []))
    × (h2.files (codes "o") ≡ some (104 ∷ []))
message_decrypt-message_encrypt_example =
    message_decrypt-message_encrypt tagging memory system uid host (codes "k") (codes "m")
      (codes "c") (codes "o") (104 ∷ []) (1 ∷ 104 ∷ []) buffer true true tagging-IsPublicKeyCrypto
      buffer-IsPrivateKeyBuffer host-IsKeyFile apart message_there buffer_encrypts

message_encrypt-same_example :
    let (h1, r1) =
      message_encrypt tagging memory system uid host (codes "k") (codes "m") (codes "m") in
    (r1 ≡ ok tt) × (h1.files (codes "m") ≡ some (1 ∷ []))
message_encrypt-same_example =
    message_encrypt-same tagging memory system uid host (codes "k") (codes "m") (104 ∷ []) (1 ∷ [])
      buffer host-IsKeyFile apart.input_named (λ e. ground arith) message_there refl
      buffer_encrypts_empty

-- Every byte is a block.
abbrev next_byte : Bytes → Option (ℕ × Bytes)
next_byte [] = none
next_byte (b ∷ rest) = some (b, rest)

abbrev bytewise : Pem
bytewise = record { Block = ℕ; decode = next_byte; encode_to_memory = λ b. b ∷ [] }

converts :
    Converts tagging memory system bytewise uid key_type_private
      (3 ∷ 4 ∷ [])
      ((45 ∷ 3 ∷ []) ∷ (45 ∷ 4 ∷ []) ∷ [])
unfolding converted new_key key_format_ctor same open_pointer
converts = block 3 refl refl (block 4 refl refl (finished refl))

convert_loop_lem_example :
    (h : Host) × (convert_loop tagging memory system bytewise uid 5 key_type_private stream
        (3 ∷ 4 ∷ [])
        host
      ≡ some (h, ok tt))
    × IsPrinted stream (45 ∷ 3 ∷ 10 ∷ 45 ∷ 4 ∷ 10 ∷ []) host h
unfolding printed
convert_loop_lem_example =
    convert_loop_lem tagging memory system bytewise uid key_type_private 5 stream host converts
      (omega arith)

shorter :
    (chain rest : Bytes) (b : ℕ) → next_byte chain ≡ some (b, rest) → length rest < length chain
shorter [] rest b e = cc
shorter (c ∷ cs) rest b e = let same : cs ≡ rest = cc in rw (← same) (omega arith)

bytewise-IsShrinking : IsShrinking bytewise
bytewise-IsShrinking = record { shorter = shorter }

convert_loop_total_example :
    convert_loop tagging memory system bytewise uid 5 key_type_private stream (3 ∷ 4 ∷ []) host
    ≢ none
convert_loop_total_example =
    convert_loop_total tagging memory system bytewise uid key_type_private 5 stream (3 ∷ 4 ∷ [])
      host bytewise-IsShrinking (omega arith)
