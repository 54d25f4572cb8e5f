-- ===== src/Fuse/Key/DefaultUid.antt =====
-- pkg/fuse/key.go: the user id of the keys that are made, which `init` sets.
use gpgfs.Base.{
  ◌≡◌, ◌≢◌, Bool, false, ◌||◌, ◌==◌, wrapping, ok-injective, sym, ◌∙◌, subst, true, Option, none,
  some, Result, ok, err, panic, ◌>>=◌, >>=-eq-ok, [], ◌∷◌, ◌++◌,
}
use gpgfs.Std.Strings.{Str, codes}
use gpgfs.Fuse.Enclave.{Bytes}
use gpgfs.Fuse.Key.{armor_block_type, key_pair, new_key_from_ssh}
use gpgfs.Fuse.Key.OpenPgp.{UserId, Pgp}

-- `packet.NewUserId`, of a name, a comment and an address; nil is `none`.
abbrev pub NewUserId : Type 0
NewUserId = Str → Str → Str → Option UserId

-- "The invalid characters are '\x00', '(', ')', '<' and '>'."
abbrev pub has_invalid : Str → Bool
has_invalid [] = false
has_invalid (c ∷ s) = c == 0 || c == 40 || c == 41 || c == 60 || c == 62 || has_invalid s

-- "NewUserId returns a User ID packet, or nil if any of the arguments contain invalid characters."
pub record IsNewUserId (new_user_id : NewUserId) : Type 0 where
  pub nil :
      (name comment email : Str) → has_invalid email ≡ true → new_user_id name comment email ≡ none

-- `init`, for what `os.Hostname` has returned.
unfoldable pub default_key_uid : NewUserId → Result Str → Result (Option UserId)
default_key_uid new_user_id (ok hostname) =
    ok (new_user_id (codes "root") (codes "gpgfs fuse key") (codes "root@" ++ hostname))
default_key_uid new_user_id (err e) = panic "hostname"
default_key_uid new_user_id (panic m) = panic m

module _ (P : Pgp) where
  -- `NewKeyFromSSH` with the pointer to the user id, which it follows once the key is read.
  unfoldable pub new_key_from_ssh_by : Option UserId → Str → Bytes → Result Bytes
  unfolding new_key_from_ssh
  new_key_from_ssh_by (some uid) key_type raw = new_key_from_ssh P uid key_type raw
  new_key_from_ssh_by none key_type raw = do
    block ← armor_block_type key_type
    key ← wrapping "failed to parse private ssh key" [] (P.parse_raw_private_key raw)
    pair ← key_pair P key
    panic "invalid memory address or nil pointer dereference"

  -- Without a user id no key is made.
  new_key_from_ssh_by-none :
      (key_type : Str) (raw out : Bytes) → new_key_from_ssh_by none key_type raw ≢ ok out
  unfolding new_key_from_ssh_by
  new_key_from_ssh_by-none key_type raw out h =
      let (block, _, h1) = >>=-eq-ok (armor_block_type key_type) _ h in
      let (key, _, h2) =
        >>=-eq-ok (wrapping "failed to parse private ssh key" [] (P.parse_raw_private_key raw)) _
          h1 in
      let (pair, _, h3) = >>=-eq-ok (key_pair P key) _ h2 in cc

  -- On a host whose name has a character that a user id cannot have, the user id that `init` sets is
  -- nil, and no SSH key is ever converted.
  pub invalid_hostname :
      (new_user_id : NewUserId) (hostname key_type : Str) (raw out : Bytes) (uid : Option UserId)
      → IsNewUserId new_user_id
      → has_invalid hostname ≡ true
      → default_key_uid new_user_id (ok hostname) ≡ ok uid
      → new_key_from_ssh_by uid key_type raw ≢ ok out
  unfolding default_key_uid
  invalid_hostname new_user_id hostname key_type raw out uid L bad made h =
      let gone : none ≡ uid =
        sym (L.nil (codes "root") (codes "gpgfs fuse key") (codes "root@" ++ hostname) bad)
        ∙ ok-injective made in
      new_key_from_ssh_by-none key_type raw out
        (subst (λ u. new_key_from_ssh_by u key_type raw ≡ ok out) (sym gone) h)
