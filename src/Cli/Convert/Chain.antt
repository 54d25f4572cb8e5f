-- ===== src/Cli/Convert/Chain.antt =====
-- What becomes of a chain of keys.
use gpgfs.Base.{
  ℕ, zero, suc, ◌<◌, ◌≡◌, ◌≢◌, refl, none, some, List, [], ◌∷◌, ok, length, arith, Option-cases,
  Result-cases, inl, inr, ◌∙◌, ◌++◌, sym, ap, subst, append-nil, append_assoc, Bool-cases,
  if◌then◌else◌,
}
use gpgfs.Std.Strings.{Str, same}
use gpgfs.Std.Strings.Laws.{same_refl}
use gpgfs.Fuse.Enclave.{Bytes, Enclaves}
use gpgfs.Fuse.Key.OpenPgp.{UserId, Pgp}
use gpgfs.Cli.Host.{Host, System, stream, contents, put, write_output}
use gpgfs.Cli.Convert.{newline, Pem, IsShrinking, converted, print, convert_loop}

-- What stands in the output.
pub shown : Str → Host → Bytes
shown output h = if same output stream then h.stdout else contents (h.files output)

-- The keys with a newline behind each.
unfoldable pub printed : List Bytes → Bytes
printed [] = []
printed (text ∷ texts) = text ++ 10 ∷ printed texts

-- The text was written to the output, and nothing else has changed.
pub record IsPrinted (output : Str) (text : Bytes) (h h' : Host) : Type 0 where
  pub shows : shown output h' ≡ shown output h ++ text
  pub others :
      (name : Str)
      → (if same name output then none else h'.files name)
        ≡ (if same name output then none else h.files name)
  pub stdout :
      (if same output stream then [] else h'.stdout) ≡ (if same output stream then [] else h.stdout)
  pub stdin : h'.stdin ≡ h.stdin

IsPrinted-nil : (output : Str) (h : Host) → IsPrinted output [] h h
IsPrinted-nil output h = record {
  shows = sym (append-nil (shown output h));
  others = λ name. refl;
  stdout = refl;
  stdin = refl;
}

IsPrinted-append :
    (output : Str) (x y : Bytes) (h i j : Host)
    → IsPrinted output x h i
    → IsPrinted output y i j
    → IsPrinted output (x ++ y) h j
IsPrinted-append output x y h i j p q = record {
  shows = q.shows ∙ ap (λ z. z ++ y) p.shows ∙ append_assoc (shown output h) x y;
  others = λ name. q.others name ∙ p.others name;
  stdout = q.stdout ∙ p.stdout;
  stdin = q.stdin ∙ p.stdin;
}

write_output-IsPrinted :
    (output : Str) (text : Bytes) (h : Host) → IsPrinted output text h (write_output output text h)
unfolding write_output shown contents put
write_output-IsPrinted output text h = elim (Bool-cases (same output stream)) [
  | inl e ↦
      rw e (record { shows = rw e refl; others = λ name. refl; stdout = rw e refl; stdin = refl })
  | inr e ↦ rw e (record {
    shows = rw (e, same_refl output) refl;
    others = λ name. elim (Bool-cases (same name output)) [ inl q ↦ rw q refl | inr q ↦ rw q refl ];
    stdout = refl;
    stdin = refl;
  })
]

module _ (P : Pgp) (G : Enclaves) (Y : System) (M : Pem) (uid : UserId) (key_type : Str) where
  -- The keys that the blocks of a text are converted to, in their order.
  pub data Converts : Bytes → List Bytes → Type 0 where
    finished : {chain : Bytes} → M.decode chain ≡ none → Converts chain []
    block :
        {chain rest text : Bytes} {texts : List Bytes} (b : M.Block)
        → M.decode chain ≡ some (b, rest)
        → converted P G Y M uid key_type b ≡ ok text
        → Converts rest texts
        → Converts chain (text ∷ texts)

  print-IsPrinted :
      (output : Str) (text : Bytes) (h : Host)
      → IsPrinted output (text ++ newline) h (print P G Y M uid output text h)
  unfolding print
  print-IsPrinted output text h =
      IsPrinted-append output text newline h (write_output output text h) _
        (write_output-IsPrinted output text h)
        (write_output-IsPrinted output newline (write_output output text h))

  loop_end :
      (fuel : ℕ) (output : Str) (chain : Bytes) (h : Host)
      → M.decode chain ≡ none
      → convert_loop P G Y M uid (suc fuel) key_type output chain h ≡ some (h, ok tt)
  unfolding convert_loop
  loop_end fuel output chain h e = rw (e, convert_loop) refl

  loop_block :
      (fuel : ℕ) (output : Str) (chain rest text : Bytes) (b : M.Block) (h : Host)
      → M.decode chain ≡ some (b, rest)
      → converted P G Y M uid key_type b ≡ ok text
      → convert_loop P G Y M uid (suc fuel) key_type output chain h
        ≡ convert_loop P G Y M uid fuel key_type output rest (print P G Y M uid output text h)
  unfolding convert_loop
  loop_block fuel output chain rest text b h e c = rw (e, convert_loop, c) refl

  -- With more fuel than there are blocks, a chain whose blocks can all be converted is: the loop
  -- returns, and what stands in the output afterwards is what stood there before, with the keys
  -- behind it in the order of their blocks and a newline behind each. It writes nothing else.
  pub convert_loop_lem :
      {chain : Bytes} {texts : List Bytes} (fuel : ℕ) (output : Str) (h : Host)
      → Converts chain texts
      → length texts < fuel
      → (h' : Host) × (convert_loop P G Y M uid fuel key_type output chain h ≡ some (h', ok tt))
        × IsPrinted output (printed texts) h h'
  unfolding printed
  convert_loop_lem zero output h c lt = absurd (omega arith)
  convert_loop_lem {chain} (suc fuel) output h (finished e) lt =
      (h, loop_end fuel output chain h e, IsPrinted-nil output h)
  convert_loop_lem {chain} (suc fuel) output h
        (block {rest = rest} {text = text} {texts = texts} b e c cs) lt =
      let next = print P G Y M uid output text h in
      let (h', ends, p) = convert_loop_lem fuel output next cs (omega arith) in
      (
        h',
        loop_block fuel output chain rest text b h e c ∙ ends,
        subst (λ x. IsPrinted output x h h') (append_assoc text newline (printed texts))
            (IsPrinted-append output (text ++ newline) (printed texts) h next h'
              (print-IsPrinted output text h) p),
      )

  -- The loop ends on every text, however it ends: more fuel than the text has bytes is enough.
  -- What pem leaves behind a block is shorter than what it was given.
  pub convert_loop_total :
      (fuel : ℕ) (output : Str) (chain : Bytes) (h : Host)
      → IsShrinking M
      → length chain < fuel
      → convert_loop P G Y M uid fuel key_type output chain h ≢ none
  unfolding convert_loop
  convert_loop_total zero output chain h s lt = absurd (omega arith)
  convert_loop_total (suc fuel) output chain h s lt = elim (Option-cases (M.decode chain)) [
    | inl e ↦ rw (e, convert_loop) (λ q. cc)
    | inr ((b, rest), e) ↦ elim (Result-cases (converted P G Y M uid key_type b)) [
      | inl (text, c) ↦
          let shorter = s.shorter chain rest b e in
          rw (e, convert_loop, c)
            (convert_loop_total fuel output rest (print P G Y M uid output text h) s (omega arith))
      | inr (inl (x, c)) ↦ rw (e, convert_loop, c) (λ q. cc)
      | inr (inr (m, c)) ↦ rw (e, convert_loop, c) (λ q. cc)
    ]
  ]
