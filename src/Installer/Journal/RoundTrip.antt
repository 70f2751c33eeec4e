-- ===== src/Installer/Journal/RoundTrip.antt =====
-- What the journal of src/installer/install_transaction.c keeps of a plan.
use moxa_4vrs_gateway.Prelude.{
  bytes, ℕ, ◌+◌, ◌-◌, ◌≤◌, ◌<◌, ◌≡◌, refl, inl, inr, Bool, true, not, ◌&&◌, ◌||◌, some, List, [],
  ◌∷◌, ◌++◌, append_assoc, arith, ltb, Bool-cases, Option-cases, length, take, length-append,
  take-append, drop-append, All,
}
use moxa_4vrs_gateway.Gateway.Config.{same_text}
use moxa_4vrs_gateway.Installer.Digest.{install_digest_hex, length-install_digest_hex}
use moxa_4vrs_gateway.Installer.Journal.{
  InstallFile, InstallMember, InstallPlan, file_limit, path_limit, magic, put, get, valid_file,
  put_file, put_member, put_members, member_encodes, measure, body, encode, get_file, path_accepted,
  get_files, get_member, get_members, decode_body, decode, install_members,
}

get-put : (n : ℕ) (xs : List ℕ) → n < 4294967296 → get (put n ++ xs) ≡ n
get-put n xs h = omega (arith, h)

valid_file-size : (f : InstallFile) → valid_file f ≡ true → length f.content ≤ file_limit
unfolding valid_file
valid_file-size f h = ground (arith, h)

valid_file-kind : (f : InstallFile) → valid_file f ≡ true → f.kind ≤ 2
unfolding valid_file
valid_file-kind f h = ground (arith, h)

valid_file-mode : (f : InstallFile) → valid_file f ≡ true → f.mode < 512
unfolding valid_file
valid_file-mode f h = ground (arith, h)

get_file-put :
    (f : InstallFile) (xs : List ℕ)
    → valid_file f ≡ true
    → get_file (put_file f ++ xs) ≡ some (f, xs)
unfolding get_file put_file
get_file-put f xs h =
    let size = get-put (length f.content) (f.content ++ xs) (omega (arith, valid_file-size f h)) in
    let kind = get-put f.kind [] (omega (arith, valid_file-kind f h)) in
    let mode = get-put f.mode [] (omega (arith, valid_file-mode f h)) in
    rw (size, kind, mode, take-append f.content xs, drop-append f.content xs, h)
      (ground (arith, length-append f.content xs, valid_file-size f h))

member_encodes-before : (m : InstallMember) → member_encodes m ≡ true → valid_file m.before ≡ true
unfolding member_encodes
member_encodes-before m h = ground (arith, h)

member_encodes-after : (m : InstallMember) → member_encodes m ≡ true → valid_file m.after ≡ true
unfolding member_encodes
member_encodes-after m h = ground (arith, h)

member_encodes-path :
    (m : InstallMember)
    → member_encodes m ≡ true
    → (0 < length m.path) × (length m.path ≤ path_limit)
unfolding member_encodes
member_encodes-path m h = (ground (arith, h), ground (arith, h))

get_files-put :
    (m : InstallMember) (xs : List ℕ)
    → member_encodes m ≡ true
    → get_files m.path m.compact_flash ((put_file m.before ++ put_file m.after) ++ xs)
      ≡ some (m, xs)
unfolding get_files
get_files-put m xs h =
    rw
      (
        append_assoc (put_file m.before) (put_file m.after) xs,
        get_file-put m.before (put_file m.after ++ xs) (member_encodes-before m h),
        get_file-put m.after xs (member_encodes-after m h),
        get_files,
      )
      refl

-- The paths and the flags that `decode` takes, with the paths before them.
unfoldable pub members_accepted : (List ℕ → ℕ → Bool) → List (List ℕ) → List InstallMember → Bool
members_accepted allow_path earlier [] = true
members_accepted allow_path earlier (m ∷ ms) =
    path_accepted allow_path earlier m.path m.compact_flash
    && members_accepted allow_path (m.path ∷ earlier) ms

module _ (allow_path : List ℕ → ℕ → Bool) where
  path_accepted-flags :
      (earlier : List (List ℕ)) (path : List ℕ) (flags : ℕ)
      → path_accepted allow_path earlier path flags ≡ true
      → flags ≤ 3
  unfolding path_accepted
  path_accepted-flags earlier path flags h = ground (arith, h)

  get_member-put :
      (earlier : List (List ℕ)) (m : InstallMember) (xs : List ℕ)
      → member_encodes m ≡ true
      → path_accepted allow_path earlier m.path m.compact_flash ≡ true
      → get_member allow_path earlier (put_member m ++ xs) ≡ some (m, xs)
  unfolding get_member put_member
  get_member-put earlier m xs ok accepted =
      let files = put_file m.before ++ put_file m.after in
      let (some_path, short) = member_encodes-path m ok in
      let size = get-put (length m.path) [] (omega (arith, short)) in
      let flags = get-put m.compact_flash [] (omega (arith, path_accepted-flags _ _ _ accepted)) in
      rw
        (
          size,
          flags,
          append_assoc m.path files xs,
          take-append m.path (files ++ xs),
          drop-append m.path (files ++ xs),
          accepted,
          get_files-put m xs ok,
        )
        (ground (arith, length-append m.path (files ++ xs), some_path, short))

  get_members-put :
      (earlier : List (List ℕ)) (ms : List InstallMember)
      → All (λ m. member_encodes m ≡ true) ms
      → members_accepted allow_path earlier ms ≡ true
      → get_members allow_path (length ms) earlier (put_members ms) ≡ some (ms, [])
  unfolding get_members put_members members_accepted
  get_members-put earlier [] ok accepted = refl
  get_members-put earlier (m ∷ ms) (ok, oks) accepted =
      rw
        (
          get_member-put earlier m (put_members ms) ok (ground (arith, accepted)),
          get_members-put (m.path ∷ earlier) ms oks (ground (arith, accepted)),
          get_members,
        )
        refl

length-put_member :
    (m : InstallMember)
    → length (put_member m)
      ≡ 8 + length m.path + 24 + length m.before.content + length m.after.content
unfolding put_member put_file
length-put_member m = omega (
  arith,
  length-append m.path (put_file m.before ++ put_file m.after),
  length-append m.before.content (put_file m.after),
)

measure-put :
    (ms : List InstallMember) (n k : ℕ)
    → measure ms n ≡ some k
    → n ≤ file_limit - 64
    → All (λ m. member_encodes m ≡ true) ms
      × (k ≡ n + length (put_members ms))
      × (k ≤ file_limit - 64)
unfolding measure put_members
measure-put [] n k h le = (tt, ground (arith, h), ground (arith, h, le))
measure-put (m ∷ ms) n k h le =
    let next = n + (8 + length m.path + 24 + length m.before.content + length m.after.content) in
    elim (Bool-cases (not (member_encodes m) || ltb (file_limit - 64) next)) [
      | inl e ↦ absurd (ground (arith, e, h))
      | inr e ↦
          let (oks, size, small) =
            measure-put ms next k (ground (arith, e, h)) (ground (arith, e)) in
          (
            (ground (arith, e), oks),
            omega (arith, size, length-put_member m, length-append (put_member m) (put_members ms)),
            small,
          )
    ]

same_text_refl : (xs : List ℕ) → same_text xs xs ≡ true
unfolding same_text
same_text_refl [] = refl
same_text_refl (x ∷ xs) = rw (same_text_refl xs) (ground arith)

-- What `encode` found of a plan that it wrote.
record Encoded (p : InstallPlan) (j : InstallFile) : Type 0 where
  some_members : 0 < length p.members
  few : length p.members ≤ install_members
  running : p.was_running ≤ 3
  encodes : All (λ m. member_encodes m ≡ true) p.members
  small : 16 + length (put_members p.members) ≤ file_limit - 64
  result : j ≡ record { kind = 1; mode = 384; content = body p ++ install_digest_hex (body p) }

encode-Encoded : (p : InstallPlan) (j : InstallFile) → encode p ≡ some j → Encoded p j
unfolding encode
encode-Encoded p j h = elim (Option-cases (measure p.members 16)) [
  | inl e ↦ absurd (ground (arith, e, h))
  | inr (n, e) ↦
      let (encodes, size, small) = measure-put p.members 16 n e (omega arith) in
      record {
        some_members = ground (arith, h);
        few = ground (arith, h);
        running = ground (arith, h);
        encodes = encodes;
        small = omega (arith, size, small);
        result = ground (arith, e, h);
      }
]

length-body : (p : InstallPlan) → length (body p) ≡ 16 + length (put_members p.members)
unfolding body bytes
length-body p = omega arith

take-body : (p : InstallPlan) (xs : List ℕ) → take 8 (body p ++ xs) ≡ magic
unfolding body bytes
take-body p xs = refl

decode_body-body :
    (allow_path : List ℕ → ℕ → Bool) (p : InstallPlan) (j : InstallFile)
    → Encoded p j
    → members_accepted allow_path [] p.members ≡ true
    → decode_body allow_path (body p) ≡ some p
unfolding decode_body body bytes
decode_body-body allow_path p j t accepted =
    let count = get-put (length p.members) [] (omega (arith, t.few)) in
    let running = get-put p.was_running [] (omega (arith, t.running)) in
    rw (count, running, get_members-put allow_path [] p.members t.encodes accepted)
      (ground (arith, t.some_members, t.few, t.running))

-- A plan that was encoded, of which the paths are allowed, differ and hold no zero byte and the flags are
-- known, is read back whole from its journal.
pub decode-encode :
    (allow_path : List ℕ → ℕ → Bool) (p : InstallPlan) (j : InstallFile)
    → members_accepted allow_path [] p.members ≡ true
    → encode p ≡ some j
    → decode allow_path j ≡ some p
unfolding decode
decode-encode allow_path p j accepted h =
    let t = encode-Encoded p j h in
    let text = body p in
    let sum : length (text ++ install_digest_hex text) - 64 ≡ length text =
      omega (arith, length-append text (install_digest_hex text), length-install_digest_hex text) in
    rw
      (
        t.result,
        sum,
        take-append text (install_digest_hex text),
        drop-append text (install_digest_hex text),
        take-body p (install_digest_hex text),
        same_text_refl magic,
        same_text_refl (install_digest_hex text),
        decode_body-body allow_path p j t accepted,
      )
      (ground (
        arith,
        length-append text (install_digest_hex text),
        length-install_digest_hex text,
        length-body p,
        t.small,
      ))
