-- ===== src/Installer/Journal.antt =====
-- The journal of src/installer/install_transaction.c: how a plan is written and read. The test of
-- a path is an argument, as it is a callback there. The allocations succeed.
pub mod RoundTrip
use moxa_4vrs_gateway.Prelude.{
  ℕ, zero, suc, ◌+◌, ◌-◌, ◌*◌, ◌/◌, ◌%◌, Bool, true, false, not, ◌&&◌, ◌||◌, Option, none, some,
  List, [], ◌∷◌, ◌++◌, ltb, leb, ◌==◌, if◌then◌else◌, length, get_or, take, drop, bytes,
}
use moxa_4vrs_gateway.Gateway.Config.{same_text}
use moxa_4vrs_gateway.Installer.Digest.{install_digest_hex}

-- The size of a file is the length of its data.
pub record InstallFile : Type 0 where
  pub kind : ℕ
  pub mode : ℕ
  pub content : List ℕ

-- The path is the bytes before the first zero.
pub record InstallMember : Type 0 where
  pub path : List ℕ
  pub compact_flash : ℕ
  pub before : InstallFile
  pub after : InstallFile

pub record InstallPlan : Type 0 where
  pub was_running : ℕ
  pub members : List InstallMember

abbrev pub file_limit : ℕ
file_limit = 8 * 1024 * 1024

abbrev pub path_limit : ℕ
path_limit = 240

abbrev pub install_members : ℕ
install_members = 32

abbrev pub magic : List ℕ
magic = bytes "4VIJ0001"

abbrev pub put : ℕ → List ℕ
put v = (v / 16777216 % 256) ∷ (v / 65536 % 256) ∷ (v / 256 % 256) ∷ (v % 256) ∷ []

abbrev pub get : List ℕ → ℕ
get p = get_or p 0 0 * 16777216 + get_or p 1 0 * 65536 + get_or p 2 0 * 256 + get_or p 3 0

-- `memchr(p, 0, n) != 0`
abbrev pub has_zero : List ℕ → Bool
has_zero [] = false
has_zero (x ∷ xs) = x == 0 || has_zero xs

-- Mode bits are permissions; a regular file is not writable by group and others.
unfoldable pub valid_file : InstallFile → Bool
valid_file f =
    let size = length f.content in
    leb f.kind 2
    && leb size file_limit
    && ltb f.mode 512
    && (not (f.kind == 0) || (size == 0 && f.mode == 0))
    && (not (f.kind == 1) || (f.mode / 2 % 2 == 0 && f.mode / 16 % 2 == 0))
    && (not (f.kind == 2) || (not (size == 0) && leb size path_limit && not (has_zero f.content)))

unfoldable pub put_file : InstallFile → List ℕ
put_file f = put f.kind ++ (put f.mode ++ (put (length f.content) ++ f.content))

unfoldable pub put_member : InstallMember → List ℕ
put_member m =
    put (length m.path)
    ++ (put m.compact_flash ++ (m.path ++ (put_file m.before ++ put_file m.after)))

unfoldable pub put_members : List InstallMember → List ℕ
put_members [] = []
put_members (m ∷ ms) = put_member m ++ put_members ms

-- What `encode` asks of a member.
unfoldable pub member_encodes : InstallMember → Bool
member_encodes m =
    not (length m.path == 0)
    && leb (length m.path) path_limit
    && valid_file m.before
    && valid_file m.after

-- The first loop of `encode`, from a size of the journal before its digest.
unfoldable pub measure : List InstallMember → ℕ → Option ℕ
measure [] n = some n
measure (m ∷ ms) n =
    let next = n + (8 + length m.path + 24 + length m.before.content + length m.after.content) in
    elim (not (member_encodes m) || ltb (file_limit - 64) next) [
      | true ↦ none
      | false ↦ measure ms next
    ]

-- The journal before its digest.
unfoldable pub body : InstallPlan → List ℕ
body p = magic ++ (put (length p.members) ++ (put p.was_running ++ put_members p.members))

unfoldable pub encode : InstallPlan → Option InstallFile
encode p =
    if length p.members == 0 || ltb install_members (length p.members) || ltb 3 p.was_running
    then none
    else elim (measure p.members 16) [
      | none ↦ none
      | some n ↦
          some (record { kind = 1; mode = 384; content = body p ++ install_digest_hex (body p) })
    ]

-- One of the two files of a member, and the bytes after it.
unfoldable pub get_file : List ℕ → Option (InstallFile × List ℕ)
get_file rest =
    let size = get (drop 8 rest) in
    let f : InstallFile = record {
      kind = get rest;
      mode = get (drop 4 rest);
      content = take size (drop 12 rest);
    } in
    if ltb (length rest) 12
    then none
    else if ltb (length (drop 12 rest)) size || ltb file_limit size || not (valid_file f)
    then none
    else some (f, drop size (drop 12 rest))

abbrev pub is_member : List ℕ → List (List ℕ) → Bool
is_member path [] = false
is_member path (p ∷ ps) = same_text path p || is_member path ps

-- The tests of the path of a member, with the paths before it.
unfoldable pub path_accepted : (List ℕ → ℕ → Bool) → List (List ℕ) → List ℕ → ℕ → Bool
path_accepted allow_path earlier path compact_flash =
    leb compact_flash 3
    && not (has_zero path)
    && allow_path path compact_flash
    && not (is_member path earlier)

unfoldable pub get_files : List ℕ → ℕ → List ℕ → Option (InstallMember × List ℕ)
get_files path compact_flash rest = elim (get_file rest) [
  | none ↦ none
  | some (before, more) ↦ elim (get_file more) [
    | none ↦ none
    | some (after, end) ↦
        some (
          record { path = path; compact_flash = compact_flash; before = before; after = after },
          end,
        )
  ]
]

unfoldable pub get_member :
    (List ℕ → ℕ → Bool) → List (List ℕ) → List ℕ → Option (InstallMember × List ℕ)
get_member allow_path earlier rest =
    let z = get rest in
    let flags = get (drop 4 rest) in
    let path = take z (drop 8 rest) in
    if ltb (length rest) 8
    then none
    else if z == 0
        || ltb path_limit z
        || ltb (length (drop 8 rest)) z
        || not (path_accepted allow_path earlier path flags)
    then none
    else get_files path flags (drop z (drop 8 rest))

unfoldable pub get_members :
    (List ℕ → ℕ → Bool) → ℕ → List (List ℕ) → List ℕ → Option (List InstallMember × List ℕ)
get_members allow_path zero earlier rest = some ([], rest)
get_members allow_path (suc count) earlier rest = elim (get_member allow_path earlier rest) [
  | none ↦ none
  | some (m, more) ↦ elim (get_members allow_path count (m.path ∷ earlier) more) [
    | none ↦ none
    | some (ms, end) ↦ some (m ∷ ms, end)
  ]
]

-- The end of `decode`: the members fill the journal.
unfoldable pub decode_body : (List ℕ → ℕ → Bool) → List ℕ → Option InstallPlan
decode_body allow_path text =
    let count = get (drop 8 text) in
    let running = get (drop 12 text) in
    if count == 0 || ltb install_members count || ltb 3 running
    then none
    else elim (get_members allow_path count [] (drop 16 text)) [
      | none ↦ none
      | some (ms, []) ↦ some (record { was_running = running; members = ms })
      | some (ms, (x ∷ xs)) ↦ none
    ]

unfoldable pub decode : (List ℕ → ℕ → Bool) → InstallFile → Option InstallPlan
decode allow_path in_file =
    let size = length in_file.content in
    let text = take (size - 64) in_file.content in
    if not (in_file.kind == 1)
      || ltb size 80
      || ltb file_limit size
      || not (same_text (take 8 in_file.content) magic)
      || not (same_text (install_digest_hex text) (drop (size - 64) in_file.content))
    then none
    else decode_body allow_path text
