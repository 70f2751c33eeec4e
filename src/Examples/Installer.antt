-- ===== src/Examples/Installer.antt =====
-- The theorem on the journal of the installer at a concrete plan, with a test of its digest.
use moxa_4vrs_gateway.Prelude.{ℕ, ◌≡◌, refl, Bool, true, some, List, [], ◌∷◌, ◌++◌, bytes}
use moxa_4vrs_gateway.Installer.Digest.{
  install_digest_hex, hex_from, install_digest_final, install_digest_update, update_loop,
  update_round, compress, rounds, round, first_sum, second_sum, extend, schedule, load,
}
use moxa_4vrs_gateway.Gateway.Config.{same_text}
use moxa_4vrs_gateway.Installer.Journal.{
  InstallFile, InstallPlan, encode, decode, measure, member_encodes, valid_file, body,
  path_accepted,
}
use moxa_4vrs_gateway.Installer.Journal.RoundTrip.{decode-encode, members_accepted}

digest_test :
    install_digest_hex (bytes "abc")
    ≡ bytes "ba7816bf8f01cfea414140de5dae2223b00361a396177a9cb410ff61f20015ad"
unfolding install_digest_hex hex_from install_digest_final install_digest_update update_loop
    update_round compress rounds round first_sum second_sum extend schedule load bytes
digest_test = refl

-- A program that was absent, and the link to it.
abbrev absent : InstallFile
absent = record { kind = 0; mode = 0; content = [] }

abbrev plan : InstallPlan
plan = record {
  was_running = 1;
  members =
      record {
        path = bytes "usr/bin/gateway";
        compact_flash = 1;
        before = absent;
        after = record { kind = 1; mode = 493; content = 127 ∷ 0 ∷ 69 ∷ [] };
      }
      ∷ record {
        path = bytes "etc/gateway";
        compact_flash = 2;
        before = absent;
        after = record { kind = 2; mode = 0; content = bytes "usr/bin/gateway" };
      }
      ∷ [];
}

abbrev under_root : List ℕ → ℕ → Bool
under_root path compact_flash = true

abbrev journal : InstallFile
journal = record { kind = 1; mode = 384; content = body plan ++ install_digest_hex (body plan) }

plan-accepted : members_accepted under_root [] plan.members ≡ true
unfolding members_accepted path_accepted same_text bytes
plan-accepted = refl

plan-encodes : encode plan ≡ some journal
unfolding encode measure member_encodes valid_file bytes
plan-encodes = refl

decode-encode_example : decode under_root journal ≡ some plan
decode-encode_example = decode-encode under_root plan journal plan-accepted plan-encodes
