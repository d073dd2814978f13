-- ===== src/Tests/Agent.antt =====
-- The theorems on the agent's files of keys, at keys whose digest is their body.
use core_lab.Prelude.{
  ◌≡◌, refl, true, false, Option, some, none, leb, arith, ◌+◌, [], ◌∷◌, ◌++◌, some_of,
}
use core_lab.Data.Row.{Text, seconds}
use core_lab.Data.Strings.{text_eq, starts_with, is_space, lstrip, rstrip, split}
use core_lab.Data.Strings.Lines.{is_line_break, splitlines, join_lines, IsOneLine}
use core_lab.Session.Write.{codes}
use core_lab.Agent.Grace.{Key, observe, steps, observe-since}
use core_lab.Agent.AuthorizedKeys.Line.{
  is_key_type, body_of, fingerprint_for_pubkey, validate_single_line, authorized_key_line,
  is_skipped, line_fingerprint,
}
use core_lab.Agent.AuthorizedKeys.Rewrite.{holds, is_header, rewrite_for_revoke}
use core_lab.Agent.AuthorizedKeys.Handlers.{
  System, Outcome, valid_username, valid_home, push, revoke,
}
use core_lab.Agent.AuthorizedKeys.RoundTrip.{revoke-again, ends_in_header}
use core_lab.Agent.AuthorizedKeys.Restore.{Ready, Pushable, revoke-push}
use core_lab.Agent.AuthorizedKeys.Hidden.{Joined, Labelled, revoke-hidden}

abbrev digest : Text → Option Text
digest body = some body

abbrev key : Text
key = codes "ssh-rsa A"

abbrev other_key : Text
other_key = codes "ssh-rsa B"

abbrev bob : Text
bob = codes "bob"

-- The file with the other key.
abbrev file : Text
file = other_key ++ (10 ∷ [])

abbrev system : System
system = record {
  enabled = true;
  home_directory = some (codes "/home/bob");
  ensure_dir_ok = true;
  read_ok = true;
  install_ok = true;
}

system-Ready : Ready system bob
unfolding valid_username valid_home starts_with text_eq
system-Ready = record {
  enabled = refl;
  username = refl;
  home = (codes "/home/bob", refl, refl);
  ensure_dir_ok = refl;
  read_ok = refl;
  install_ok = refl;
}

revoke-again_example :
    (some_of (holds digest (codes "B")) (splitlines (rewrite_for_revoke digest file (codes "B")).0)
      ≡ false)
    × (rewrite_for_revoke digest (rewrite_for_revoke digest file (codes "B")).0 (codes "B")
        ≡ ((rewrite_for_revoke digest file (codes "B")).0, false))
revoke-again_example = revoke-again digest (codes "B") file

abbrev key_line : Text
key_line = key ++ 32 ∷ bob

key-Pushable : Pushable digest key bob file key_line (codes "A")
unfolding fingerprint_for_pubkey authorized_key_line validate_single_line holds line_fingerprint
    is_skipped splitlines split is_space lstrip rstrip body_of is_key_type starts_with text_eq
    is_line_break
key-Pushable = record { print = refl; written = refl; free = (refl, tt) }

key_line-active : is_skipped key_line ≡ false
unfolding is_skipped is_space lstrip rstrip starts_with
key_line-active = refl

key_line-single : IsOneLine key_line
unfolding is_line_break
key_line-single = refl

file-plain : ends_in_header (splitlines file) ≡ false
unfolding ends_in_header is_header splitlines lstrip starts_with is_space is_line_break
file-plain = refl

revoke-push_example :
    ((push digest system bob key bob file).0 ≡ Outcome.pushed (codes "A"))
    × (revoke digest system bob (codes "A") (push digest system bob key bob file).1
        ≡ (Outcome.revoked true, join_lines (splitlines file)))
revoke-push_example =
    revoke-push digest system bob key bob file key_line (codes "A") system-Ready key-Pushable
      key_line-single key_line-active file-plain

-- The two keys with a vertical tab between them.
keys-Joined : Joined digest key other_key 11 (codes "A") (codes "B")
unfolding fingerprint_for_pubkey validate_single_line is_skipped split is_space lstrip rstrip
    body_of is_key_type starts_with text_eq is_line_break
keys-Joined = record {
  breaks = refl;
  unseen = refl;
  no_return = refl;
  first = refl;
  first_line = refl;
  first_active = refl;
  second = refl;
  distinct = refl;
}

other_key-Labelled : Labelled other_key bob
unfolding validate_single_line is_skipped is_space lstrip rstrip starts_with is_line_break
other_key-Labelled = record { valid = refl; line = refl; active = refl }

revoke-hidden_example :
    ((push digest system bob (key ++ 11 ∷ other_key) bob []).0 ≡ Outcome.pushed (codes "A"))
    × (revoke digest system bob
          (codes "A")
          (push digest system bob (key ++ 11 ∷ other_key) bob []).1
        ≡ (Outcome.revoked true, (other_key ++ 32 ∷ bob) ++ 10 ∷ []))
    × (holds digest (codes "B") (other_key ++ 32 ∷ bob) ≡ true)
revoke-hidden_example =
    revoke-hidden digest system bob bob key other_key 11 (codes "A") (codes "B") system-Ready
      keys-Joined other_key-Labelled

-- A process that is seen twice, ten minutes apart, and not in between.
abbrev process : Key
process = record {
  policy_key = codes "gpu";
  server_id = 2;
  gpu_id = some 5;
  linux_username = some bob;
  pid = some 77;
}

observe-since_example :
    ((observe process (some 300) 0 (λ k. none)).0 ≡ false)
    × ((observe process
          (some 300)
          (seconds 600)
          (steps [] (observe process (some 300) 0 (λ k. none)).1)).0
        ≡ leb (0 + seconds 300) (seconds 600))
observe-since_example =
    observe-since process 300 0 (seconds 600) [] (λ k. none) (ground arith) refl tt
