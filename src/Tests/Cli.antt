-- ===== src/Tests/Cli.antt =====
-- Commands over a disk of two files.
use sigmaproof.Prelude.{
  ◌≡◌, refl, ap, sym, ◌∙◌, Bool, true, false, Option, none, some, some_eq, [], ◌∷◌, ◌++◌,
  if◌then◌else◌, pos,
}
use sigmaproof.Bytes.{Bytes, bytes_equal, bytes_equal_iff, codes}
use sigmaproof.Bytes.Words.{uint64}
use sigmaproof.Reader.{stream, read_limited}
use sigmaproof.Merkle
use sigmaproof.Merkle.{leaf, root, root_fuel, rebuild, verify_end}
use sigmaproof.Commitment
use sigmaproof.Commitment.{
  preimage, read_random, hash_document, hash_read, compute, new_witness, original, check_document,
  check_commitment,
}
use sigmaproof.Batch
use sigmaproof.Batch.{validate, blank, write_manifest}
use sigmaproof.Package
use sigmaproof.Package.{
  create_unanchored, finish, join_unsupported, write_package, write_path, is_unsupported, assemble,
  read_path,
}
use sigmaproof.Package.Depth.{path_length, path_length_loop}
use sigmaproof.Report
use sigmaproof.Report.{integrity_verified}
use sigmaproof.Cli.{
  VerifyFlags, CreateFlags, flags, File, System, opened_again, opened, bad_limit,
  is_unsupported_status, exit_code, representation_of, open_regular, write_report, reported,
  verify_opened, verify_paths, verify_parsed, verify, linked, write_private_file, saved, encoded,
  created, create_opened, create_represented, create_paths, create_parsed, create,
}
use sigmaproof.Cli.Files.{FileSystem}
use sigmaproof.Cli.Exits.{Verified, verify-Verified, Created, create-Created}
use sigmaproof.Tests.Commitment.{nonce}
use sigmaproof.Tests.Package as Runs
use sigmaproof.Tests.Toy.{toy}

abbrev verify_flags : VerifyFlags
verify_flags = record {
  offline = true;
  as_json = true;
  limit = pos 3;
  paths = codes "document" ∷ codes "package" ∷ [];
}

abbrev create_flags : CreateFlags
create_flags = record {
  unanchored = true;
  representation = codes "original";
  limit = pos 3;
  paths = codes "document" ∷ codes "new" ∷ [];
}

-- What each path holds.
abbrev Disk : Type 0
Disk = Bytes → Option Bytes

abbrev put : Bytes → Option Bytes → Disk → Disk
put path d w other = if bytes_equal other path then d else w other

abbrev disk_one : Disk
disk_one path =
    if bytes_equal path (codes "document")
    then some (1 ∷ 2 ∷ 3 ∷ [])
    else if bytes_equal path (codes "package")
    then some Runs.encoded
    else none

abbrev file : Option Bytes → Option File
file none = none
file (some d) = some (record { regular = some true; content = stream d })

abbrev temporary_one : Bytes
temporary_one = codes "temporary"

abbrev temp : Option Bytes → Disk → Option (Bytes × Disk)
temp none w = some (temporary_one, put temporary_one (some []) w)
temp (some d) w = none

abbrev append_to : Bytes → Bytes → Option Bytes → Disk → Bool × Disk
append_to path d none w = (false, w)
append_to path d (some held) w = (true, put path (some (held ++ d)) w)

abbrev link_to : Bytes → Option Bytes → Option Bytes → Disk → Bool × Disk
link_to path d (some there) w = (false, w)
link_to path none none w = (false, w)
link_to path (some d) none w = (true, put path (some d) w)

abbrev system : System
system = record {
  World = Disk;
  parse_verify = λ args. flags verify_flags;
  parse_create = λ args. flags create_flags;
  stat = λ w path. some true;
  open_file = λ w path. file (w path);
  print_line = λ w. w;
  print_check = λ name check w. (true, w);
  write_json = λ report w. (true, w);
  create_temp = λ path w. temp (w temporary_one) w;
  write_file = λ path d w. append_to path d (w path) w;
  sync_file = λ path w. (true, w);
  close_file = λ path w. (true, w);
  link_file = λ path new_path w. link_to new_path (w path) (w new_path) w;
  remove_file = λ path w. put path none w;
}

put_here : (path : Bytes) (d : Option Bytes) (w : Disk) → put path d w path ≡ d
put_here path d w = rw ((bytes_equal_iff path path).1 refl) refl

put_others :
    (path : Bytes) (d : Option Bytes) (w : Disk) (other : Bytes)
    → bytes_equal other path ≡ false
    → put path d w other ≡ w other
put_others path d w other apart = rw apart refl

temp_inv :
    (o : Option Bytes) (w : Disk) (temporary : Bytes) (t : Disk)
    → temp o w ≡ some (temporary, t)
    → (o ≡ none) × (temporary ≡ temporary_one) × (t ≡ put temporary_one (some []) w)
temp_inv none w temporary t e =
    (refl, sym (ap (λ p. p.0) (some_eq e)), sym (ap (λ p. p.1) (some_eq e)))
temp_inv (some d) w temporary t e = cc

append_to_inv :
    (path d : Bytes) (o : Option Bytes) (w w' : Disk) (held : Bytes)
    → append_to path d o w ≡ (true, w')
    → o ≡ some held
    → w' path ≡ some (held ++ d)
append_to_inv path d none w w' held e h = cc
append_to_inv path d (some x) w w' held e h =
    ap (λ t. t.1 path) (sym e)
    ∙ put_here path (some (x ++ d)) w
    ∙ ap (λ t. some (t ++ d)) (some_eq h)

append_to_others :
    (path d : Bytes) (o : Option Bytes) (w : Disk) (other : Bytes)
    → bytes_equal other path ≡ false
    → (append_to path d o w).1 other ≡ w other
append_to_others path d none w other apart = refl
append_to_others path d (some x) w other apart = put_others path (some (x ++ d)) w other apart

link_to_inv :
    (path : Bytes) (d there : Option Bytes) (w w' : Disk)
    → link_to path d there w ≡ (true, w')
    → (there ≡ none) × (w' path ≡ d)
link_to_inv path d (some x) w w' e = absurd (cc (ap (λ t. t.0) e))
link_to_inv path none none w w' e = absurd (cc (ap (λ t. t.0) e))
link_to_inv path (some d) none w w' e =
    (refl, ap (λ t. t.1 path) (sym e) ∙ put_here path (some d) w)

link_to_others :
    (path : Bytes) (d there : Option Bytes) (w : Disk) (other : Bytes)
    → bytes_equal other path ≡ false
    → (link_to path d there w).1 other ≡ w other
link_to_others path d (some x) w other apart = refl
link_to_others path none none w other apart = refl
link_to_others path (some d) none w other apart = put_others path (some d) w other apart

abbrev disk_files : FileSystem system
disk_files = record {
  content = λ w path. w path;
  same_place = bytes_equal;
  one_file = λ w. bytes_equal;
  place_content = λ w same. ap w ((bytes_equal_iff _ _).0 same);
  print_content = λ w path. refl;
  temp_new = λ {path} {w} {temporary} {t} e.
      let (free, named, after) = temp_inv (w temporary_one) w temporary t e in ap w named ∙ free;
  temp_empty = λ {path} {w} {temporary} {t} e.
      let (free, named, after) = temp_inv (w temporary_one) w temporary t e in
      ap t named ∙ ap (λ v. v temporary_one) after ∙ put_here temporary_one (some []) w;
  temp_alone = λ other e apart. apart;
  temp_others = λ {path} {w} {temporary} {t} other e apart.
      let (free, named, after) = temp_inv (w temporary_one) w temporary t e in
      ap (λ v. v other) after
      ∙ put_others temporary_one (some []) w other (ap (bytes_equal other) (sym named) ∙ apart);
  write_appends = λ {path} {d} {w} {w'} held e h. append_to_inv path d (w path) w w' held e h;
  write_others = λ path d w other apart. append_to_others path d (w path) w other apart;
  sync_content = λ path w other. refl;
  close_content = λ path w other. refl;
  link_new = λ {path} {new_path} {w} {w'} e. (link_to_inv new_path (w path) (w new_path) w w' e).0;
  link_same = λ {path} {new_path} {w} {w'} e. (link_to_inv new_path (w path) (w new_path) w w' e).1;
  link_others =
      λ path new_path w other apart. link_to_others new_path (w path) (w new_path) w other apart;
  remove_others = λ path w other apart. put_others path none w other apart;
}

verify_runs : (verify system [] disk_one).0 ≡ 0
unfolding verify verify_parsed verify_paths verify_opened reported exit_code open_regular opened
    opened_again bad_limit is_unsupported_status write_report Report.verify integrity_verified
    preimage Package.read read_limited compute Commitment.encode Batch.verify validate Merkle.verify
    verify_end rebuild leaf bytes_equal hash_document hash_read Package.parse is_unsupported
    assemble read_path Commitment.parse Commitment.fields Batch.parse Batch.fields uint64
    path_length path_length_loop Report.verify_decoded Report.verify_commitment Report.is_verified
    Report.document_check Commitment.verify check_commitment check_document Report.inclusion_check
verify_runs = refl

verify-Verified_example : Verified system verify_flags disk_one
verify-Verified_example = verify-Verified system [] verify_flags disk_one refl verify_runs

-- The files after the command.
abbrev disk_two : Disk
disk_two = (create system (some nonce) [] disk_one).1

create_exits : (create system (some nonce) [] disk_one).0 ≡ 0
unfolding create create_parsed create_paths create_represented create_opened created encoded saved
    write_private_file linked open_regular opened opened_again bad_limit representation_of
    create_unanchored Commitment.new read_random hash_document hash_read read_limited compute
    Commitment.encode preimage new_witness Batch.new validate blank root root_fuel leaf bytes_equal
    Package.marshal_binary join_unsupported Batch.marshal_binary finish path_length path_length_loop
create_exits = refl

create_runs : create system (some nonce) [] disk_one ≡ (0, disk_two)
create_runs = ap (λ n. (n, disk_two)) create_exits

create-Created_example : Created system disk_files create_flags disk_one disk_two
create-Created_example =
    create-Created system disk_files nonce [] create_flags disk_one disk_two refl refl create_runs
