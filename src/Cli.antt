-- ===== src/Cli.antt =====
-- internal/cli/run.go: the commands verify and create. The package flag, the files and the output are
-- parameters; the texts of messages are left out, and closing a file that was read.
pub mod Files
pub mod Exits
use sigmaproof.Prelude.{
  ℕ, ◌*◌, ◌^◌, Bool, true, false, ◌||◌, ◌&&◌, not, Option, none, some, List, [], ◌∷◌, length, ◌==◌,
  if◌then◌else◌, Result, ok, err, ℤ, pos, negsuc, max_int64,
}
use sigmaproof.Bytes.{Bytes, codes, bytes_equal}
use sigmaproof.Sha.{Sha256}
use sigmaproof.Errors.{Outcome}
use sigmaproof.Reader.{Reader}
use sigmaproof.Commitment.{original, derived}
use sigmaproof.Package
use sigmaproof.Package.{Package, create_unanchored}
use sigmaproof.Report
use sigmaproof.Report.{
  Status, verified, failed, unavailable, unsupported, Check, Report, integrity_verified,
}

-- The flags of a command, and the arguments behind them.
pub record VerifyFlags : Type 0 where
  pub offline : Bool
  pub as_json : Bool
  pub limit : ℤ
  pub paths : List Bytes

pub record CreateFlags : Type 0 where
  pub unanchored : Bool
  pub representation : Bytes
  pub limit : ℤ
  pub paths : List Bytes

-- What `flags.Parse` makes of the arguments: a wish for help, an error, or flags.
pub data Parsed (A : Type 0) : Type 0 where
  help wrong : Parsed A
  flags : A → Parsed A

-- An open file: whether `Stat` calls it regular, none where that fails, and its bytes.
pub record File : Type 0 where
  pub regular : Option Bool
  pub content : Reader

-- The system around the command. A write says whether it succeeded.
pub record System : Type 1 where
  pub World : Type 0
  pub parse_verify : List Bytes → Parsed VerifyFlags
  pub parse_create : List Bytes → Parsed CreateFlags
  pub stat : World → Bytes → Option Bool
  pub open_file : World → Bytes → Option File
  pub print_line : World → World
  pub print_check : Bytes → Check → World → Bool × World
  pub write_json : Report → World → Bool × World
  -- `os.CreateTemp` beside a path, and what is done with the file
  pub create_temp : Bytes → World → Option (Bytes × World)
  pub write_file : Bytes → Bytes → World → Bool × World
  pub sync_file : Bytes → World → Bool × World
  pub close_file : Bytes → World → Bool × World
  pub link_file : Bytes → Bytes → World → Bool × World
  pub remove_file : Bytes → World → World

unfoldable pub opened_again : File → Option Reader
opened_again f = elim f.regular [
  | none ↦ none
  | some regular ↦ if regular then some f.content else none
]

unfoldable pub opened : Option Bool → Option File → Option Reader
opened none f = none
opened (some regular) none = none
opened (some regular) (some f) = if regular then opened_again f else none

-- `*limit < 0 || *limit == math.MaxInt64`
unfoldable pub bad_limit : ℤ → Bool
bad_limit (negsuc n) = true
bad_limit (pos n) = n == max_int64

unfoldable pub is_unsupported_status : Status → Bool
is_unsupported_status verified = false
is_unsupported_status failed = false
is_unsupported_status unavailable = false
is_unsupported_status unsupported = true

unfoldable pub exit_code : Bool → Report → ℕ
exit_code offline r =
    if is_unsupported_status r.format.status
    then 3
    else if not (integrity_verified r)
    then 1
    else if not offline
    then 3
    else 0

unfoldable pub representation_of : Bytes → Option ℕ
representation_of name =
    if bytes_equal name (codes "original")
    then some original
    else if bytes_equal name (codes "derived")
    then some derived
    else none

module _ (sys : System) where
  -- A step that may fail, behind one that may have.
  abbrev pub then_do : (sys.World → Bool × sys.World) → Bool × sys.World → Bool × sys.World
  then_do f (false, w) = (false, w)
  then_do f (true, w) = f w

  unfoldable pub open_regular : sys.World → Bytes → Option Reader
  open_regular w path = opened (sys.stat w path) (sys.open_file w path)

  unfoldable pub write_report : Bool → Report → sys.World → Bool × sys.World
  write_report true r w = sys.write_json r w
  write_report false r w = then_do (sys.print_check (codes "anchor") r.anchor) (
      then_do (sys.print_check (codes "batch inclusion") r.inclusion) (
        then_do (sys.print_check (codes "document") r.document)
          (sys.print_check (codes "format") r.format w)))

  -- The exit code, once the report is written or could not be.
  unfoldable pub reported : VerifyFlags → Report → Bool × sys.World → ℕ × sys.World
  reported f r (true, w) = (exit_code f.offline r, w)
  reported f r (false, w) = (1, if f.as_json then sys.print_line w else w)

  unfoldable pub verify_opened :
      ⦃sha : Sha256⦄ → VerifyFlags → Option Reader → Option Reader → sys.World → ℕ × sys.World
  verify_opened f none packed w = (1, sys.print_line w)
  verify_opened f (some document) none w = (1, sys.print_line w)
  verify_opened f (some document) (some packed) w =
      let r = Report.verify (some document) (some packed) f.limit in
      reported f r (write_report f.as_json r w)

  unfoldable pub verify_paths :
      ⦃sha : Sha256⦄ → VerifyFlags → List Bytes → sys.World → ℕ × sys.World
  verify_paths f (document ∷ packed ∷ []) w =
      if bad_limit f.limit
      then (2, sys.print_line w)
      else verify_opened f (open_regular w document) (open_regular w packed) w
  verify_paths f paths w = (2, sys.print_line w)

  unfoldable pub verify_parsed : ⦃sha : Sha256⦄ → Parsed VerifyFlags → sys.World → ℕ × sys.World
  verify_parsed help w = (0, w)
  verify_parsed wrong w = (2, w)
  verify_parsed (flags f) w = verify_paths f f.paths w

  unfoldable pub verify : ⦃sha : Sha256⦄ → List Bytes → sys.World → ℕ × sys.World
  verify args w = verify_parsed (sys.parse_verify args) w

  -- The temporary file is closed and removed in any case, after all else.
  unfoldable pub linked : Bytes → Bytes → Option (Bytes × sys.World) → sys.World → Bool × sys.World
  linked path d none w = (false, w)
  linked path d (some (temporary, t)) w =
      let done = then_do (sys.link_file temporary path) (
        then_do (sys.close_file temporary)
          (then_do (sys.sync_file temporary) (sys.write_file temporary d t))) in
      (done.0, sys.remove_file temporary (sys.close_file temporary done.1).1)

  unfoldable pub write_private_file : Bytes → Bytes → sys.World → Bool × sys.World
  write_private_file path d w = linked path d (sys.create_temp path w) w

  unfoldable pub saved : Bool × sys.World → ℕ × sys.World
  saved (true, w) = (0, sys.print_line w)
  saved (false, w) = (1, sys.print_line w)

  unfoldable pub encoded : Bytes → Outcome Bytes → sys.World → ℕ × sys.World
  encoded path (err e) w = (1, sys.print_line w)
  encoded path (ok d) w = saved (write_private_file path d w)

  unfoldable pub created : Bytes → Outcome Package → sys.World → ℕ × sys.World
  created path (err e) w = (1, sys.print_line w)
  created path (ok p) w = encoded path (Package.marshal_binary p) w

  unfoldable pub create_opened :
      ⦃sha : Sha256⦄
      → Option Bytes
      → CreateFlags
      → Bytes
      → ℕ
      → Option Reader
      → sys.World
      → ℕ × sys.World
  create_opened random f path rep none w = (1, sys.print_line w)
  create_opened random f path rep (some document) w =
      created path (create_unanchored (some document) rep f.limit random) w

  unfoldable pub create_represented :
      ⦃sha : Sha256⦄
      → Option Bytes
      → CreateFlags
      → Bytes
      → Bytes
      → Option ℕ
      → sys.World
      → ℕ × sys.World
  create_represented random f document path none w = (2, sys.print_line w)
  create_represented random f document path (some rep) w =
      create_opened random f path rep (open_regular w document) w

  unfoldable pub create_paths :
      ⦃sha : Sha256⦄ → Option Bytes → CreateFlags → List Bytes → sys.World → ℕ × sys.World
  create_paths random f (document ∷ path ∷ []) w =
      if not f.unanchored || bad_limit f.limit
      then (2, sys.print_line w)
      else create_represented random f document path (representation_of f.representation) w
  create_paths random f paths w = (2, sys.print_line w)

  unfoldable pub create_parsed :
      ⦃sha : Sha256⦄ → Option Bytes → Parsed CreateFlags → sys.World → ℕ × sys.World
  create_parsed random help w = (0, w)
  create_parsed random wrong w = (2, w)
  create_parsed random (flags f) w = create_paths random f f.paths w

  -- `create`, with the random that the random source gives.
  unfoldable pub create : ⦃sha : Sha256⦄ → Option Bytes → List Bytes → sys.World → ℕ × sys.World
  create random args w = create_parsed random (sys.parse_create args) w

  abbrev is_help : Bytes → Bool
  is_help arg =
      bytes_equal arg (codes "help")
      || bytes_equal arg (codes "--help")
      || bytes_equal arg (codes "-h")

  unfoldable pub dispatch :
      ⦃sha : Sha256⦄ → Option Bytes → Bytes → List Bytes → sys.World → ℕ × sys.World
  dispatch random name args w =
      if length args == 0 && (is_help name || bytes_equal name (codes "version"))
      then (0, sys.print_line w)
      else if bytes_equal name (codes "verify")
      then verify args w
      else if bytes_equal name (codes "create")
      then create random args w
      else (2, sys.print_line w)

  -- `Run`: the exit code.
  unfoldable pub run : ⦃sha : Sha256⦄ → Option Bytes → List Bytes → sys.World → ℕ × sys.World
  run random [] w = (0, sys.print_line w)
  run random (name ∷ args) w = dispatch random name args w
