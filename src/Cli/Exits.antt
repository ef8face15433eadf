-- ===== src/Cli/Exits.antt =====
-- What the exit code 0 of the commands means.
use sigmaproof.Prelude.{
  ℕ, ◌≡◌, refl, ap, sym, ◌∙◌, Bool, true, false, ◌||◌, not, Option, none, some, List, [], ◌∷◌, ok,
  err, ok-injective, Bool-cases, inl, inr, arith,
}
use mathlib.Core.Path.{subst}
use sigmaproof.Bytes.{Bytes}
use sigmaproof.Sha.{Sha256, IsHash}
use sigmaproof.Errors.{Outcome}
use sigmaproof.Reader.{Reader, stream}
use sigmaproof.Package
use sigmaproof.Package.{Package, create_unanchored}
use sigmaproof.Report
use sigmaproof.Report.{Report, integrity_verified}
use sigmaproof.Report.Fresh.{create_then_verify}
use sigmaproof.Cli.Files.{FileSystem, Saved, write_private_file-Saved, print-Saved}
use sigmaproof.Cli.{
  VerifyFlags, CreateFlags, flags, System, exit_code, is_unsupported_status, bad_limit,
  representation_of, open_regular, reported, verify_opened, verify_paths, verify_parsed, verify,
  write_private_file, saved, encoded, created, create_opened, create_represented, create_paths,
  create_parsed, create,
}

exit_code-zero :
    (offline : Bool) (r : Report)
    → exit_code offline r ≡ 0
    → (offline ≡ true) × (integrity_verified r ≡ true)
unfolding exit_code
exit_code-zero offline r h = ground (
  arith,
  h,
  Bool-cases offline,
  Bool-cases (integrity_verified r),
  Bool-cases (is_unsupported_status r.format.status),
)

module _ (sys : System) ⦃sha : Sha256⦄ where
  -- The two files opened, the check was asked for offline, and it verified the document.
  pub record Verified (f : VerifyFlags) (w : sys.World) : Type 0 where
    pub document_path : Bytes
    pub package_path : Bytes
    pub document : Reader
    pub packed : Reader
    pub two_paths : f.paths ≡ document_path ∷ package_path ∷ []
    pub document_opens : open_regular sys w document_path ≡ some document
    pub package_opens : open_regular sys w package_path ≡ some packed
    pub asked : f.offline ≡ true
    pub integrity : integrity_verified (Report.verify (some document) (some packed) f.limit) ≡ true

  reported-zero :
      (f : VerifyFlags) (r : Report) (o : Bool × sys.World)
      → (reported sys f r o).0 ≡ 0
      → (f.offline ≡ true) × (integrity_verified r ≡ true)
  unfolding reported
  reported-zero f r (true, w) h = exit_code-zero f.offline r h
  reported-zero f r (false, w) h = absurd (omega (arith, h))

  verify_opened-Verified :
      (f : VerifyFlags) (d p : Bytes) (document packed : Option Reader) (w : sys.World)
      → f.paths ≡ d ∷ p ∷ []
      → open_regular sys w d ≡ document
      → open_regular sys w p ≡ packed
      → (verify_opened sys f document packed w).0 ≡ 0
      → Verified f w
  unfolding verify_opened
  verify_opened-Verified f d p none packed w two a b h = absurd (omega (arith, h))
  verify_opened-Verified f d p (some x) none w two a b h = absurd (omega (arith, h))
  verify_opened-Verified f d p (some x) (some y) w two a b h =
      let (asked, integrity) = reported-zero f (Report.verify (some x) (some y) f.limit) _ h in
      record {
        document_path = d;
        package_path = p;
        document = x;
        packed = y;
        two_paths = two;
        document_opens = a;
        package_opens = b;
        asked = asked;
        integrity = integrity;
      }

  verify_paths-Verified :
      (f : VerifyFlags) (paths : List Bytes) (w : sys.World)
      → f.paths ≡ paths
      → (verify_paths sys f paths w).0 ≡ 0
      → Verified f w
  unfolding verify_paths
  verify_paths-Verified f [] w s h = absurd (omega (arith, h))
  verify_paths-Verified f (d ∷ []) w s h = absurd (omega (arith, h))
  verify_paths-Verified f (d ∷ p ∷ q ∷ paths) w s h = absurd (omega (arith, h))
  verify_paths-Verified f (d ∷ p ∷ []) w s h = elim (Bool-cases (bad_limit f.limit)) [
    | inl bad ↦ let g = rw bad at h in absurd (omega (arith, g))
    | inr fine ↦ let g = rw fine at h in verify_opened-Verified f d p _ _ w s refl refl g
  ]

  -- Where the flags of `verify` parse, the exit code 0 means that there are two paths, that both
  -- files open, that the check was asked for offline, and that the package verifies the integrity of
  -- the document under the limit.
  pub verify-Verified :
      (args : List Bytes) (f : VerifyFlags) (w : sys.World)
      → sys.parse_verify args ≡ flags f
      → (verify sys args w).0 ≡ 0
      → Verified f w
  unfolding verify verify_parsed
  verify-Verified args f w p h = let g = rw p at h in verify_paths-Verified f f.paths w refl g

module _ (sys : System) (files : FileSystem sys) ⦃sha : Sha256⦄ where
  -- There is a new file at the package path; what it holds verifies the document.
  pub record Created (f : CreateFlags) (w w' : sys.World) : Type 0 where
    pub document_path : Bytes
    pub package_path : Bytes
    pub document : Reader
    pub bytes : Bytes
    pub two_paths : f.paths ≡ document_path ∷ package_path ∷ []
    pub asked : f.unanchored ≡ true
    pub document_opens : open_regular sys w document_path ≡ some document
    pub saves : Saved sys files package_path bytes w w'
    pub integrity :
        integrity_verified (Report.verify (some document) (some (stream bytes)) f.limit) ≡ true

  saved-zero :
      (path d : Bytes) (o : Bool × sys.World) (w w' : sys.World)
      → write_private_file sys path d w ≡ o
      → saved sys o ≡ (0, w')
      → Saved sys files path d w w'
  unfolding saved
  saved-zero path d (false, v) w w' e h = absurd (omega (arith, ap (λ t. t.0) h))
  saved-zero path d (true, v) w w' e h =
      subst (Saved sys files path d w) (ap (λ t. t.1) h)
        (print-Saved sys files path d w v (write_private_file-Saved sys files path d w v e))

  created-zero :
      (path : Bytes) (r : Outcome Package) (w w' : sys.World)
      → created sys path r w ≡ (0, w')
      → (p : Package) × (d : Bytes) × (r ≡ ok p)
        × (Package.marshal_binary p ≡ ok d)
        × Saved sys files path d w w'
  unfolding created encoded
  created-zero path (err e) w w' h = absurd (omega (arith, ap (λ t. t.0) h))
  created-zero path (ok p) w w' h = go (Package.marshal_binary p) refl h
    where
      go :
          (o : Outcome Bytes)
          → Package.marshal_binary p ≡ o
          → encoded sys path o w ≡ (0, w')
          → (q : Package) × (d : Bytes) × (◌≡◌ {A = Outcome Package} (ok p) (ok q))
            × (Package.marshal_binary q ≡ ok d)
            × Saved sys files path d w w'
      go (err e) s g = absurd (omega (arith, ap (λ t. t.0) g))
      go (ok d) s g = (p, d, refl, s, saved-zero path d _ w w' refl g)

  create_opened-Created :
      (random : Bytes) (f : CreateFlags) (d p : Bytes) (rep : ℕ) (o : Option Reader)
      (w w' : sys.World)
      → IsHash random
      → f.paths ≡ d ∷ p ∷ []
      → f.unanchored ≡ true
      → open_regular sys w d ≡ o
      → create_opened sys (some random) f p rep o w ≡ (0, w')
      → Created f w w'
  unfolding create_opened
  create_opened-Created random f d p rep none w w' size two asked s h =
      absurd (omega (arith, ap (λ t. t.0) h))
  create_opened-Created random f d p rep (some x) w w' size two asked s h =
      let (q, bytes, made, marshalled, saves) =
        created-zero p (create_unanchored (some x) rep f.limit (some random)) w w' h in
      let (b, again, integrity) = create_then_verify (some x) rep f.limit random q size made in
      let same : b ≡ bytes = ok-injective (sym again ∙ marshalled) in
      record {
        document_path = d;
        package_path = p;
        document = x;
        bytes = bytes;
        two_paths = two;
        asked = asked;
        document_opens = s;
        saves = saves;
        integrity =
            ap (λ t. integrity_verified (Report.verify (some x) (some (stream t)) f.limit))
              (sym same)
            ∙ integrity;
      }

  create_represented-Created :
      (random : Bytes) (f : CreateFlags) (d p : Bytes) (rep : Option ℕ) (w w' : sys.World)
      → IsHash random
      → f.paths ≡ d ∷ p ∷ []
      → f.unanchored ≡ true
      → create_represented sys (some random) f d p rep w ≡ (0, w')
      → Created f w w'
  unfolding create_represented
  create_represented-Created random f d p none w w' size two asked h =
      absurd (omega (arith, ap (λ t. t.0) h))
  create_represented-Created random f d p (some rep) w w' size two asked h =
      create_opened-Created random f d p rep _ w w' size two asked refl h

  create_paths-Created :
      (random : Bytes) (f : CreateFlags) (paths : List Bytes) (w w' : sys.World)
      → IsHash random
      → f.paths ≡ paths
      → create_paths sys (some random) f paths w ≡ (0, w')
      → Created f w w'
  unfolding create_paths
  create_paths-Created random f [] w w' size s h = absurd (omega (arith, ap (λ t. t.0) h))
  create_paths-Created random f (d ∷ []) w w' size s h = absurd (omega (arith, ap (λ t. t.0) h))
  create_paths-Created random f (d ∷ p ∷ q ∷ paths) w w' size s h =
      absurd (omega (arith, ap (λ t. t.0) h))
  create_paths-Created random f (d ∷ p ∷ []) w w' size s h =
      elim (Bool-cases (not f.unanchored || bad_limit f.limit)) [
        | inl bad ↦ let g = rw bad at h in absurd (omega (arith, ap (λ t. t.0) g))
        | inr fine ↦
            let g = rw fine at h in
            create_represented-Created random f d p (representation_of f.representation) w w' size s
              (ground (arith, fine)) g
      ]

  -- Where the flags of `create` parse and the random source gives 32 bytes, the exit code 0 means
  -- that there are two paths, that an unanchored package was asked for, that the document opens, and
  -- that there is now a file at the other path, where nothing was, whose bytes verify the integrity
  -- of the document; whatever was at any other path is still there, unchanged.
  pub create-Created :
      (random : Bytes) (args : List Bytes) (f : CreateFlags) (w w' : sys.World)
      → IsHash random
      → sys.parse_create args ≡ flags f
      → create sys (some random) args w ≡ (0, w')
      → Created f w w'
  unfolding create create_parsed
  create-Created random args f w w' size p h =
      let g = rw p at h in create_paths-Created random f f.paths w w' size refl g
