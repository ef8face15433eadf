-- ===== src/Storage/Open.antt =====
-- store.go: the transaction of Open, which accepts a database of this schema, or makes one in an empty
-- database. The checks of the file before it, and closing it behind an error, are left out.
use sigmaproof.Prelude.{
  Bool, false, ◌||◌, not, Option, none, some, [], ◌∷◌, if◌then◌else◌, ok, err, ◌>>=◌,
}
use sigmaproof.Bytes.{Bytes, codes, bytes_equal}
use sigmaproof.Storage.Types.{Stored, unsupported_schema, foreign_database}
use sigmaproof.Storage.Bolt.{Bolt, BucketPath, Database, update, bolt_create, bolt_put}
use sigmaproof.Storage.Records.{tenants_path}

abbrev pub schema_path : BucketPath
schema_path = codes "schema" ∷ []

abbrev pub version_key : Bytes
version_key = codes "version"

abbrev pub schema_version : Bytes
schema_version = 1 ∷ []

unfoldable pub is_version : Option Bytes → Bool
is_version none = false
is_version (some v) = bytes_equal v schema_version

module _ ⦃bolt : Bolt⦄ where
  unfoldable pub check_schema : Database → Stored (Unit {0} × Database)
  check_schema tx =
      if not (is_version (bolt.get tx schema_path version_key)) || not (bolt.has tx tenants_path)
      then err unsupported_schema
      else ok (tt, tx)

  unfoldable pub create_schema : Database → Stored (Unit {0} × Database)
  create_schema tx = do
    tx1 ← bolt_create tx schema_path
    tx2 ← bolt_put tx1 schema_path version_key schema_version
    tx3 ← bolt_create tx2 tenants_path
    ok (tt, tx3)

  unfoldable pub open_tx : Database → Stored (Unit {0} × Database)
  open_tx tx =
      if bolt.has tx schema_path
      then check_schema tx
      else if not (bolt.is_empty tx)
      then err foreign_database
      else create_schema tx

  unfoldable pub open_store : Database → Stored (Unit {0}) × Database
  open_store db = update open_tx db
