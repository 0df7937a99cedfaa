-- ===== src/Files/Tables.antt =====
-- The table of files, db/files.sql.go, and the interface blob.Store of storage/blob/store.go. The column
-- metadata is left out, and a row's UUID is a number. `faults` says of each coming query whether the
-- connection fails; past its end no query does. A time counts nanoseconds, and NOW() is an argument.
use open_model_gateway.Base.{
  ℕ, suc, ℤ, ltb_ℤ, String, Bool, true, false, ◌&&◌, not, Option, none, some, List, [], ◌∷◌, ◌==◌,
  string_eq, nat_eq, GoMap, ok, err, Error, Act, update, first, select, take,
}

pub record File : Type 0 where
  pub id : ℕ
  pub tenant_id : ℕ
  pub filename : String
  pub purpose : String
  pub content_type : String
  pub bytes : ℤ
  pub storage_backend : String
  pub storage_key : String
  pub checksum : Option String
  pub encrypted : Bool
  pub expires_at : ℤ
  pub created_at : ℤ
  pub deleted_at : Option ℤ
  pub status : String
  pub status_details : Option String
  pub status_updated_at : ℤ

pub record PutOptions : Type 0 where
  pub content_type : String
  pub metadata : GoMap String String

-- ObjectInfo; the fields that this code does not read are left out.
pub record ObjectInfo : Type 0 where
  pub size : ℤ
  pub encrypted : Bool

-- blob.Store, over the state B of an implementation. A reader is the text that it gives.
pub record BlobStore (B : Type 0) : Type 0 where
  pub put : String → String → PutOptions → Act B ObjectInfo
  pub get : String → Act B String
  pub delete : String → Act B (Unit {0})

-- The database and the blobs.
pub record Shelf (B : Type 0) : Type 0 where
  pub files : List File
  pub next_id : ℕ
  pub blobs : B
  pub faults : List (Option Error)

pub record CreateFileParams : Type 0 where
  pub tenant_id : ℕ
  pub filename : String
  pub purpose : String
  pub content_type : String
  pub bytes : ℤ
  pub storage_backend : String
  pub storage_key : String
  pub checksum : Option String
  pub encrypted : Bool
  pub expires_at : ℤ
  pub status : String

-- The row is live and has the tenant and the id.
abbrev pub is_live : File → Bool
is_live row = elim row.deleted_at [ none ↦ true | some at ↦ false ]

unfoldable pub is_file : ℕ → ℕ → File → Bool
is_file tenant id row = row.tenant_id == tenant && row.id == id && is_live row

unfoldable pub new_file : ℤ → ℕ → CreateFileParams → File
new_file now id arg = record {
  id = id;
  tenant_id = arg.tenant_id;
  filename = arg.filename;
  purpose = arg.purpose;
  content_type = arg.content_type;
  bytes = arg.bytes;
  storage_backend = arg.storage_backend;
  storage_key = arg.storage_key;
  checksum = arg.checksum;
  encrypted = arg.encrypted;
  expires_at = arg.expires_at;
  created_at = now;
  deleted_at = none;
  status = arg.status;
  status_details = none;
  status_updated_at = now;
}

unfoldable pub deleted_file : ℤ → String → File → File
deleted_file now reason row = record row {
  deleted_at = some now;
  status = "deleted";
  status_details = some reason;
  status_updated_at = now;
}

-- expires_at <= $1
abbrev pub is_expired : ℤ → File → Bool
is_expired now row = is_live row && not (ltb_ℤ now row.expires_at)

module _ {B : Type 0} where
  abbrev pub asked : {A : Type 0} → Act (Shelf B) A → List (Option Error) → Act (Shelf B) A
  asked run [] s = run s
  asked run (none ∷ later) s = run (record s { faults = later })
  asked run (some e ∷ later) s = (err e, record s { faults = later })

  -- One query on the connection.
  unfoldable pub query : {A : Type 0} → Act (Shelf B) A → Act (Shelf B) A
  query run s = asked run s.faults s

  abbrev pub found : {A : Type 0} → Option A → Act (Shelf B) A
  found none s = (err Error.no_rows, s)
  found (some row) s = (ok row, s)

  unfoldable pub create_file : ℤ → CreateFileParams → Act (Shelf B) File
  create_file now arg = query (λ s.
      let row = new_file now s.next_id arg in
      (ok row, record s { files = row ∷ s.files; next_id = suc s.next_id }))

  unfoldable pub get_file : ℕ → ℕ → Act (Shelf B) File
  get_file tenant id = query (λ s. found (first (is_file tenant id) s.files) s)

  unfoldable pub get_file_by_id : ℕ → Act (Shelf B) File
  get_file_by_id id = query (λ s. found (first (λ row. row.id == id) s.files) s)

  unfoldable pub delete_file : ℤ → ℕ → ℕ → String → Act (Shelf B) (Unit {0})
  delete_file now tenant id reason = query (λ s.
      (ok tt, record s { files = update (is_file tenant id) (deleted_file now reason) s.files }))

  -- Postgres gives any $2 rows, since no order is asked for; here they are the first.
  unfoldable pub list_expired_files : ℤ → ℕ → Act (Shelf B) (List File)
  list_expired_files now limit = query (λ s. (ok (take limit (select (is_expired now) s.files)), s))
