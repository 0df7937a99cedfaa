-- ===== src/Files/Service.antt =====
-- services/files/service.go: Upload, Open (open_file), Delete, GetByID, DeleteByID and SweepExpired.
-- `uuid_text` is the text of a UUID, `checksum` the hexadecimal SHA-256 of a text, and `fresh` what
-- uuid.New() gives. One time stands for the clocks of the server and of the database, and a reader that
-- fails is a store that does.
use open_model_gateway.Base.{
  ℕ, ◌+◌, ℤ, pos, negsuc, ◌+ℤ◌, ◌&&◌, ltb_ℤ, is_pos, pos_part, ◌*◌, String, Bool, false, not,
  Option, none, some, List, [], ◌∷◌, ◌==◌, string_eq, ◌||◌, Error, Act, ◌>>=◌, ◌>>◌, return, fail,
  ignore, on_result, if◌then◌else◌, append, trim_space, ◌-◌,
}
use open_model_gateway.Files.Tables.{
  File, Shelf, BlobStore, ObjectInfo, PutOptions, CreateFileParams, create_file, get_file,
  get_file_by_id, delete_file, list_expired_files,
}

pub record FilesConfig : Type 0 where
  pub max_size_mb : ℤ
  pub default_ttl : ℤ
  pub max_ttl : ℤ
  pub storage : String

pub record UploadParams : Type 0 where
  pub tenant_id : ℕ
  pub filename : String
  pub purpose : String
  pub content_type : String
  pub content_len : ℤ
  pub ttl : ℤ
  pub reader : String

pub record FileRecord : Type 0 where
  pub id : ℕ
  pub tenant_id : ℕ
  pub filename : String
  pub purpose : String
  pub content_type : String
  pub bytes : ℤ
  pub storage_key : String
  pub storage_backend : String
  pub encrypted : Bool
  pub checksum : String
  pub expires_at : ℤ
  pub created_at : ℤ
  pub deleted_at : Option ℤ
  pub status : String
  pub status_details : String
  pub status_updated_at : ℤ

abbrev pub allowed_purposes : List String
allowed_purposes =
    "fine-tune" ∷ "batch" ∷ "assistants" ∷ "assistants_output" ∷ "vision" ∷ "moderation"
    ∷ "responses" ∷ "fine-tune-results" ∷ []

unfoldable pub is_allowed : String → List String → Bool
is_allowed purpose [] = false
is_allowed purpose (other ∷ rest) = purpose == other || is_allowed purpose rest

abbrev pub from_pg_text : Option String → String
from_pg_text none = ""
from_pg_text (some s) = s

unfoldable pub to_file_record : File → FileRecord
to_file_record row = record {
  id = row.id;
  tenant_id = row.tenant_id;
  filename = row.filename;
  purpose = row.purpose;
  content_type = row.content_type;
  bytes = row.bytes;
  storage_key = row.storage_key;
  storage_backend = row.storage_backend;
  encrypted = row.encrypted;
  checksum = from_pg_text row.checksum;
  expires_at = row.expires_at;
  created_at = row.created_at;
  deleted_at = row.deleted_at;
  status = row.status;
  status_details = from_pg_text row.status_details;
  status_updated_at = row.status_updated_at;
}

-- int64(s.cfg.MaxSizeMB) * 1024 * 1024
abbrev pub mebibytes : ℤ → ℤ
mebibytes (pos n) = pos (n * 1_048_576)
mebibytes (negsuc n) = negsuc ((n + 1) * 1_048_576 - 1)

unfoldable pub file_ttl : FilesConfig → ℤ → ℤ
file_ttl cfg asked =
    let ttl = if is_pos asked then asked else cfg.default_ttl in
    if ltb_ℤ cfg.max_ttl ttl then cfg.max_ttl else ttl

unfoldable pub check_upload : {S : Type 0} → FilesConfig → UploadParams → Act S (Unit {0})
check_upload cfg params =
    if trim_space params.filename == ""
    then fail (Error.message "filename required")
    else if not (is_allowed params.purpose allowed_purposes)
    then fail (Error.message "unsupported purpose")
    else if is_pos params.content_len && ltb_ℤ (mebibytes cfg.max_size_mb) params.content_len
    then fail (Error.message "file exceeds max size")
    else return tt

module _ {B : Type 0} (store : BlobStore B) where
  -- A call of the store.
  abbrev pub on_blobs : {A : Type 0} → Act B A → Act (Shelf B) A
  on_blobs run s = ((run s.blobs).0, record s { blobs = (run s.blobs).1 })

  unfoldable pub open_file : ℕ → ℕ → Act (Shelf B) (String × FileRecord)
  open_file tenant id = get_file tenant id >>= λ row.
      let rec = to_file_record row in
      on_blobs (store.get rec.storage_key) >>= λ reader. return (reader, rec)

  unfoldable pub delete_own_file : ℤ → ℕ → ℕ → Act (Shelf B) (Unit {0})
  delete_own_file now tenant id = get_file tenant id >>= λ rec.
      on_blobs (store.delete rec.storage_key)
      >> delete_file now tenant id "deleted by tenant request"

  unfoldable pub file_by_id : ℕ → Act (Shelf B) FileRecord
  file_by_id id = get_file_by_id id >>= λ row. return (to_file_record row)

  unfoldable pub delete_file_by_id : ℤ → ℕ → Act (Shelf B) (Unit {0})
  delete_file_by_id now id =
      get_file_by_id id >>= λ rec. delete_file now rec.tenant_id rec.id "deleted by admin"

  unfoldable pub sweep_files : ℤ → List File → Act (Shelf B) (Unit {0})
  sweep_files now [] = return tt
  sweep_files now (rec ∷ expired) =
      ignore (on_blobs (store.delete rec.storage_key))
      >> ignore (delete_file now rec.tenant_id rec.id "expired")
      >> sweep_files now expired

  unfoldable pub sweep_expired : ℤ → ℤ → Act (Shelf B) (Unit {0})
  sweep_expired now batch_size =
      list_expired_files now (if is_pos batch_size then pos_part batch_size else 100)
      >>= sweep_files now

  module _ (uuid_text : ℕ → String) (checksum : String → String) (cfg : FilesConfig)
      (fresh : ℕ) where
    unfoldable pub storage_key_of : UploadParams → String
    storage_key_of params =
        append "tenant/" (append (uuid_text params.tenant_id) (append "/" (uuid_text fresh)))

    abbrev pub put_options : UploadParams → PutOptions
    put_options params = record {
      content_type = params.content_type;
      metadata = ("purpose", params.purpose) ∷ ("filename", params.filename) ∷ [];
    }

    unfoldable pub create_params : ℤ → UploadParams → ObjectInfo → CreateFileParams
    create_params now params info = record {
      tenant_id = params.tenant_id;
      filename = params.filename;
      purpose = params.purpose;
      content_type = params.content_type;
      bytes = if is_pos params.content_len then params.content_len else info.size;
      storage_backend = trim_space cfg.storage;
      storage_key = storage_key_of params;
      checksum = some (checksum params.reader);
      encrypted = info.encrypted;
      expires_at = now +ℤ file_ttl cfg params.ttl;
      status = "uploaded";
    }

    -- Upload after Put.
    unfoldable pub record_file : ℤ → UploadParams → ObjectInfo → Act (Shelf B) FileRecord
    record_file now params info =
        on_result (create_file now (create_params now params info))
          (λ row. return (to_file_record row))
          (λ e. ignore (on_blobs (store.delete (storage_key_of params))) >> fail e)

    unfoldable pub upload : ℤ → UploadParams → Act (Shelf B) FileRecord
    upload now params =
        check_upload cfg params
        >> on_blobs (store.put (storage_key_of params) params.reader (put_options params))
        >>= record_file now params
