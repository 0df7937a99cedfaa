-- ===== src/Tests/Files.antt =====
-- Examples for the files.
use open_model_gateway.Base.{
  ℕ, pos, false, ◌&&◌, Option, none, some, [], ◌∷◌, String, GoMap, lookup, insert, delete,
  lookup-insert, beq_refl, ok, err, Error, Result, string_eq, is_ok,
}
use open_model_gateway.Files.Tables.{BlobStore, Shelf}
use open_model_gateway.Files.Service.{
  FilesConfig, UploadParams, check_upload, upload, delete_own_file,
}
use open_model_gateway.Files.Stored.{KeepsPut, Ended, stored, connects, upload-Uploaded}
use open_model_gateway.Files.Deletion.{Gone, delete_own_file-Gone}

abbrev got : Option String → Result String
got none = err (Error.outside "blob not found")
got (some content) = ok content

abbrev memory_store : BlobStore (GoMap String String)
memory_store = record {
  put = λ key content options b.
      (ok (record { size = pos 5; encrypted = false }), insert key content b);
  get = λ key b. (got (lookup key b), b);
  delete = λ key b. (ok tt, delete key b);
}

abbrev file_cfg : FilesConfig
file_cfg = record {
  max_size_mb = pos 1;
  default_ttl = pos 100;
  max_ttl = pos 500;
  storage = "local";
}

abbrev lines : UploadParams
lines = record {
  tenant_id = 4;
  filename = "lines.jsonl";
  purpose = "batch";
  content_type = "application/x-ndjson";
  content_len = pos 0;
  ttl = pos 900;
  reader = "a\nb\nc";
}

abbrev empty_shelf : Shelf (GoMap String String)
empty_shelf = record { files = []; next_id = 1; blobs = []; faults = none ∷ [] }

abbrev id_text : ℕ → String
id_text n = "id"

abbrev sum_of : String → String
sum_of content = "sum"

memory_store-KeepsPut : KeepsPut memory_store
memory_store-KeepsPut key content options b h = rw (lookup-insert key key content b, beq_refl key)

upload-Uploaded_example :
    Ended memory_store id_text sum_of file_cfg 9
      (pos 20)
      lines
      empty_shelf
      (is_ok (check_upload file_cfg lines empty_shelf).0
        && (is_ok (stored memory_store id_text sum_of file_cfg 9 (pos 20) lines empty_shelf).0
            && connects empty_shelf.faults))
      (upload memory_store id_text sum_of file_cfg 9 (pos 20) lines empty_shelf)
upload-Uploaded_example =
    upload-Uploaded memory_store id_text sum_of file_cfg 9 (pos 20) lines empty_shelf
      memory_store-KeepsPut

-- The file of the upload above, deleted and then opened.
delete_own_file-Gone_example :
    let s = (upload memory_store id_text sum_of file_cfg 9 (pos 20) lines empty_shelf).1 in
    Gone memory_store
      (pos 30)
      4
      1
      (delete_own_file memory_store (pos 30) 4 1 s).0
      (delete_own_file memory_store (pos 30) 4 1 s).1
delete_own_file-Gone_example =
    delete_own_file-Gone memory_store (pos 30) 4 1
      (upload memory_store id_text sum_of file_cfg 9 (pos 20) lines empty_shelf).1
