-- ===== src/Files/Stored.antt =====
-- What an upload leaves.
use open_model_gateway.Base.{
  ℕ, suc, ℤ, ◌+ℤ◌, ◌≤ℤ◌, ◌≡◌, refl, sym, ap, String, Bool, true, false, ◌&&◌, Option, none, some,
  List, [], ◌∷◌, string_eq, nat_eq, beq_refl, Result, ok, err, Error, is_ok, int_laws, first, arith,
  after, subst,
}
use open_model_gateway.Files.Tables.{
  File, Shelf, BlobStore, ObjectInfo, PutOptions, is_file, new_file, get_file, create_file, query,
}
use open_model_gateway.Files.Service.{
  FilesConfig, UploadParams, FileRecord, file_ttl, check_upload, storage_key_of, put_options,
  create_params, record_file, upload, on_blobs, open_file, to_file_record,
}

-- A text that was put is got again.
abbrev pub KeepsPut : {B : Type 0} → BlobStore B → Type 0
KeepsPut {B} store =
    (key content : String) (options : PutOptions) (b : B)
    → is_ok (store.put key content options b).0 ≡ true
    → (store.get key (store.put key content options b).1).0 ≡ ok content

abbrev pub connects : List (Option Error) → Bool
connects [] = true
connects (none ∷ later) = true
connects (some e ∷ later) = false

file_ttl-le : (cfg : FilesConfig) (asked : ℤ) → file_ttl cfg asked ≤ℤ cfg.max_ttl
unfolding file_ttl
file_ttl-le cfg asked = grind (int_laws)

module _ {B : Type 0} (store : BlobStore B) (uuid_text : ℕ → String) (checksum : String → String)
    (cfg : FilesConfig) (fresh : ℕ) (now : ℤ) (params : UploadParams) where
  -- The store's answer.
  abbrev pub stored : Shelf B → Result ObjectInfo × B
  stored s =
      store.put (storage_key_of store uuid_text checksum cfg fresh params) params.reader
        (put_options store uuid_text checksum cfg fresh params) s.blobs

  abbrev pub Uploaded : Shelf B → Result FileRecord → Shelf B → Type 0
  Uploaded s (ok rec) t =
      (rec.tenant_id ≡ params.tenant_id)
      × (rec.expires_at ≤ℤ (now +ℤ cfg.max_ttl))
      × ((open_file store params.tenant_id rec.id (record t { faults = [] })).0
          ≡ ok (params.reader, rec))
  Uploaded s (err e) t = t.files ≡ s.files

  check_upload-state : (s : Shelf B) → (check_upload cfg params s).1 ≡ s
  unfolding check_upload
  check_upload-state s = ground arith

  -- The row that CreateFile inserts.
  abbrev pub inserted : Shelf B → ObjectInfo → File
  inserted s info =
      new_file now s.next_id (create_params store uuid_text checksum cfg fresh now params info)

  inserted-expires :
      (s : Shelf B) (info : ObjectInfo) → (inserted s info).expires_at ≤ℤ (now +ℤ cfg.max_ttl)
  unfolding new_file create_params
  inserted-expires s info = grind (int_laws, file_ttl-le cfg params.ttl)

  inserted-opens :
      KeepsPut store
      → (s : Shelf B) (info : ObjectInfo) → (stored s).0 ≡ ok info
      → (open_file store params.tenant_id s.next_id (record s {
        files = inserted s info ∷ s.files;
        next_id = suc s.next_id;
        blobs = (stored s).1;
        faults = [];
      })).0
        ≡ ok (params.reader, to_file_record (inserted s info))
  unfolding open_file get_file query first is_file new_file create_params to_file_record
  inserted-opens keeps s info h =
      let kept =
        keeps (storage_key_of store uuid_text checksum cfg fresh params) params.reader
          (put_options store uuid_text checksum cfg fresh params) s.blobs (ap is_ok h) in
      rw (beq_refl params.tenant_id, beq_refl s.next_id, kept)

  record_file-Uploaded :
      KeepsPut store
      → (s : Shelf B) (info : ObjectInfo) (h : (stored s).0 ≡ ok info)
        (faults : List (Option Error))
      → let put = record s { blobs = (stored s).1; faults = faults } in
        (is_ok (record_file store uuid_text checksum cfg fresh now params info put).0
          ≡ connects faults)
        × Uploaded s
            (record_file store uuid_text checksum cfg fresh now params info put).0
            (record_file store uuid_text checksum cfg fresh now params info put).1
  unfolding record_file create_file query create_params storage_key_of to_file_record open_file
      get_file is_file new_file first
  record_file-Uploaded keeps s info h [] =
      (refl, (refl, inserted-expires s info, inserted-opens keeps s info h))
  record_file-Uploaded keeps s info h (none ∷ later) =
      (refl, (refl, inserted-expires s info, inserted-opens keeps s info h))
  record_file-Uploaded keeps s info h (some e ∷ later) = (refl, refl)

  -- The result of an upload whose guards, store and database answer as given.
  abbrev pub Ended : Shelf B → Bool → Result FileRecord × Shelf B → Type 0
  Ended s good w = (is_ok w.0 ≡ good) × Uploaded s w.0 w.1

  after_put :
      KeepsPut store
      → (s : Shelf B) (answer : Result ObjectInfo) → (stored s).0 ≡ answer
      → Ended s (is_ok answer && connects s.faults) (
          after
            (record_file store uuid_text checksum cfg fresh now params)
            answer
            (record s { blobs = (stored s).1 }))
  after_put keeps s (ok info) h = record_file-Uploaded keeps s info h s.faults
  after_put keeps s (err e) h = (refl, refl)

  abbrev pub put_and_record : Result (Unit {0}) × Shelf B → Result FileRecord × Shelf B
  put_and_record c =
      let w =
        after
          (λ _. on_blobs store (
            store.put (storage_key_of store uuid_text checksum cfg fresh params) params.reader
              (put_options store uuid_text checksum cfg fresh params)))
          c.0 c.1 in
      after (record_file store uuid_text checksum cfg fresh now params) w.0 w.1

  after_check :
      KeepsPut store
      → (s : Shelf B) (c : Result (Unit {0}))
      → Ended s (is_ok c && (is_ok (stored s).0 && connects s.faults)) (put_and_record (c, s))
  after_check keeps s (ok done) = after_put keeps s (stored s).0 refl
  after_check keeps s (err e) = (refl, refl)

-- If the store gives back what was put into it, an upload succeeds exactly when its guards pass, the store
-- takes the text and the database answers the insertion. The record of a success has the tenant of the upload
-- and expires no later than the longest lifetime allows, and the tenant who opens it, the database
-- answering, gets the uploaded text and the same record. A failed upload leaves the rows as they were.
pub upload-Uploaded :
    {B : Type 0} (store : BlobStore B) (uuid_text : ℕ → String) (checksum : String → String)
    (cfg : FilesConfig) (fresh : ℕ) (now : ℤ) (params : UploadParams) (s : Shelf B)
    → KeepsPut store
    → Ended store uuid_text checksum cfg fresh now params s
        (is_ok (check_upload cfg params s).0
          && (is_ok (stored store uuid_text checksum cfg fresh now params s).0
              && connects s.faults))
        (upload store uuid_text checksum cfg fresh now params s)
unfolding upload
upload-Uploaded store uuid_text checksum cfg fresh now params s keeps =
    let c = check_upload cfg params s in
    let same = check_upload-state store uuid_text checksum cfg fresh now params s in
    subst
      (λ t.
        Ended store uuid_text checksum cfg fresh now params s
          (is_ok c.0
            && (is_ok (stored store uuid_text checksum cfg fresh now params s).0
                && connects s.faults))
          (put_and_record store uuid_text checksum cfg fresh now params (c.0, t)))
      (sym same) (after_check store uuid_text checksum cfg fresh now params keeps s c.0)
