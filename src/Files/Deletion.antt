-- ===== src/Files/Deletion.antt =====
-- A deleted file is gone for its tenant.
use open_model_gateway.Base.{
  ℕ, ℤ, ◌≡◌, refl, String, none, some, List, [], ◌∷◌, nat_eq, Result, ok, err, Error, Act, ◌>>◌,
  bind-Post, first, update, arith, Option,
}
use open_model_gateway.Files.Tables.{
  File, Shelf, BlobStore, is_file, deleted_file, get_file, delete_file, query, asked,
}
use open_model_gateway.Files.Service.{open_file, delete_own_file, on_blobs}

first-deleted :
    (now : ℤ) (reason : String) (tenant id : ℕ) (rows : List File)
    → first (is_file tenant id) (update (is_file tenant id) (deleted_file now reason) rows) ≡ none
unfolding first update is_file deleted_file
first-deleted now reason tenant id [] = refl
first-deleted now reason tenant id (row ∷ rows) =
    ground (arith, first-deleted now reason tenant id rows)

module _ {B : Type 0} (store : BlobStore B) (now : ℤ) (tenant id : ℕ) where
  -- After a success, the tenant does not find the file, the database answering.
  abbrev pub Gone : Result (Unit {0}) → Shelf B → Type 0
  Gone (ok done) t = (open_file store tenant id (record t { faults = [] })).0 ≡ err Error.no_rows
  Gone (err e) t = Unit {0}

  emptied :
      (reason : String) (s : Shelf B)
      → (open_file store tenant id (record s {
        files = update (is_file tenant id) (deleted_file now reason) s.files;
        faults = [];
      })).0
        ≡ err Error.no_rows
  unfolding query open_file get_file
  emptied reason s = rw (first-deleted now reason tenant id s.files)

  delete_file-Gone :
      (reason : String) (s : Shelf B)
      → Gone (delete_file now tenant id reason s).0 (delete_file now tenant id reason s).1
  unfolding delete_file query
  delete_file-Gone reason s = by_faults s.faults
    where
      run : Act (Shelf B) (Unit {0})
      run s =
          (ok tt, record s { files = update (is_file tenant id) (deleted_file now reason) s.files })

      by_faults :
          (faults : List (Option Error)) → Gone (asked run faults s).0 (asked run faults s).1
      by_faults [] = emptied reason s
      by_faults (none ∷ later) = emptied reason s
      by_faults (some e ∷ later) = tt

-- A tenant who deletes a file without an error does not find it again: opening it, the database answering,
-- gives the error of a missing row, whatever the rows, the blobs and the faults were before.
pub delete_own_file-Gone :
    {B : Type 0} (store : BlobStore B) (now : ℤ) (tenant id : ℕ) (s : Shelf B)
    → Gone store now tenant id
        (delete_own_file store now tenant id s).0
        (delete_own_file store now tenant id s).1
unfolding delete_own_file
delete_own_file-Gone store now tenant id s =
    let gone = Gone store now tenant id in
    bind-Post (λ r t. Unit {0}) gone (get_file tenant id)
      (λ rec.
        on_blobs store (store.delete rec.storage_key)
        >> delete_file now tenant id "deleted by tenant request")
      s tt
      (λ rec t h.
        bind-Post (λ r t. Unit {0}) gone (on_blobs store (store.delete rec.storage_key))
          (λ _. delete_file now tenant id "deleted by tenant request") t tt
          (λ done u h. delete_file-Gone store now tenant id "deleted by tenant request" u)
          (λ e u h. tt))
      (λ e t h. tt)
