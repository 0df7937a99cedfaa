-- ===== src/Batches/Service.antt =====
-- services/batches/service.go. encoding/json, strings.ToUpper, strconv and the files service are
-- parameters; a batch's metadata, which no operation reads, is left out.
use open_model_gateway.Base.{
  Bool, ℕ, suc, ◌+◌, String, ◌&&◌, ◌||◌, not, Option, none, some, List, [], ◌∷◌, ◌==◌, nat_eq,
  string_eq, ltb, Result, ok, err, Error, Act, ◌>>=◌, ◌>>◌, return, fail, if◌then◌else◌, trim_space,
  length,
}
use Prim.Native.Char.{code}
use Prim.Native.String.{◌++◌}
use open_model_gateway.Batches.Tables.{Batch, BatchItem, BatchError, Status, Db}
use open_model_gateway.Batches.Queries.{
  cancel_batch, get_batch, get_batch_by_id, get_oldest_queued_batch, mark_batch_in_progress,
  claim_next_batch_item, mark_batch_final_status, create_batch, insert_batch_item,
}

pub record CreateParams : Type 0 where
  pub tenant_id : ℕ
  pub api_key_id : ℕ
  pub endpoint : String
  pub completion_window : String
  pub input_file_id : ℕ
  pub max_concurrency : ℕ

-- config.BatchesConfig; a duration or a count that is not positive is 0.
pub record BatchesConfig : Type 0 where
  pub max_requests : ℕ
  pub max_concurrency : ℕ
  pub default_ttl : ℕ
  pub max_ttl : ℕ

-- batchInput; `body` is empty when the field is absent.
pub record BatchInput : Type 0 where
  pub custom_id : String
  pub method : String
  pub url : String
  pub body : String

pub record Codec : Type 0 where
  pub unmarshal : String → Result BatchInput
  pub marshal : BatchInput → String
  pub to_upper : String → String
  pub itoa : ℕ → String

-- A file that files.Service.Open gives: its purpose and its lines.
pub record InputFile : Type 0 where
  pub purpose : String
  pub lines : List String

unfoldable with_slash : String → String
with_slash String.[] = "/"
with_slash (String.◌∷◌ c s) = if code c == 47 then String.◌∷◌ c s else "/" ++ (String.◌∷◌ c s)

unfoldable pub sanitize_endpoint : String → String
unfolding with_slash
sanitize_endpoint endpoint =
    if trim_space endpoint == "" then "" else known (with_slash (trim_space endpoint))
  where
    known : String → String
    known e =
        if e == "/v1/chat/completions" || e == "/v1/embeddings" || e == "/v1/images/generations"
        then e
        else ""

module _ (codec : Codec) where
  -- The checks of one line of the file.
  unfoldable pub read_entry : String → ℕ → BatchInput → Result BatchInput
  read_entry endpoint line entry =
      if not (codec.to_upper entry.method == "POST")
      then err (Error.message ("line " ++ codec.itoa line ++ ": method must be POST"))
      else if not (sanitize_endpoint entry.url == endpoint)
      then err (Error.message ("line " ++ codec.itoa line ++ ": url mismatch with endpoint"))
      else if entry.body == ""
      then err (Error.message ("line " ++ codec.itoa line ++ ": body required"))
      else ok entry

  unfoldable pub decode_line : String → ℕ → String → Result BatchInput
  decode_line endpoint line raw = decoded (codec.unmarshal raw)
    where
      decoded : Result BatchInput → Result BatchInput
      decoded (ok entry) = read_entry endpoint line entry
      decoded (err e) = err e

  abbrev pub prepend : Result BatchInput → Result (List BatchInput) → Result (List BatchInput)
  prepend (err e) rest = err e
  prepend (ok entry) (err e) = err e
  prepend (ok entry) (ok entries) = ok (entry ∷ entries)

  -- readBatchFile, after `line` lines.
  unfoldable pub read_batch_file : String → ℕ → List String → Result (List BatchInput)
  read_batch_file endpoint line [] = ok []
  read_batch_file endpoint line (text ∷ lines) =
      let rest = read_batch_file endpoint (suc line) lines in
      if trim_space text == ""
      then rest
      else prepend (decode_line endpoint (suc line) (trim_space text)) rest

  unfoldable pub insert_items : ℕ → ℕ → List BatchInput → Act Db (Unit {0})
  insert_items batch index [] = return tt
  insert_items batch index (entry ∷ entries) =
      insert_batch_item batch index
        (if trim_space entry.custom_id == "" then none else some entry.custom_id)
        (codec.marshal entry)
      >> insert_items batch (suc index) entries

  -- The lifetime of a batch: 168 hours by default, and the configured maximum at most.
  unfoldable pub batch_ttl : BatchesConfig → ℕ
  batch_ttl cfg =
      let ttl = if cfg.default_ttl == 0 then 604800 else cfg.default_ttl in
      if ltb 0 cfg.max_ttl && ltb cfg.max_ttl ttl then cfg.max_ttl else ttl

  unfoldable pub batch_concurrency : BatchesConfig → ℕ → ℕ
  batch_concurrency cfg asked =
      if asked == 0 || ltb cfg.max_concurrency asked
      then (if cfg.max_concurrency == 0 then 10 else cfg.max_concurrency)
      else asked

  -- The rows of a batch whose file has been read; its completion window is checked to be "24h".
  unfoldable pub store_batch :
      BatchesConfig → ℕ → CreateParams → String → List BatchInput → Act Db Batch
  store_batch cfg now params endpoint entries =
      create_batch now params.tenant_id params.api_key_id Status.validating endpoint
        params.input_file_id "24h" (batch_concurrency cfg params.max_concurrency) (length entries)
        (now + batch_ttl cfg)
      >>= λ row. insert_items row.id 0 entries >> return row

  -- Create after the file has been read.
  unfoldable pub check_entries :
      BatchesConfig → ℕ → CreateParams → String → Result (List BatchInput) → Act Db Batch
  check_entries cfg now params endpoint (err e) = fail e
  check_entries cfg now params endpoint (ok entries) =
      if length entries == 0
      then fail (Error.message "batch file contained no valid requests")
      else if ltb cfg.max_requests (length entries)
      then fail
          (Error.message ("batch exceeds max of " ++ codec.itoa cfg.max_requests ++ " requests"))
      else if trim_space params.completion_window == ""
          || trim_space params.completion_window == "24h"
      then store_batch cfg now params endpoint entries
      else fail (Error.message "completion_window must be 24h")

  unfoldable pub check_file :
      BatchesConfig → ℕ → CreateParams → String → Result InputFile → Act Db Batch
  check_file cfg now params endpoint (err e) = fail e
  check_file cfg now params endpoint (ok file) =
      if file.purpose == "batch"
      then check_entries cfg now params endpoint (read_batch_file endpoint 0 file.lines)
      else fail (Error.message "file purpose must be batch")

  -- Service.Create; `opens` is s.files.Open.
  unfoldable pub create :
      (ℕ → ℕ → Result InputFile) → BatchesConfig → ℕ → CreateParams → Act Db Batch
  create opens cfg now params =
      if params.tenant_id == 0 || params.api_key_id == 0
      then fail (Error.message "tenant and api key required")
      else if sanitize_endpoint params.endpoint == ""
      then fail (Error.message "unsupported batch endpoint")
      else check_file cfg now params (sanitize_endpoint params.endpoint)
          (opens params.tenant_id params.input_file_id)

-- Service.Get, GetByID, Cancel and CancelByID
abbrev pub get : ℕ → ℕ → Act Db Batch
get tenant id = get_batch tenant id

abbrev pub get_by_id : ℕ → Act Db Batch
get_by_id id = get_batch_by_id id

unfoldable pub cancel : ℕ → ℕ → ℕ → Act Db Batch
cancel now tenant id = cancel_batch now tenant id

unfoldable pub cancel_by_id : ℕ → ℕ → Act Db Batch
cancel_by_id now id = get_by_id id >>= λ row. cancel now row.tenant_id id

-- Service.ClaimNextBatch, one transaction: an error leaves the tables unchanged.
unfoldable pub claim_next_batch : ℕ → Act Db Batch
claim_next_batch now = get_oldest_queued_batch >>= λ row. mark_batch_in_progress now row.id

abbrev pub claim_next_item : ℕ → ℕ → (ℕ → Bool) → Act Db BatchItem
claim_next_item now batch locked = claim_next_batch_item now batch locked

unfoldable pub finalize_batch :
    ℕ → ℕ → Status → Option ℕ → Option ℕ → List BatchError → Act Db Batch
finalize_batch now id status result_file error_file errors =
    mark_batch_final_status now id status result_file error_file errors
