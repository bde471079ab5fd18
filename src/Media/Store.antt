-- ===== src/Media/Store.antt =====
-- server/internal/media/model.go and store.go: the table media_uploads and each statement. Text is as
-- protobuf delivers it, valid UTF-8. An int64 is its pattern of 64 bits.
use fproto.Base.{
  ℕ, suc, ◌+◌, Bool, ◌&&◌, ◌||◌, Option, none, some, List, [], ◌∷◌, ◌++◌, Bytes, Result, ok, err,
  ltb, leb, if◌then◌else◌, bytes_equal, any,
}
use fproto.Sql.{DbError, violation, no_rows, unscannable, Outcome, Answer, exec, always, query}

pub data Status : Type 0 where
  uploading completed failed expired : Status

-- A row; s3_url and file_hash may be NULL.
pub record Upload : Type 0 where
  pub id : ℕ
  pub stream_id : Bytes
  pub user_id : Bytes
  pub mime_type : Bytes
  pub total_size : ℕ
  pub status : Status
  pub s3_key : Bytes
  pub s3_url : Option Bytes
  pub file_hash : Option Bytes
  pub created_at : ℕ
  pub updated_at : ℕ

pub record Table : Type 0 where
  pub rows : List Upload
  pub next_id : ℕ
  pub now : ℕ

-- The upload that Insert is given.
pub record NewUpload : Type 0 where
  pub stream_id : Bytes
  pub user_id : Option Bytes
  pub mime_type : Bytes
  pub total_size : ℕ
  pub s3_key : Bytes
  pub file_hash : Option Bytes

-- The characters of a text: the bytes that do not continue one.
unfoldable pub char_count : Bytes → ℕ
char_count [] = 0
char_count (b ∷ bs) = (if leb 128 b && ltb b 192 then 0 else 1) + char_count bs

abbrev pub drawn : Table → Table
drawn t = record t { next_id = suc t.next_id }

abbrev pub has_stream : Bytes → Upload → Bool
has_stream id u = bytes_equal u.stream_id id

-- The row that the INSERT makes of an upload by `user`.
unfoldable pub row_of : NewUpload → Bytes → Table → Upload
row_of u user t = record {
  id = t.next_id;
  stream_id = u.stream_id;
  user_id = user;
  mime_type = u.mime_type;
  total_size = u.total_size;
  status = uploading;
  s3_key = u.s3_key;
  s3_url = none;
  file_hash = u.file_hash;
  created_at = t.now;
  updated_at = t.now;
}

-- VARCHAR(255), then the NOT NULL column, then UNIQUE (stream_id).
unfoldable pub insert_row : NewUpload → Option Bytes → Table → Answer Table
insert_row u none t = (err violation, drawn t)
insert_row u (some user) t =
    if ltb 255 (char_count u.mime_type) || any (has_stream u.stream_id) t.rows
    then (err violation, drawn t)
    else (ok tt, record t { rows = t.rows ++ row_of u user t ∷ []; next_id = suc t.next_id })

abbrev pub insert : Outcome → NewUpload → Table → Answer Table
insert o u = exec o (insert_row u u.user_id)

-- Scan stores the column s3_url in a string: pgx's Scan of a NULL is the parameter, whether it stores
-- the empty string. `none` in the row that is read stands for that string.
abbrev pub scan_upload : Bool → Upload → Option Bytes → Result DbError Upload
scan_upload stores_null u (some url) = ok u
scan_upload stores_null u none = if stores_null then ok u else err unscannable

unfoldable pub find_stream : Bool → Bytes → List Upload → Result DbError Upload
find_stream stores_null id [] = err no_rows
find_stream stores_null id (u ∷ us) =
    if has_stream id u then scan_upload stores_null u u.s3_url else find_stream stores_null id us

abbrev pub get_by_stream_id : Bool → Outcome → Bytes → Table → Result DbError Upload
get_by_stream_id stores_null o id t = query o (find_stream stores_null id t.rows)

unfoldable pub update_rows : Bytes → (Upload → Upload) → List Upload → List Upload
update_rows id f [] = []
update_rows id f (u ∷ us) = (if has_stream id u then f u else u) ∷ update_rows id f us

unfoldable pub mark_completed : Outcome → Bytes → Bytes → Table → Answer Table
mark_completed o id url = exec o (
    always (λ t. record t {
      rows =
          update_rows id
            (λ u. record u { status = completed; s3_url = some url; updated_at = t.now }) t.rows;
    }))

unfoldable pub mark_failed : Outcome → Bytes → Table → Answer Table
mark_failed o id = exec o (
    always (λ t. record t {
      rows = update_rows id (λ u. record u { status = failed; updated_at = t.now }) t.rows;
    }))
