-- ===== src/Media/Uploads.antt =====
-- server/internal/media/service.go and grpc_server.go.
use fproto.Base.{
  ℕ, ◌+◌, Bool, true, false, Option, none, some, ◌++◌, Bytes, codes, Result, ok, err, ◌==◌,
  if◌then◌else◌, encode_to_string, length,
}
use fproto.Message.{len_of, bytes_of}
use fproto.Sql.{DbError, Outcome, Answer}
use fproto.Media.Store
use fproto.Media.Store.{Status, uploading, completed, Upload, Table, NewUpload}
use fproto.Media.Objects.{
  ObjectError, StatAnswer, object_exists, presigned_url, upload_expiry, download_expiry,
}

pub data MediaError : Type 0 where
  no_random not_uploading object_not_found not_completed : MediaError
  size_mismatch : ℕ → ℕ → MediaError
  store_failed : DbError → MediaError
  objects_failed : ObjectError → MediaError

-- What the service is given: how its statements end, and what the object store answers for a key.
pub record Env : Type 0 where
  pub stores_null : Bool
  pub insert : Outcome
  pub read : Outcome
  pub mark : Outcome
  pub put_url : Bytes → Option Bytes
  pub get_url : Bytes → Option Bytes
  pub stat : Bytes → StatAnswer

unfoldable pub s3_key_of : Option Bytes → Bytes → Bytes
s3_key_of user stream =
    codes "uploads/" ++ (encode_to_string (bytes_of user) ++ (codes "/" ++ encode_to_string stream))

-- An upload by `user`, under a new stream.
unfoldable pub new_upload : Bytes → Option Bytes → Bytes → ℕ → Option Bytes → NewUpload
new_upload stream user mime size hash = record {
  stream_id = stream;
  user_id = user;
  mime_type = mime;
  total_size = size;
  s3_key = s3_key_of user stream;
  file_hash = hash;
}

abbrev pub url_or_error : Result ObjectError Bytes → Result MediaError Bytes
url_or_error (ok url) = ok url
url_or_error (err e) = err (objects_failed e)

abbrev pub with_stream : Bytes → Result MediaError Bytes → Result MediaError (Bytes × Bytes)
with_stream stream (ok url) = ok (stream, url)
with_stream stream (err e) = err e

abbrev pub after_insert :
    Env → Bytes → Bytes → Answer Table → Result MediaError (Bytes × Bytes) × Table
after_insert env stream key (err e, t) = (err (store_failed e), t)
after_insert env stream key (ok u, t) =
    (with_stream stream (url_or_error (presigned_url (env.put_url key))), t)

-- InitUpload, with the random bytes of the new stream's id: the stream and the URL.
unfoldable pub init_upload :
    Env
    → Option Bytes
    → Option Bytes
    → Bytes
    → ℕ
    → Option Bytes
    → Table
    → Result MediaError (Bytes × Bytes) × Table
init_upload env none user mime size hash t = (err no_random, t)
init_upload env (some stream) user mime size hash t =
    after_insert env stream (s3_key_of user stream)
      (Store.insert env.insert (new_upload stream user mime size hash) t)

abbrev pub is_uploading : Status → Bool
is_uploading uploading = true
is_uploading _ = false

abbrev pub is_completed : Status → Bool
is_completed completed = true
is_completed _ = false

-- The answer of CompleteUpload, and the table.
abbrev pub Completion : Type 0
Completion = Result MediaError Bytes × Table

abbrev pub marked : Bytes → Answer Table → Completion
marked url (ok u, t) = (ok url, t)
marked url (err e, t) = (err (store_failed e), t)

-- From the download URL on.
abbrev pub after_url : Env → Bytes → Table → Result MediaError Bytes → Completion
after_url env stream t (err e) = (err e, t)
after_url env stream t (ok url) = marked url (Store.mark_completed env.mark stream url t)

-- The check of the object in the store.
abbrev pub after_stat : Env → Bytes → Upload → Table → Result ObjectError (Bool × ℕ) → Completion
after_stat env stream u t (err e) = (err (objects_failed e), t)
after_stat env stream u t (ok (false, size)) = (err object_not_found, t)
after_stat env stream u t (ok (true, size)) =
    if size == u.total_size
    then after_url env stream t (url_or_error (presigned_url (env.get_url u.s3_key)))
    else (err (size_mismatch u.total_size size), t)

abbrev pub after_read : Env → Bytes → Table → Result DbError Upload → Completion
after_read env stream t (err e) = (err (store_failed e), t)
after_read env stream t (ok u) =
    if is_uploading u.status
    then after_stat env stream u t (object_exists (env.stat u.s3_key))
    else (err not_uploading, t)

-- CompleteUpload; the hash that it is given is not used.
unfoldable pub complete_upload : Env → Bytes → Option Bytes → Table → Completion
complete_upload env stream hash t =
    after_read env stream t (Store.get_by_stream_id env.stores_null env.read stream t)

abbrev pub url_of : Env → Result DbError Upload → Result MediaError Bytes
url_of env (err e) = err (store_failed e)
url_of env (ok u) =
    if is_completed u.status
    then url_or_error (presigned_url (env.get_url u.s3_key))
    else err not_completed

unfoldable pub get_download_url : Env → Bytes → Table → Result MediaError Bytes
get_download_url env stream t =
    url_of env (Store.get_by_stream_id env.stores_null env.read stream t)

pub data RpcError : Type 0 where
  user_id_required mime_type_required total_size_required stream_id_required : RpcError
  internal : MediaError → RpcError

abbrev pub initialised :
    ℕ → Result MediaError (Bytes × Bytes) × Table → Result RpcError (Bytes × Bytes × ℕ) × Table
initialised now (ok (stream, url), t) = (ok (stream, url, now + upload_expiry), t)
initialised now (err e, t) = (err (internal e), t)

-- GRPCServer.InitUpload at the time `now`: the stream, the URL and when it expires. The uint64 of the
-- request is passed on as an int64, which has the same pattern.
unfoldable pub rpc_init_upload :
    Env
    → ℕ
    → Option Bytes
    → Option Bytes
    → Bytes
    → ℕ
    → Option Bytes
    → Table
    → Result RpcError (Bytes × Bytes × ℕ) × Table
rpc_init_upload env now random user mime size hash t =
    if len_of user == 0
    then (err user_id_required, t)
    else if length mime == 0
    then (err mime_type_required, t)
    else if size == 0
    then (err total_size_required, t)
    else initialised now (init_upload env random user mime size hash t)

abbrev pub answered : Completion → Result RpcError Bytes × Table
answered (ok url, t) = (ok url, t)
answered (err e, t) = (err (internal e), t)

unfoldable pub rpc_complete_upload :
    Env → Option Bytes → Option Bytes → Table → Result RpcError Bytes × Table
rpc_complete_upload env stream hash t =
    if len_of stream == 0
    then (err stream_id_required, t)
    else answered (complete_upload env (bytes_of stream) hash t)

abbrev pub expiring : ℕ → Result MediaError Bytes → Result RpcError (Bytes × ℕ)
expiring now (ok url) = ok (url, now + download_expiry)
expiring now (err e) = err (internal e)

unfoldable pub rpc_get_download_url : Env → ℕ → Option Bytes → Table → Result RpcError (Bytes × ℕ)
rpc_get_download_url env now stream t =
    if len_of stream == 0
    then err stream_id_required
    else expiring now (get_download_url env (bytes_of stream) t)
