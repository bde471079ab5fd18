-- ===== src/Media/Objects.antt =====
-- server/internal/media/s3.go. The client of the object store is a parameter: each function takes what
-- minio's calls return.
use fproto.Base.{
  ℕ, Bool, true, false, Option, none, some, Bytes, codes, Result, ok, err, if◌then◌else◌,
  bytes_equal,
}

abbrev pub upload_expiry : ℕ
upload_expiry = 3600

abbrev pub download_expiry : ℕ
download_expiry = 86400

pub data ObjectError : Type 0 where
  bucket_check_failed make_bucket_failed presign_failed stat_failed : ObjectError

-- StatObject: the size of the object, or the code of the error response.
pub data StatAnswer : Type 0 where
  object : ℕ → StatAnswer
  error_code : Bytes → StatAnswer

-- ObjectExists: whether there is one, and its size.
unfoldable pub object_exists : StatAnswer → Result ObjectError (Bool × ℕ)
object_exists (object size) = ok (true, size)
object_exists (error_code c) =
    if bytes_equal c (codes "NoSuchKey") then ok (false, 0) else err stat_failed

-- PresignedPutURL and PresignedGetURL, of the URL that minio returns.
unfoldable pub presigned_url : Option Bytes → Result ObjectError Bytes
presigned_url (some url) = ok url
presigned_url none = err presign_failed

-- EnsureBucket, of the answer of BucketExists and whether MakeBucket succeeds: the error, and whether
-- a bucket was made.
unfoldable pub ensure_bucket : Option Bool → Bool → Result ObjectError (Unit {0}) × Bool
ensure_bucket none makes = (err bucket_check_failed, false)
ensure_bucket (some true) makes = (ok tt, false)
ensure_bucket (some false) makes = if makes then (ok tt, true) else (err make_bucket_failed, false)
