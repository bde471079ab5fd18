-- ===== src/Media/Examples.antt =====
-- The media service on a small table.
use fproto.Base.{◌≡◌, refl, Bool, true, false, none, some, [], ◌∷◌, ok, err, codes, bytes_equal}
use fproto.Sql.{done}
use fproto.Media.Store.{
  Upload, Table, uploading, completed, find_stream, mark_completed, update_rows,
}
use fproto.Media.Objects.{object, object_exists, presigned_url}
use fproto.Media.Uploads.{Env, complete_upload, rpc_complete_upload, rpc_get_download_url, RpcError}
use fproto.Media.Histories.{init, Fails, run, never_completed}

abbrev service : Bool → Env
service nulls = record {
  stores_null = nulls;
  insert = done;
  read = done;
  mark = done;
  put_url = some;
  get_url = some;
  stat = λ key. object 5;
}

abbrev photo : Upload
photo = record {
  id = 1;
  stream_id = 7 ∷ [];
  user_id = 9 ∷ [];
  mime_type = codes "image/jpeg";
  total_size = 5;
  status = uploading;
  s3_key = codes "uploads/09/07";
  s3_url = none;
  file_hash = none;
  created_at = 0;
  updated_at = 0;
}

abbrev one_photo : Table
one_photo = record { rows = photo ∷ []; next_id = 2; now = 3 }

abbrev stored_photo : Table
stored_photo = record {
  rows =
      (record photo { status = completed; s3_url = some (codes "uploads/09/07"); updated_at = 3 })
      ∷ [];
  next_id = 2;
  now = 3;
}

complete_photo :
    complete_upload (service true) (7 ∷ []) none one_photo
    ≡ (ok (codes "uploads/09/07"), stored_photo)
unfolding bytes_equal complete_upload find_stream object_exists presigned_url mark_completed
    update_rows
complete_photo = refl

abbrev begun : Table
begun =
    run ((service false, init (some (7 ∷ [])) (some (9 ∷ [])) (codes "image/jpeg") 5 none) ∷ [])
      (record { rows = []; next_id = 1; now = 3 })

never_completed_example :
    ((e : RpcError) × (rpc_complete_upload (service false) (some (7 ∷ [])) none begun
        ≡ (err e, begun)))
    × Fails (rpc_get_download_url (service false) 3 (some (7 ∷ [])) begun)
never_completed_example =
    never_completed
      ((service false, init (some (7 ∷ [])) (some (9 ∷ [])) (codes "image/jpeg") 5 none) ∷ []) 1 3
      (service false) 3 (some (7 ∷ [])) none (refl, tt) refl
