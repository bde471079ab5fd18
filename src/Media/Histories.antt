-- ===== src/Media/Histories.antt =====
-- What calls of MediaService (server/internal/media) leave in the table, and what a completed upload
-- has passed.
use mathlib.Core.Path.{ap}
use fproto.Base.{
  ℕ, ◌≡◌, refl, sym, subst, true, false, Option, none, some, List, [], ◌∷◌, Bytes, Result, ok, err,
  if◌then◌else◌, ◌==◌, All, All-append, any, ◌||◌, ltb, length, Bool-cases, inl, inr,
}
use fproto.Message.{len_of, bytes_of}
use fproto.Sql
use fproto.Sql.{DbError, no_rows, unscannable, unavailable, Outcome, done, refused, lost, Answer}
use fproto.Media.Store
use fproto.Media.Store.{
  Status, Upload, Table, NewUpload, uploading, completed, failed, expired, has_stream, char_count,
  row_of, insert_row, find_stream, scan_upload, get_by_stream_id, update_rows, mark_completed,
  mark_failed,
}
use fproto.Media.Uploads.{
  Env, MediaError, new_upload, s3_key_of, after_insert, init_upload, complete_upload,
  get_download_url, store_failed, RpcError, rpc_init_upload, rpc_complete_upload,
  rpc_get_download_url, stream_id_required, initialised, answered, expiring, internal,
}

-- A call of the service, or of MarkFailed: the random bytes are those of the call.
pub data Call : Type 0 where
  init : Option Bytes → Option Bytes → Bytes → ℕ → Option Bytes → Call
  complete : Option Bytes → Option Bytes → Call
  fail : Bytes → Call

-- The table after a call.
unfoldable pub after_call : Env → Call → Table → Table
after_call env (init random user mime size hash) t =
    (rpc_init_upload env 0 random user mime size hash t).1
after_call env (complete stream hash) t = (rpc_complete_upload env stream hash t).1
after_call env (fail stream) t = (mark_failed env.mark stream t).1

unfoldable pub run : List (Env × Call) → Table → Table
run [] t = t
run ((env, c) ∷ cs) t = run cs (after_call env c t)

-- No row has a URL.
abbrev Unlinked : Upload → Type 0
Unlinked u = u.s3_url ≡ none

abbrev Pending : Table → Type 0
Pending t = All Unlinked t.rows

abbrev pub Fails {ℓ} : {E : Type 0} {A : Type ℓ} → Result E A → Type ℓ
Fails {E = E} r = (e : E) × (r ≡ err e)

-- A row without a URL is not read.
find_stream-Fails :
    (id : Bytes) (us : List Upload) → All Unlinked us → Fails (find_stream false id us)
unfolding find_stream
find_stream-Fails id [] h = (no_rows, refl)
find_stream-Fails id (u ∷ us) h =
    elim (has_stream id u)
      as (λ b. Fails (if b then scan_upload false u u.s3_url else find_stream false id us)) [
        | true ↦ (unscannable, rw h.0 refl)
        | false ↦ find_stream-Fails id us h.1
      ]

read-Fails :
    (o : Outcome) (id : Bytes) (t : Table) → Pending t → Fails (get_by_stream_id false o id t)
read-Fails done id t h = find_stream-Fails id t.rows h
read-Fails refused id t h = (unavailable, refl)
read-Fails lost id t h = (unavailable, refl)

module _ (env : Env) (h : env.stores_null ≡ false) (t : Table) (p : Pending t) where
  read_env-Fails : (id : Bytes) → Fails (get_by_stream_id env.stores_null env.read id t)
  read_env-Fails id =
      subst (λ b. Fails (get_by_stream_id b env.read id t)) (sym h) (read-Fails env.read id t p)

  complete_fails :
      (id : Bytes) (hash : Option Bytes)
      → (e : MediaError) × (complete_upload env id hash t ≡ (err e, t))
  unfolding complete_upload
  complete_fails id hash = let (e, q) = read_env-Fails id in (store_failed e, rw q refl)

  rpc_complete_fails :
      (stream hash : Option Bytes)
      → (e : RpcError) × (rpc_complete_upload env stream hash t ≡ (err e, t))
  unfolding rpc_complete_upload
  rpc_complete_fails stream hash =
      let (e, q) = complete_fails (bytes_of stream) hash in
      elim (len_of stream == 0)
        as (λ b.
          (x : RpcError) × ((if b
              then (err stream_id_required, t)
              else answered (complete_upload env (bytes_of stream) hash t))
            ≡ (err x, t))) [
              | true ↦ (stream_id_required, refl)
              | false ↦ (internal e, ap answered q)
            ]

  rpc_get-Fails : (now : ℕ) (stream : Option Bytes) → Fails (rpc_get_download_url env now stream t)
  unfolding rpc_get_download_url get_download_url
  rpc_get-Fails now stream =
      let (e, q) = read_env-Fails (bytes_of stream) in
      elim (len_of stream == 0)
        as (λ b. Fails (
          if b
          then err stream_id_required
          else expiring now (get_download_url env (bytes_of stream) t))) [
            | true ↦ (stream_id_required, refl)
            | false ↦ (internal (store_failed e), rw q refl)
          ]

-- What a statement leaves when it runs or does not.
exec-Pending :
    (o : Outcome) (f : Table → Answer Table) (t : Table)
    → Pending t
    → Pending (f t).1
    → Pending (Sql.exec o f t).1
exec-Pending done f t p q = q
exec-Pending refused f t p q = p
exec-Pending lost f t p q = q

insert_row-Pending :
    (u : NewUpload) (user : Option Bytes) (t : Table) → Pending t → Pending (insert_row u user t).1
unfolding insert_row row_of
insert_row-Pending u none t p = p
insert_row-Pending u (some user) t p =
    elim (Bool-cases (ltb 255 (char_count u.mime_type) || any (has_stream u.stream_id) t.rows)) [
      | inl h ↦ rw h p
      | inr h ↦ rw h (All-append Unlinked t.rows _ p (refl, tt))
    ]

update_rows-Unlinked :
    (id : Bytes) (f : Upload → Upload) (us : List Upload)
    → ((u : Upload) → Unlinked u → Unlinked (f u))
    → All Unlinked us
    → All Unlinked (update_rows id f us)
unfolding update_rows
update_rows-Unlinked id f [] g h = tt
update_rows-Unlinked id f (u ∷ us) g h = (
  elim (has_stream id u) as (λ b. Unlinked (if b then f u else u)) [ true ↦ g u h.0 | false ↦ h.0 ],
  update_rows-Unlinked id f us g h.1,
)

after_insert-table :
    (env : Env) (stream key : Bytes) (a : Answer Table) → (after_insert env stream key a).1 ≡ a.1
after_insert-table env stream key (ok u, t) = refl
after_insert-table env stream key (err e, t) = refl

initialised-table :
    (now : ℕ) (r : Result MediaError (Bytes × Bytes) × Table) → (initialised now r).1 ≡ r.1
initialised-table now (ok (s, u), t) = refl
initialised-table now (err e, t) = refl

init_upload-Pending :
    (env : Env) (random user : Option Bytes) (mime : Bytes) (size : ℕ) (hash : Option Bytes)
    (t : Table)
    → Pending t
    → Pending (init_upload env random user mime size hash t).1
unfolding init_upload
init_upload-Pending env none user mime size hash t p = p
init_upload-Pending env (some stream) user mime size hash t p =
    let u : NewUpload = new_upload stream user mime size hash in
    subst Pending
      (sym (after_insert-table env stream (s3_key_of user stream) (Store.insert env.insert u t)))
      (exec-Pending env.insert (insert_row u u.user_id) t p (insert_row-Pending u u.user_id t p))

rpc_init-Pending :
    (env : Env) (now : ℕ) (random user : Option Bytes) (mime : Bytes) (size : ℕ)
    (hash : Option Bytes) (t : Table)
    → Pending t
    → Pending (rpc_init_upload env now random user mime size hash t).1
unfolding rpc_init_upload
rpc_init-Pending env now random user mime size hash t p =
    let made : Pending (initialised now (init_upload env random user mime size hash t)).1 =
      subst Pending (sym (initialised-table now (init_upload env random user mime size hash t)))
        (init_upload-Pending env random user mime size hash t p) in
    elim (Bool-cases (len_of user == 0)) [
      | inl h ↦ rw h p
      | inr h ↦ elim (Bool-cases (length mime == 0)) [
        | inl i ↦ rw (h, i) p
        | inr i ↦ elim (Bool-cases (size == 0)) [
          | inl j ↦ rw (h, i, j) p
          | inr j ↦ rw (h, i, j) made
        ]
      ]
    ]

after_call-Pending :
    (env : Env) (c : Call) (t : Table)
    → env.stores_null ≡ false
    → Pending t
    → Pending (after_call env c t)
unfolding after_call mark_failed
after_call-Pending env (init random user mime size hash) t h p =
    rpc_init-Pending env 0 random user mime size hash t p
after_call-Pending env (complete stream hash) t h p =
    let (e, q) = rpc_complete_fails env h t p stream hash in subst (λ r. Pending r.1) (sym q) p
after_call-Pending env (fail stream) t h p =
    exec-Pending env.mark _ t p (update_rows-Unlinked stream _ t.rows (λ u q. q) p)

run-Pending :
    (cs : List (Env × Call)) (t : Table)
    → All (λ c. c.0.stores_null ≡ false) cs
    → Pending t
    → Pending (run cs t)
unfolding run
run-Pending [] t h p = p
run-Pending ((env, c) ∷ cs) t h p =
    run-Pending cs (after_call env c t) h.1 (after_call-Pending env c t h.0 p)

-- Where Scan refuses a NULL for a string, as pgx documents, then after any calls on an empty table
-- no upload can be completed and no download URL is given: CompleteUpload returns an error and leaves
-- the table as it is, and so GetDownloadURL returns an error, for every stream.
pub never_completed :
    (cs : List (Env × Call)) (next clock : ℕ) (env : Env) (now : ℕ) (stream hash : Option Bytes)
    → All (λ c. c.0.stores_null ≡ false) cs
    → env.stores_null ≡ false
    → let t : Table = run cs (record { rows = []; next_id = next; now = clock }) in
      ((e : RpcError) × (rpc_complete_upload env stream hash t ≡ (err e, t)))
      × Fails (rpc_get_download_url env now stream t)
never_completed cs next clock env now stream hash hs h =
    let t : Table = run cs (record { rows = []; next_id = next; now = clock }) in
    let p : Pending t = run-Pending cs _ hs tt in
    (rpc_complete_fails env h t p stream hash, rpc_get-Fails env h t p now stream)
