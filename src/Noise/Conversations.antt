-- ===== src/Noise/Conversations.antt =====
-- Code that is given a function to read a message and one to write a message, as a tree of what it does
-- next, and two of them connected to each other.
use fproto.Base.{Bool, true, false, Option, none, some, Bytes, Result, ok, err}

-- `read` gives the message, or `none` for an error; `write` whether the message was sent.
pub data Io (E A : Type 0) : Type 0 where
  done : Result E A → Io E A
  read : (Option Bytes → Io E A) → Io E A
  write : Bytes → (Bool → Io E A) → Io E A

infixl 5 ◌>>=◌ ◌>>◌
unfoldable pub ◌>>=◌ : {E A B : Type 0} → Io E A → (A → Io E B) → Io E B
done (ok a) >>= f = f a
done (err e) >>= f = done (err e)
read k >>= f = read (λ m. k m >>= f)
write m k >>= f = write m (λ sent. k sent >>= f)

abbrev pub ◌>>◌ : {E B : Type 0} → Io E (Unit {0}) → Io E B → Io E B
m >> k = m >>= λ _. k

abbrev from_read : {E : Type 0} → E → Option Bytes → Io E Bytes
from_read e (some m) = done (ok m)
from_read e none = done (err e)

abbrev pub read_or : {E : Type 0} → E → Io E Bytes
read_or e = read (from_read e)

abbrev from_write : {E : Type 0} → E → Bool → Io E (Unit {0})
from_write e true = done (ok tt)
from_write e false = done (err e)

abbrev pub write_or : {E : Type 0} → E → Bytes → Io E (Unit {0})
write_or e m = write m (from_write e)

abbrev pub lift : {E A : Type 0} → Result E A → Io E A
lift r = done r

-- Two ends whose connection loses nothing: each message that one writes is what the other reads. The
-- results of both; `none` where both wait to read, or both write at once.
unfoldable pub connect : {E A B : Type 0} → Io E A → Io E B → Option (Result E A × Result E B)
connect (done r) (done s) = some (r, s)
connect (write m k) (read h) = connect (k true) (h (some m))
connect (read h) (write m k) = connect (h (some m)) (k true)
connect (done r) (read h) = connect (done r) (h none)
connect (read h) (done s) = connect (h none) (done s)
connect (done r) (write m k) = connect (done r) (k false)
connect (write m k) (done s) = connect (k false) (done s)
connect (read h) (read k) = none
connect (write m k) (write l h) = none
