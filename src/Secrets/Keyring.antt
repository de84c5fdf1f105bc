-- ===== src/Secrets/Keyring.antt =====
-- The short-lived cache of data keys: server/internal/secrets/keyring.go. SHA-256, the clock
-- and what the wrapper answers at each call are arguments; each method is atomic, as it is under the mutex. Times are numbers.
pub mod Cache
use kilnci.Base.{
  ℕ, zero, suc, ◌+◌, Bool, true, false, not, ◌&&◌, List, [], ◌∷◌, ◌++◌, Option, none, some, ◌==◌,
  ◌≡◌, if◌then◌else◌, ltb, leb, length, ByteString, bytes_eq, nat_eq,
}
use kilnci.Base.Int.{ℤ, pos, negsuc}
use kilnci.Base.Results.{Result, ok, err, ◌>>=◌}
use kilnci.Secrets.{SecretError}
use kilnci.Secrets.Local.{WrappedKey}

abbrev pub max_cached_deks : ℕ
max_cached_deks = 1024

-- Five minutes, in nanoseconds.
abbrev pub default_dek_cache_ttl : ℕ
default_dek_cache_ttl = 300000000000

-- The map's key: the organization, the version, and the hash of the wrapped key.
pub record CacheKey : Type 0 where
  pub org_id : ByteString
  pub version : ℕ
  pub wrapped : ByteString

pub record CachedDek : Type 0 where
  pub dek : ByteString
  pub expires : ℕ

-- `ttl` is nothing if caching is disabled.
pub record Keyring : Type 0 where
  pub ttl : Option ℕ
  pub cache : List (CacheKey × CachedDek)

unfoldable pub new_keyring : ℤ → Keyring
new_keyring (pos zero) = record { ttl = some default_dek_cache_ttl; cache = [] }
new_keyring (pos (suc n)) = record { ttl = some (suc n); cache = [] }
new_keyring (negsuc n) = record { ttl = none; cache = [] }

abbrev pub same_key : CacheKey → CacheKey → Bool
same_key a b = a.org_id == b.org_id && a.version == b.version && a.wrapped == b.wrapped

unfoldable pub find : CacheKey → List (CacheKey × CachedDek) → Option CachedDek
find ck [] = none
find ck ((k, e) ∷ m) = if same_key k ck then some e else find ck m

-- `k.cache[ck] = e`.
unfoldable pub store :
    CacheKey → CachedDek → List (CacheKey × CachedDek) → List (CacheKey × CachedDek)
store ck e [] = (ck, e) ∷ []
store ck e ((k, d) ∷ m) = if same_key k ck then (ck, e) ∷ m else (k, d) ∷ store ck e m

-- The loop that deletes what has expired.
unfoldable pub sweep : ℕ → List (CacheKey × CachedDek) → List (CacheKey × CachedDek)
sweep now [] = []
sweep now ((k, e) ∷ m) = if ltb now e.expires then (k, e) ∷ sweep now m else sweep now m

make_room : ℕ → List (CacheKey × CachedDek) → List (CacheKey × CachedDek)
make_room now cache =
    let swept = sweep now cache in
    if leb max_cached_deks (length cache)
    then (if leb max_cached_deks (length swept) then [] else swept)
    else cache

unfoldable pub put : ℕ → ℕ → CacheKey → ByteString → Keyring → Keyring
unfolding make_room
put now ttl ck dek k = record k {
  cache = store ck (record { dek = dek; expires = now + ttl }) (make_room now k.cache);
}

unfoldable pub flush : Keyring → Keyring
flush k = record k { cache = [] }

-- An entry that has not expired by `now`.
fresh : ℕ → Option CachedDek → Option ByteString
fresh now none = none
fresh now (some e) = if ltb now e.expires then some e.dek else none

-- After a miss, what `Unwrap` gave is put in the cache and returned; an error is returned.
unwrapped :
    Result SecretError ByteString
    → ℕ
    → ℕ
    → CacheKey
    → Keyring
    → Keyring × Result SecretError ByteString
unwrapped (ok dek) now ttl ck k = (put now ttl ck dek k, ok dek)
unwrapped (err e) now ttl ck k = (k, err e)

-- The exported methods, as events with the readings of the clock; a question comes with what `Unwrap`
-- answers if it is asked just then.
pub data Call : Type 0 where
  ask : ℕ → ℕ → ByteString → ℕ → WrappedKey → Result SecretError ByteString → Call
  forget : Call

cached :
    Option ByteString
    → Result SecretError ByteString
    → ℕ
    → ℕ
    → CacheKey
    → Keyring
    → Keyring × Result SecretError ByteString
unfolding unwrapped
cached (some dek) reply now ttl ck k = (k, ok dek)
cached none reply now ttl ck k = unwrapped reply now ttl ck k

look_up :
    Option ℕ
    → Result SecretError ByteString
    → ℕ
    → ℕ
    → CacheKey
    → Keyring
    → Keyring × Result SecretError ByteString
unfolding cached unwrapped fresh
look_up none reply now later ck k = (k, reply)
look_up (some ttl) reply now later ck k = cached (fresh now (find ck k.cache)) reply later ttl ck k

module _ (hash : ByteString → ByteString) where
  unfoldable pub cache_key : ByteString → ℕ → WrappedKey → CacheKey
  cache_key org_id version wk = record {
    org_id = org_id;
    version = version;
    wrapped = hash (wk.key_id ++ 0 ∷ wk.ciphertext);
  }

  -- `DataKey`, with what `Unwrap` answers; the clock is read once for the entry's expiry and once more
  -- by `put`.
  unfoldable pub data_key :
      ℕ
      → ℕ
      → ByteString
      → ℕ
      → WrappedKey
      → Result SecretError ByteString
      → Keyring
      → Keyring × Result SecretError ByteString
  unfolding look_up cached unwrapped fresh
  data_key now later org_id version wk reply k =
      look_up k.ttl reply now later (cache_key org_id version wk) k

  unfoldable pub call : Call → Keyring → Keyring
  call (ask now later org_id version wk reply) k = (data_key now later org_id version wk reply k).0
  call forget k = flush k

  -- Calls, the last first.
  unfoldable pub calls : List Call → Keyring → Keyring
  calls [] k = k
  calls (c ∷ cs) k = call c (calls cs k)
