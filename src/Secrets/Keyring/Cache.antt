-- ===== src/Secrets/Keyring/Cache.antt =====
-- The cache of keyring.go stays small, and answers with nothing old.
use kilnci.Base.{
  ℕ, zero, suc, ◌+◌, ◌≤◌, ◌<◌, true, List, [], ◌∷◌, ◌++◌, Option, none, some, ◌≡◌, inl, inr, refl,
  sym, subst, ◌∙◌, ◌⊎◌, arith, ltb, leb, length, ByteString, All, Bool-cases, Option-cases,
  bytes_beq_iff, bytes_eq, nat_eq,
}
use kilnci.Base.Int.{ℤ, pos, negsuc}
use kilnci.Base.Results.{Result, ok, err}
use kilnci.Secrets.{SecretError}
use kilnci.Secrets.Local.{WrappedKey}
use kilnci.Secrets.Keyring.{
  CacheKey, CachedDek, Keyring, max_cached_deks, new_keyring, same_key, find, store, sweep,
  make_room, put, flush, cache_key, fresh, unwrapped, cached, look_up, data_key, Call, ask, forget,
  call, calls,
}

abbrev Entries : Type 0
Entries = List (CacheKey × CachedDek)

length-sweep : (now : ℕ) (m : Entries) → length (sweep now m) ≤ length m
unfolding sweep
length-sweep now [] = omega arith
length-sweep now ((k, e) ∷ m) = ground (arith, length-sweep now m)

length-store : (ck : CacheKey) (e : CachedDek) (m : Entries) → length (store ck e m) ≤ length m + 1
unfolding store
length-store ck e [] = omega arith
length-store ck e ((k, d) ∷ m) = elim (Bool-cases (same_key k ck)) [
  | inl t ↦ rw t (omega arith)
  | inr f ↦ rw f (omega (arith, length-store ck e m))
]

length-make_room :
    (now : ℕ) (m : Entries)
    → length m ≤ max_cached_deks
    → length (make_room now m) < max_cached_deks
unfolding make_room
length-make_room now m h = ground (arith, length-sweep now m)

length-put :
    (now ttl : ℕ) (ck : CacheKey) (dek : ByteString) (k : Keyring)
    → length k.cache ≤ max_cached_deks
    → length (put now ttl ck dek k).cache ≤ max_cached_deks
unfolding put
length-put now ttl ck dek k h =
    omega (arith, length-make_room now k.cache h, length-store ck _ (make_room now k.cache))

module _ (P : CacheKey × CachedDek → Type 0) where
  All-sweep : (now : ℕ) (m : Entries) → All P m → All P (sweep now m)
  unfolding sweep
  All-sweep now [] h = tt
  All-sweep now ((k, e) ∷ m) h = elim (Bool-cases (ltb now e.expires)) [
    | inl t ↦ rw t (h.0, All-sweep now m h.1)
    | inr f ↦ rw f (All-sweep now m h.1)
  ]

  All-store :
      (ck : CacheKey) (e : CachedDek) (m : Entries) → P (ck, e) → All P m → All P (store ck e m)
  unfolding store
  All-store ck e [] p h = (p, tt)
  All-store ck e ((k, d) ∷ m) p h = elim (Bool-cases (same_key k ck)) [
    | inl t ↦ rw t (p, h.1)
    | inr f ↦ rw f (h.0, All-store ck e m p h.1)
  ]

  All-make_room : (now : ℕ) (m : Entries) → All P m → All P (make_room now m)
  unfolding make_room
  All-make_room now m h = elim (Bool-cases (leb max_cached_deks (length m))) [
    | inl t ↦ elim (Bool-cases (leb max_cached_deks (length (sweep now m)))) [
      | inl u ↦ rw (t, u) tt
      | inr u ↦ rw (t, u) (All-sweep now m h)
    ]
    | inr f ↦ rw f h
  ]

  All-find :
      (ck : CacheKey) (m : Entries) (e : CachedDek)
      → All P m
      → find ck m ≡ some e
      → (k : CacheKey) × (same_key k ck ≡ true) × P (k, e)
  unfolding find
  All-find ck [] e h f = cc
  All-find ck ((k, d) ∷ m) e h f = elim (Bool-cases (same_key k ck)) [
    | inl t ↦
        let hit : some d ≡ some e = rw t at f in let same : d ≡ e = cc in (k, t, rw (← same) h.0)
    | inr t ↦ All-find ck m e h.1 (rw t at f)
  ]

fresh-some :
    (now : ℕ) (found : Option CachedDek) (dek : ByteString)
    → fresh now found ≡ some dek
    → (e : CachedDek) × (found ≡ some e) × ((e.dek ≡ dek) × (now < e.expires))
unfolding fresh
fresh-some now none dek h = cc
fresh-some now (some e) dek h = (e, refl, (ground arith, ground arith))

unwrapped-answer :
    (reply : Result SecretError ByteString) (now ttl : ℕ) (ck : CacheKey) (k : Keyring)
    → (unwrapped reply now ttl ck k).1 ≡ reply
unfolding unwrapped
unwrapped-answer (ok dek) now ttl ck k = refl
unwrapped-answer (err x) now ttl ck k = refl

new_keyring-empty : (t : ℤ) → (new_keyring t).cache ≡ []
unfolding new_keyring
new_keyring-empty (pos zero) = refl
new_keyring-empty (pos (suc n)) = refl
new_keyring-empty (negsuc n) = refl

cached-length :
    (hit : Option ByteString) (reply : Result SecretError ByteString) (now ttl : ℕ) (ck : CacheKey)
    (k : Keyring)
    → length k.cache ≤ max_cached_deks
    → length (cached hit reply now ttl ck k).0.cache ≤ max_cached_deks
unfolding cached unwrapped
cached-length (some dek) reply now ttl ck k h = h
cached-length none (ok dek) now ttl ck k h = length-put now ttl ck dek k h
cached-length none (err x) now ttl ck k h = h

look_up-length :
    (t : Option ℕ) (reply : Result SecretError ByteString) (now later : ℕ) (ck : CacheKey)
    (k : Keyring)
    → length k.cache ≤ max_cached_deks
    → length (look_up t reply now later ck k).0.cache ≤ max_cached_deks
unfolding look_up
look_up-length none reply now later ck k h = h
look_up-length (some ttl) reply now later ck k h = cached-length _ reply later ttl ck k h

cached-ttl :
    (hit : Option ByteString) (reply : Result SecretError ByteString) (now ttl : ℕ) (ck : CacheKey)
    (k : Keyring)
    → (cached hit reply now ttl ck k).0.ttl ≡ k.ttl
unfolding cached unwrapped put
cached-ttl (some dek) reply now ttl ck k = refl
cached-ttl none (ok dek) now ttl ck k = refl
cached-ttl none (err x) now ttl ck k = refl

look_up-ttl :
    (t : Option ℕ) (reply : Result SecretError ByteString) (now later : ℕ) (ck : CacheKey)
    (k : Keyring)
    → (look_up t reply now later ck k).0.ttl ≡ k.ttl
unfolding look_up
look_up-ttl none reply now later ck k = refl
look_up-ttl (some ttl) reply now later ck k = cached-ttl _ reply later ttl ck k

module _ (hash : ByteString → ByteString) where
  calls_bounded :
      (cs : List Call) (k : Keyring)
      → length k.cache ≤ max_cached_deks
      → length (calls hash cs k).cache ≤ max_cached_deks
  unfolding calls call data_key flush
  calls_bounded [] k h = h
  calls_bounded (ask now later org_id version wk reply ∷ cs) k h =
      look_up-length (calls hash cs k).ttl reply now later _ (calls hash cs k)
        (calls_bounded cs k h)
  calls_bounded (forget ∷ cs) k h = omega arith

  -- Whatever is asked and flushed, a key ring never caches more than 1024 data keys.
  pub cache_bounded :
      (t : ℤ) (cs : List Call) → length (calls hash cs (new_keyring t)).cache ≤ max_cached_deks
  cache_bounded t cs = calls_bounded cs (new_keyring t) (rw (new_keyring-empty t) (omega arith))

  calls-ttl : (cs : List Call) (k : Keyring) → (calls hash cs k).ttl ≡ k.ttl
  unfolding calls call data_key flush
  calls-ttl [] k = refl
  calls-ttl (ask now later org_id version wk reply ∷ cs) k =
      look_up-ttl (calls hash cs k).ttl reply now later _ (calls hash cs k) ∙ calls-ttl cs k
  calls-ttl (forget ∷ cs) k = calls-ttl cs k

  module _ (org_id : ByteString) (wk : WrappedKey) where
    -- The hash of the key that is asked for is not that of another key.
    abbrev pub Apart : WrappedKey → Type 0
    Apart v = hash (v.key_id ++ 0 ∷ v.ciphertext) ≡ hash (wk.key_id ++ 0 ∷ wk.ciphertext) → v ≡ wk

    abbrev pub AllApart : List Call → Type 0
    AllApart [] = Unit
    AllApart (ask now later o version v reply ∷ cs) = Apart v × AllApart cs
    AllApart (forget ∷ cs) = AllApart cs

    -- Since the last flush, `Unwrap` was asked for this key, and gave the data key, so long before the
    -- expiry as an entry lives.
    abbrev pub UnwrappedFor : ℕ → List Call → ByteString → ℕ → Type 0
    UnwrappedFor ttl [] dek expires = ⊥
    UnwrappedFor ttl (forget ∷ cs) dek expires = ⊥
    UnwrappedFor ttl (ask now later o version v reply ∷ cs) dek expires =
        ((o ≡ org_id) × (v ≡ wk) × (reply ≡ ok dek) × (expires ≡ later + ttl))
        ⊎ UnwrappedFor ttl cs dek expires

    -- An entry that the question may hit was put there for its key.
    abbrev Agrees : ℕ → List Call → CacheKey × CachedDek → Type 0
    Agrees ttl cs (k, e) =
        k.org_id ≡ org_id
        → k.wrapped ≡ hash (wk.key_id ++ 0 ∷ wk.ciphertext)
        → UnwrappedFor ttl cs e.dek e.expires

    Agrees-older :
        (ttl now later version : ℕ) (o : ByteString) (v : WrappedKey)
        (reply : Result SecretError ByteString) (cs : List Call) (m : Entries)
        → All (Agrees ttl cs) m
        → All (Agrees ttl (ask now later o version v reply ∷ cs)) m
    Agrees-older ttl now later version o v reply cs [] h = tt
    Agrees-older ttl now later version o v reply cs ((k, e) ∷ m) h =
        (λ x y. inr (h.0 x y), Agrees-older ttl now later version o v reply cs m h.1)

    Agrees-cached :
        (hit : Option ByteString) (reply : Result SecretError ByteString) (now later ttl : ℕ)
        (o : ByteString) (version : ℕ) (v : WrappedKey) (cs : List Call) (k : Keyring)
        → Apart v
        → All (Agrees ttl cs) k.cache
        → All
            (Agrees ttl (ask now later o version v reply ∷ cs))
            (cached hit reply later ttl (cache_key hash o version v) k).0.cache
    unfolding cached unwrapped put cache_key
    Agrees-cached (some dek) reply now later ttl o version v cs k a h =
        Agrees-older ttl now later version o v reply cs k.cache h
    Agrees-cached none (ok dek) now later ttl o version v cs k a h =
        All-store _ _ _ _ (λ same_org same_hash. inl (same_org, a same_hash, refl, refl))
          (All-make_room _ later k.cache
            (Agrees-older ttl now later version o v (ok dek) cs k.cache h))
    Agrees-cached none (err x) now later ttl o version v cs k a h =
        Agrees-older ttl now later version o v (err x) cs k.cache h

    Agrees-calls :
        (ttl : ℕ) (cs : List Call) (k : Keyring)
        → k.ttl ≡ some ttl
        → k.cache ≡ []
        → AllApart cs
        → All (Agrees ttl cs) (calls hash cs k).cache
    unfolding calls call data_key flush look_up
    Agrees-calls ttl [] k e empty a = rw empty tt
    Agrees-calls ttl (ask now later o version v reply ∷ cs) k e empty a =
        subst
          (λ l.
            All (Agrees ttl (ask now later o version v reply ∷ cs))
              (look_up l reply now later (cache_key hash o version v) (calls hash cs k)).0.cache)
          (sym (calls-ttl cs k ∙ e))
          (Agrees-cached _ reply now later ttl o version v cs (calls hash cs k) a.0
            (Agrees-calls ttl cs k e empty a.1))
    Agrees-calls ttl (forget ∷ cs) k e empty a = tt

    -- An answer that is not `Unwrap`'s own is that of an earlier `Unwrap`, and has not expired.
    abbrev pub IsRecent : Option ℕ → List Call → ℕ → Result SecretError ByteString → Type 0
    IsRecent lifetime cs now answer =
        (ttl : ℕ) × (dek : ByteString) × (expires : ℕ) × (lifetime ≡ some ttl)
        × (answer ≡ ok dek)
        × (now < expires)
        × UnwrappedFor ttl cs dek expires

    hit_recent :
        (ttl now : ℕ) (ck : CacheKey) (version : ℕ) (cs : List Call) (m : Entries)
        (dek : ByteString)
        → ck ≡ cache_key hash org_id version wk
        → All (Agrees ttl cs) m
        → fresh now (find ck m) ≡ some dek
        → (expires : ℕ) × (now < expires) × UnwrappedFor ttl cs dek expires
    unfolding cache_key
    hit_recent ttl now ck version cs m dek shape h f =
        let (e, found, (same, alive)) = fresh-some now (find ck m) dek f in
        let (j, t, agrees) = All-find (Agrees ttl cs) ck m e h found in
        (
          e.expires,
          alive,
          rw (← same) (
              agrees (ground (arith, bytes_beq_iff j.org_id ck.org_id))
                (ground (arith, bytes_beq_iff j.wrapped ck.wrapped))),
        )

    look_up-IsRecent :
        (t : Option ℕ) (reply : Result SecretError ByteString) (now later version : ℕ)
        (cs : List Call) (k : Keyring)
        → ((ttl : ℕ) → t ≡ some ttl → All (Agrees ttl cs) k.cache)
        → let answer = (look_up t reply now later (cache_key hash org_id version wk) k).1 in
          (answer ≡ reply) ⊎ IsRecent t cs now answer
    unfolding look_up cached
    look_up-IsRecent none reply now later version cs k h = inl refl
    look_up-IsRecent (some ttl) reply now later version cs k h =
        elim (Option-cases (fresh now (find (cache_key hash org_id version wk) k.cache))) [
          | inl miss ↦ rw miss (inl (unwrapped-answer reply later ttl _ k))
          | inr (dek, f) ↦
              let (expires, alive, from) =
                hit_recent ttl now _ version cs k.cache dek refl (h ttl refl) f in
              rw f (inr (ttl, dek, expires, refl, refl, alive, from))
        ]

    -- After any calls, the last first, `DataKey` answers what `Unwrap` answers just then, or the data
    -- key that `Unwrap` gave for the same organization and wrapped key in an earlier call since the
    -- last flush, at most the cache's lifetime ago. No key asked before has the hash of the one asked
    -- for.
    pub data_key-IsRecent :
        (t : ℤ) (cs : List Call) (now later version : ℕ) (reply : Result SecretError ByteString)
        → AllApart cs
        → let answer =
            (data_key hash now later org_id version wk reply (calls hash cs (new_keyring t))).1 in
          (answer ≡ reply) ⊎ IsRecent (new_keyring t).ttl cs now answer
    unfolding data_key
    data_key-IsRecent t cs now later version reply a =
        let k = calls hash cs (new_keyring t) in
        let answer = (look_up k.ttl reply now later (cache_key hash org_id version wk) k).1 in
        subst (λ l. (answer ≡ reply) ⊎ IsRecent l cs now answer) (calls-ttl cs (new_keyring t))
          (look_up-IsRecent k.ttl reply now later version cs k (λ ttl e.
            Agrees-calls ttl cs (new_keyring t) (sym (calls-ttl cs (new_keyring t)) ∙ e)
              (new_keyring-empty t) a))
