-- ===== src/Secrets/Local/Rotation.antt =====
-- Wrapping, unwrapping and the rotation of the master key in local.go.
use kilnci.Base.{
  false, Option, none, some, ◌==◌, ◌≡◌, ◌≢◌, inl, inr, arith, length, ByteString, bytes_eq, nat_eq,
  is_empty, ==_refl, ==_cases,
}
use kilnci.Base.Results.{ok, Result-cases}
use kilnci.Secrets.{Aead, AeadLaws, key_size, seal_bytes, seal_with}
use kilnci.Secrets.Sealing.{envelope, open_bytes-envelope}
use kilnci.Secrets.Local.{
  WrappedKey, LocalKey, LocalWrapper, Derivation, DerivationLaws, new_local_key, with_previous,
  keep_previous, new_local_wrapper, dek_aad, key_for, previous_key, wrap, unwrap, checked_length,
  rewrap,
}

module _ (c : Aead) (laws : AeadLaws c) where
  -- What `Wrap` makes of a data key.
  abbrev wrapped : LocalWrapper → ByteString → ByteString → ByteString → WrappedKey
  wrapped w nonce org_id dek = record {
    key_id = w.current.id;
    ciphertext = envelope c laws w.current.key nonce dek (dek_aad org_id);
  }

  wrap-wrapped :
      (w : LocalWrapper) (nonce org_id dek : ByteString)
      → length w.current.key ≡ key_size
      → is_empty org_id ≡ false
      → length dek ≡ key_size
      → wrap c w (some nonce) org_id dek ≡ ok (wrapped w nonce org_id dek)
  unfolding wrap seal_bytes seal_with
  wrap-wrapped w nonce org_id dek k o s = ground arith

  wrap-ok :
      (w : LocalWrapper) (nonce org_id dek : ByteString) (wk : WrappedKey)
      → wrap c w (some nonce) org_id dek ≡ ok wk
      → (is_empty org_id ≡ false) × (length dek ≡ key_size) × (wk ≡ wrapped w nonce org_id dek)
  unfolding wrap seal_bytes seal_with
  wrap-ok w nonce org_id dek wk h = (ground arith, ground arith, ground arith)

  unwrap-wrapped :
      (v w : LocalWrapper) (nonce org_id dek : ByteString)
      → key_for v w.current.id ≡ ok w.current.key
      → length w.current.key ≡ key_size
      → length nonce ≡ c.nonce_size
      → is_empty org_id ≡ false
      → length dek ≡ key_size
      → unwrap c v org_id (wrapped w nonce org_id dek) ≡ ok dek
  unfolding unwrap checked_length
  unwrap-wrapped v w nonce org_id dek f k n o s =
      rw (o, f, open_bytes-envelope c laws w.current.key nonce dek (dek_aad org_id) k n)
        (ground arith)

key_for_current : (w : LocalWrapper) → key_for w w.current.id ≡ ok w.current.key
unfolding key_for
key_for_current w = rw (==_refl w.current.id)

found_previous :
    (l m : LocalKey)
    → m.id ≢ l.id
    → key_for (record { current = l; previous = some m }) m.id ≡ ok m.key
unfolding key_for previous_key
found_previous l m ne = elim (==_cases m.id l.id) [
  | inl (t, same) ↦ absurd (ne same)
  | inr (t, _) ↦ rw (t, ==_refl m.id)
]

module _ (d : Derivation) (derives : DerivationLaws d) where
  local_key-length :
      (k : ByteString) (l : LocalKey) → new_local_key d k ≡ ok l → length l.key ≡ key_size
  unfolding new_local_key
  local_key-length k l h = ground (arith, derives.length-wrapping k)

  alone :
      (k : ByteString) (w : LocalWrapper)
      → new_local_wrapper d k none ≡ ok w
      → new_local_key d k ≡ ok w.current
  unfolding new_local_wrapper with_previous
  alone k w h = elim (Result-cases (new_local_key d k)) [
    | inl (l, e) ↦ ground arith
    | inr (e, f) ↦ absurd (ground arith)
  ]

  rotated :
      (k j : ByteString) (l m : LocalKey) (w : LocalWrapper)
      → new_local_key d k ≡ ok l
      → new_local_key d j ≡ ok m
      → m.id ≢ l.id
      → new_local_wrapper d k (some j) ≡ ok w
      → w ≡ record { current = l; previous = some m }
  unfolding new_local_wrapper with_previous keep_previous
  rotated k j l m w e f ne h = elim (==_cases m.id l.id) [
    | inl (t, same) ↦ absurd (ne same)
    | inr (t, _) ↦ ground arith
  ]

  current-length :
      (k : ByteString) (p : Option ByteString) (w : LocalWrapper)
      → new_local_wrapper d k p ≡ ok w
      → length w.current.key ≡ key_size
  unfolding new_local_wrapper with_previous keep_previous
  current-length k none w h = local_key-length k w.current (alone k w h)
  current-length k (some j) w h = elim (Result-cases (new_local_key d k)) [
    | inl (l, e) ↦ elim (Result-cases (new_local_key d j)) [
      | inl (m, f) ↦
          let long = local_key-length k l e in
          let same : w.current ≡ l = ground arith in rw same long
      | inr (x, f) ↦ absurd (ground arith)
    ]
    | inr (x, e) ↦ absurd (ground arith)
  ]

  module _ (c : Aead) (laws : AeadLaws c) where
    -- A wrapper made by `NewLocalWrapper`, with or without a previous master key, wraps every data
    -- key of 32 bytes for every organization, and unwraps what it wrapped to that data key.
    pub unwrap-wrap :
        (k : ByteString) (p : Option ByteString) (w : LocalWrapper) (nonce org_id dek : ByteString)
        → new_local_wrapper d k p ≡ ok w
        → length nonce ≡ c.nonce_size
        → is_empty org_id ≡ false
        → length dek ≡ key_size
        → (wk : WrappedKey) × (wrap c w (some nonce) org_id dek ≡ ok wk)
          × (unwrap c w org_id wk ≡ ok dek)
    unwrap-wrap k p w nonce org_id dek made n o s =
        let long = current-length k p w made in
        (
          wrapped c laws w nonce org_id dek,
          wrap-wrapped c laws w nonce org_id dek long o s,
          unwrap-wrapped c laws w w nonce org_id dek (key_for_current w) long n o s,
        )

    -- Rotation of the master key from `j` to `k`, whose ids differ. A data key that was wrapped under
    -- `j` unwraps under `k` with `j` as the previous key; `Rewrap` there succeeds, and what it returns
    -- unwraps to the same data key once `j` is removed.
    pub rewrap-rotates :
        (j k : ByteString) (old both new : LocalWrapper)
        → new_local_wrapper d j none ≡ ok old
        → new_local_wrapper d k (some j) ≡ ok both
        → new_local_wrapper d k none ≡ ok new
        → old.current.id ≢ new.current.id
        → (n m org_id dek : ByteString) (wk : WrappedKey) → length n ≡ c.nonce_size
        → length m ≡ c.nonce_size
        → wrap c old (some n) org_id dek ≡ ok wk
        → (unwrap c both org_id wk ≡ ok dek)
          × ((wk' : WrappedKey) × (rewrap c both (some m) org_id wk ≡ ok wk')
              × (unwrap c new org_id wk' ≡ ok dek))
    unfolding rewrap
    rewrap-rotates j k old both new a b e ne n m org_id dek wk n_size m_size h =
        let (o, s, shape) = wrap-ok c laws old n org_id dek wk h in
        let old_key = alone j old a in
        let new_key = alone k new e in
        let old_long = local_key-length j old.current old_key in
        let new_long = local_key-length k new.current new_key in
        let pair = rotated k j new.current old.current both new_key old_key ne b in
        let finds : key_for both old.current.id ≡ ok old.current.key =
          rw pair (found_previous new.current old.current ne) in
        let opens = unwrap-wrapped c laws both old n org_id dek finds old_long n_size o s in
        let differs : (old.current.id == both.current.id) ≡ false =
          rw pair (elim (==_cases old.current.id new.current.id) [
            | inl (t, same) ↦ absurd (ne same)
            | inr (t, _) ↦ t
          ]) in
        let both_current : both.current ≡ new.current = rw pair in
        rw shape (
          opens,
          (
            wrapped c laws new m org_id dek,
            rw (differs, opens)
                (rw pair (
                  wrap-wrapped c laws
                    (record { current = new.current; previous = some old.current }) m org_id dek
                    new_long o s)),
            unwrap-wrapped c laws new new m org_id dek (key_for_current new) new_long m_size o s,
          ),
        )
