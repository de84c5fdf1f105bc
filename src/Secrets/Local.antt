-- ===== src/Secrets/Local.antt =====
-- Data keys wrapped under a master key in memory: server/internal/secrets/local.go, with the pair
-- WrappedKey of wrapper.go. HKDF is an argument that derives two keys from a master key.
pub mod Rotation
use kilnci.Base.{
  ℕ, zero, suc, ◌+◌, Bool, true, false, not, ◌&&◌, List, [], ◌∷◌, ◌++◌, Option, none, some, ◌==◌,
  ◌≡◌, if◌then◌else◌, length, take, ByteString, codes, bytes_eq, nat_eq, is_empty,
}
use kilnci.Base.Results.{Result, ok, err, ◌>>=◌}
use kilnci.Secrets.{
  Aead, append_netstring, seal_bytes, open_bytes, key_size, SecretError, bad_key_size, org_required,
  unknown_key, wrong_data_key, not_opened,
}

pub record WrappedKey : Type 0 where
  pub key_id : ByteString
  pub ciphertext : ByteString

pub record LocalKey : Type 0 where
  pub id : ByteString
  pub key : ByteString

pub record LocalWrapper : Type 0 where
  pub current : LocalKey
  pub previous : Option LocalKey

-- The two calls of `hkdf.Key`, for the wrapping key and for the id, and `hex.EncodeToString`.
pub record Derivation : Type 0 where
  pub wrapping : ByteString → ByteString
  pub identity : ByteString → ByteString
  pub hex : ByteString → ByteString

-- HKDF gives as many bytes as it is asked for.
pub record DerivationLaws (d : Derivation) : Type 0 where
  pub length-wrapping : (k : ByteString) → length (d.wrapping k) ≡ key_size

module _ (d : Derivation) where
  unfoldable pub new_local_key : ByteString → Result SecretError LocalKey
  new_local_key k =
      if length k == key_size
      then ok (record { id = codes "local:" ++ d.hex (take 8 (d.identity k)); key = d.wrapping k })
      else err bad_key_size

  -- A previous key with the id of the current one is dropped.
  keep_previous : LocalKey → LocalKey → LocalWrapper
  keep_previous c p = record { current = c; previous = if p.id == c.id then none else some p }

  with_previous : LocalKey → Option ByteString → Result SecretError LocalWrapper
  unfolding new_local_key keep_previous
  with_previous c none = ok (record { current = c; previous = none })
  with_previous c (some k) = do p ← new_local_key k; ok (keep_previous c p)

  unfoldable pub new_local_wrapper :
      ByteString → Option ByteString → Result SecretError LocalWrapper
  unfolding with_previous new_local_key keep_previous
  new_local_wrapper current previous = do c ← new_local_key current; with_previous c previous

unfoldable pub dek_aad : ByteString → ByteString
dek_aad org_id = append_netstring (codes "kiln-dek-v1|") org_id

previous_key : Option LocalKey → ByteString → Result SecretError ByteString
previous_key none id = err unknown_key
previous_key (some p) id = if id == p.id then ok p.key else err unknown_key

unfoldable pub key_for : LocalWrapper → ByteString → Result SecretError ByteString
unfolding previous_key
key_for w id = if id == w.current.id then ok w.current.key else previous_key w.previous id

module _ (c : Aead) where
  -- `Wrap`, with the nonce that `seal` reads.
  unfoldable pub wrap :
      LocalWrapper → Option ByteString → ByteString → ByteString → Result SecretError WrappedKey
  wrap w random org_id dek =
      if is_empty org_id
      then err org_required
      else if not (length dek == key_size)
      then err bad_key_size
      else do
        ct ← seal_bytes c random w.current.key dek (dek_aad org_id)
        ok (record { key_id = w.current.id; ciphertext = ct })

  checked_length : ByteString → Result SecretError ByteString
  checked_length dek = if length dek == key_size then ok dek else err not_opened

  unfoldable pub unwrap : LocalWrapper → ByteString → WrappedKey → Result SecretError ByteString
  unfolding checked_length
  unwrap w org_id wk = if is_empty org_id then err org_required else do
    k ← key_for w wk.key_id
    dek ← open_bytes c k wk.ciphertext (dek_aad org_id)
    checked_length dek

  unfoldable pub rewrap :
      LocalWrapper → Option ByteString → ByteString → WrappedKey → Result SecretError WrappedKey
  rewrap w random org_id wk =
      if wk.key_id == w.current.id
      then ok wk
      else do dek ← unwrap w org_id wk; wrap w random org_id dek

previous_ids : Option LocalKey → List ByteString
previous_ids none = []
previous_ids (some p) = p.id ∷ []

unfoldable pub key_ids : LocalWrapper → List ByteString
unfolding previous_ids
key_ids w = w.current.id ∷ previous_ids w.previous
