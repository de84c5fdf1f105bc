-- ===== src/Secrets.antt =====
-- Sealed secrets: the envelope of server/internal/secrets/seal.go. The cipher, a library of Go, is the
-- argument `Aead`; the bytes that `rand.Read` fills, or its failure, are an argument too.
mod Contexts
pub mod Sealing
pub mod Local
pub mod Keyring
mod Tests
use kilnci.Base.{
  ℕ, zero, suc, ◌+◌, Bool, true, false, not, ◌&&◌, ◌||◌, List, [], ◌∷◌, ◌++◌, Option, none, some,
  ◌==◌, ◌≡◌, if◌then◌else◌, ltb, length, take, drop, ByteString, codes, bytes_eq, nat_eq, is_empty,
}
use kilnci.Base.Decimal.{decimal, format_int}
use kilnci.Base.Int.{ℤ, pos, negsuc}
use kilnci.Base.Results.{Result, ok, err, ◌>>=◌}

pub data SecretError : Type 0 where
  incomplete_context bad_key_size nonce_failed : SecretError
  not_opened org_required unknown_key wrong_data_key : SecretError

abbrev pub key_size : ℕ
key_size = 32

abbrev pub seal_version : ℕ
seal_version = 1

abbrev pub scope_org : ByteString
scope_org = codes "org"

abbrev pub scope_project : ByteString
scope_project = codes "project"

-- `AAD`, what a secret value is bound to.
pub record Aad : Type 0 where
  pub org_id : ByteString
  pub scope_kind : ByteString
  pub scope_id : ByteString
  pub name : ByteString
  pub secret_id : ByteString
  pub dek_version : ℤ
  pub value_version : ℤ

-- `v >= 1`.
abbrev pub at_least_one : ℤ → Bool
at_least_one (pos n) = ltb 0 n
at_least_one (negsuc n) = false

-- Whether `validate` returns no error.
unfoldable pub validate : Aad → Bool
validate a = not (
    is_empty a.org_id
    || is_empty a.scope_id
    || is_empty a.name
    || is_empty a.secret_id
    || not (at_least_one a.dek_version)
    || not (at_least_one a.value_version)
    || not (a.scope_kind == scope_org) && not (a.scope_kind == scope_project))

unfoldable pub append_netstring : ByteString → ByteString → ByteString
append_netstring b s = b ++ decimal (length s) ++ b':' ∷ (s ++ b',' ∷ [])

append_netstrings : ByteString → List ByteString → ByteString
unfolding append_netstring
append_netstrings b [] = b
append_netstrings b (f ∷ fs) = append_netstrings (append_netstring b f) fs

-- `AAD.bytes`.
unfoldable pub bytes : Aad → ByteString
unfolding append_netstrings append_netstring
bytes a =
    let b =
      append_netstrings (codes "kiln-secret-v1|")
        (a.org_id ∷ a.scope_kind ∷ a.scope_id ∷ a.name ∷ a.secret_id ∷ []) in
    append_netstring (append_netstring b (format_int a.dek_version)) (format_int a.value_version)

-- An authenticated cipher, `cipher.AEAD`. A value is opened, or refused.
pub record Aead : Type 0 where
  pub nonce_size : ℕ
  pub overhead : ℕ
  pub encrypt : ByteString → ByteString → ByteString → ByteString → ByteString
  pub decrypt : ByteString → ByteString → ByteString → ByteString → Option ByteString

-- What AES-GCM documents, with key, nonce, text and additional data in this order: a tag of fixed
-- length; it opens what it sealed, and nothing else.
pub record AeadLaws (c : Aead) : Type 0 where
  pub length-encrypt : (k n p a : ByteString) → length (c.encrypt k n p a) ≡ length p + c.overhead
  pub decrypt-encrypt : (k n p a : ByteString) → c.decrypt k n (c.encrypt k n p a) a ≡ some p
  pub encrypt-decrypt :
      (k n s a p : ByteString) → c.decrypt k n s a ≡ some p → s ≡ c.encrypt k n p a

module _ (c : Aead) where
  seal_with :
      Option ByteString → ByteString → ByteString → ByteString → Result SecretError ByteString
  seal_with none key plaintext additional = err nonce_failed
  seal_with (some nonce) key plaintext additional =
      ok (seal_version ∷ (nonce ++ c.encrypt key nonce plaintext additional))

  -- `newGCM` and the rest of `seal`.
  unfoldable pub seal_bytes :
      Option ByteString → ByteString → ByteString → ByteString → Result SecretError ByteString
  unfolding seal_with
  seal_bytes random key plaintext additional =
      if length key == key_size then seal_with random key plaintext additional else err bad_key_size

  opened : Option ByteString → Result SecretError ByteString
  opened none = err not_opened
  opened (some plaintext) = ok plaintext

  -- Whether the first byte is the version.
  abbrev has_version : ByteString → Bool
  has_version [] = false
  has_version (v ∷ rest) = v == seal_version

  unfoldable pub open_bytes : ByteString → ByteString → ByteString → Result SecretError ByteString
  unfolding opened
  open_bytes key sealed additional =
      if not (length key == key_size)
      then err bad_key_size
      else if ltb (length sealed) (1 + c.nonce_size + c.overhead) || not (has_version sealed)
      then err not_opened
      else opened (
          c.decrypt key (take c.nonce_size (drop 1 sealed)) (drop (suc c.nonce_size) sealed)
            additional)

  -- `Seal` and `Open`.
  unfoldable pub seal :
      Option ByteString → ByteString → ByteString → Aad → Result SecretError ByteString
  seal random dek plaintext aad =
      if validate aad then seal_bytes random dek plaintext (bytes aad) else err incomplete_context

  unfoldable pub open_sealed : ByteString → ByteString → Aad → Result SecretError ByteString
  open_sealed dek sealed aad =
      if validate aad then open_bytes dek sealed (bytes aad) else err incomplete_context
