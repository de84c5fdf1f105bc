-- ===== src/Secrets/Tests.antt =====
-- Sealed secrets, wrapped keys and the key ring at small inputs, with a toy cipher whose tag is the
-- length of the additional data.
use kilnci.Base.{
  ◌⊎◌, ℕ, ◌≤◌, true, List, [], ◌∷◌, ◌++◌, Option, none, some, ◌==◌, ◌≡◌, ◌↔◌, refl, arith,
  if◌then◌else◌, length, replicate, length-replicate, get_or, ByteString, codes, nat_eq,
}
use kilnci.Base.Int.{pos, negsuc}
use kilnci.Base.Decimal.{decimal, format_int}
use kilnci.Base.Results.{ok}
use kilnci.Secrets.{
  Aad, Aead, AeadLaws, bytes, validate, key_size, seal, seal_bytes, open_sealed, append_netstring,
}
use kilnci.Secrets.Contexts.{bytes-inj}
use kilnci.Secrets.Sealing.{envelope, open_sealed_iff, open-seal}
use kilnci.Secrets.Local.{
  WrappedKey, LocalWrapper, Derivation, DerivationLaws, new_local_wrapper, dek_aad, wrap, unwrap,
  rewrap,
}
use kilnci.Secrets.Local.Rotation.{rewrap-rotates}
use kilnci.Secrets.Keyring.{Call, ask, forget, calls, new_keyring, data_key, max_cached_deks}
use kilnci.Secrets.Keyring.Cache.{cache_bounded, data_key-IsRecent, IsRecent}

abbrev tagged : ByteString → ByteString → ByteString → Option ByteString
tagged s [] a = none
tagged s (t ∷ p) a = if t == length a then some p else none

abbrev toy : Aead
toy = record {
  nonce_size = 2;
  overhead = 1;
  encrypt = λ k n p a. length a ∷ p;
  decrypt = λ k n s a. tagged s s a;
}

tagged-some : (u s a p : ByteString) → tagged u s a ≡ some p → s ≡ length a ∷ p
tagged-some u [] a p h = cc
tagged-some u (t ∷ q) a p h = ground arith

toy-AeadLaws : AeadLaws toy
toy-AeadLaws = record {
  length-encrypt = λ k n p a. omega arith;
  decrypt-encrypt = λ k n p a. ground arith;
  encrypt-decrypt = λ k n s a p h. tagged-some s s a p h;
}

abbrev token : Aad
token = record {
  org_id = codes "o1";
  scope_kind = codes "org";
  scope_id = codes "o1";
  name = codes "TOKEN";
  secret_id = codes "s1";
  dek_version = pos 1;
  value_version = pos 12;
}

abbrev dek : ByteString
dek = replicate 32 7

abbrev nonce : ByteString
nonce = 5 ∷ 6 ∷ []

netstring_of_name : append_netstring [] token.name ≡ codes "5:TOKEN,"
unfolding append_netstring decimal
netstring_of_name = refl

minus_ten : format_int (negsuc 9) ≡ codes "-10"
unfolding format_int
minus_ten = refl

token_complete : validate token ≡ true
unfolding validate
token_complete = refl

bytes-inj_example : token ≡ token
bytes-inj_example = bytes-inj token token refl

open-seal_example :
    (sealed : ByteString) × (seal toy (some nonce) dek (codes "x") token ≡ ok sealed)
    × (open_sealed toy dek sealed token ≡ ok (codes "x"))
open-seal_example = open-seal toy toy-AeadLaws dek nonce (codes "x") token token_complete refl refl

open_sealed_iff_example :
    (open_sealed toy dek (1 ∷ nonce ++ length (bytes token) ∷ codes "x") token ≡ ok (codes "x")) ↔ (
      (validate token ≡ true)
      × (length dek ≡ key_size)
      × ((n : ByteString) × (length n ≡ toy.nonce_size)
          × (◌≡◌ {A = ByteString}
              (1 ∷ nonce ++ length (bytes token) ∷ codes "x")
              (envelope toy toy-AeadLaws dek n (codes "x") (bytes token)))))
open_sealed_iff_example =
    open_sealed_iff toy toy-AeadLaws dek (1 ∷ nonce ++ length (bytes token) ∷ codes "x") token
      (codes "x")

abbrev derivation : Derivation
derivation = record { wrapping = λ k. replicate 32 (get_or k 0 0); identity = λ k. k; hex = λ k. k }

derivation-DerivationLaws : DerivationLaws derivation
derivation-DerivationLaws = record { length-wrapping = λ k. length-replicate 32 (get_or k 0 0) }

abbrev master : ℕ → ByteString
master b = replicate 32 b

abbrev wrapper : ℕ → LocalWrapper
wrapper b = record {
  current = record { id = codes "local:" ++ replicate 8 b; key = replicate 32 b };
  previous = none;
}

abbrev rotating : LocalWrapper
rotating = record (wrapper 2) { previous = some (wrapper 1).current }

made : new_local_wrapper derivation (master 1) none ≡ ok (wrapper 1)
unfolding new_local_wrapper
made = refl

made_anew : new_local_wrapper derivation (master 2) none ≡ ok (wrapper 2)
unfolding new_local_wrapper
made_anew = refl

made_rotating : new_local_wrapper derivation (master 2) (some (master 1)) ≡ ok rotating
unfolding new_local_wrapper
made_rotating = refl

abbrev old_key : WrappedKey
old_key = record { key_id = codes "local:" ++ replicate 8 1; ciphertext = 1 ∷ nonce ++ 17 ∷ dek }

wrapped_old : wrap toy (wrapper 1) (some nonce) (codes "o1") dek ≡ ok old_key
unfolding wrap seal_bytes dek_aad append_netstring decimal
wrapped_old = refl

rewrap-rotates_example :
    (unwrap toy rotating (codes "o1") old_key ≡ ok dek)
    × ((wk : WrappedKey) × (rewrap toy rotating (some (8 ∷ 9 ∷ [])) (codes "o1") old_key ≡ ok wk)
        × (unwrap toy (wrapper 2) (codes "o1") wk ≡ ok dek))
rewrap-rotates_example =
    rewrap-rotates derivation derivation-DerivationLaws toy toy-AeadLaws (master 1) (master 2)
      (wrapper 1) rotating (wrapper 2) made made_rotating made_anew (λ e. cc) nonce (8 ∷ 9 ∷ [])
      (codes "o1") dek old_key refl refl wrapped_old

abbrev asked : List Call
asked =
    ask 5 6 (codes "o2") 1 old_key (ok (1 ∷ []))
    ∷ forget
    ∷ ask 0 0 (codes "o1") 1 old_key (ok (2 ∷ []))
    ∷ []

cache_bounded_example : length (calls (λ h. h) asked (new_keyring (pos 10))).cache ≤ max_cached_deks
cache_bounded_example = cache_bounded (λ h. h) (pos 10) asked

-- The wrapper answers another data key by now, and the cached one has not expired.
data_key-IsRecent_example :
    let answer =
      (data_key
        (λ h. h)
        7
        8
        (codes "o2")
        1
        old_key
        (ok (3 ∷ []))
        (calls (λ h. h) asked (new_keyring (pos 10)))).1 in
    (answer ≡ ok (3 ∷ []))
    ⊎ IsRecent (λ h. h) (codes "o2") old_key (new_keyring (pos 10)).ttl asked 7 answer
data_key-IsRecent_example =
    data_key-IsRecent (λ h. h) (codes "o2") old_key (pos 10) asked 7 8 1 (ok (3 ∷ []))
      (λ _. refl, (λ _. refl, tt))
