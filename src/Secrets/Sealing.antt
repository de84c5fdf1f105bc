-- ===== src/Secrets/Sealing.antt =====
-- What `Seal` and `Open` of seal.go promise, for a cipher that keeps its laws.
use kilnci.Base.{
  ℕ, zero, suc, ◌≤◌, true, [], ◌∷◌, ◌++◌, some, ◌≡◌, ◌↔◌, inl, inr, refl, ap, arith, length, take,
  drop, ByteString, Bool-cases, Option-cases, take-append-drop, length-take, length-append, nat_eq,
}
use kilnci.Base.Results.{ok}
use kilnci.Secrets.{
  Aad, Aead, AeadLaws, bytes, validate, key_size, seal_version, seal_bytes, seal_with, open_bytes,
  opened, seal, open_sealed,
}

pub take_front : (n : ℕ) (xs ys : ByteString) → length xs ≡ n → take n (xs ++ ys) ≡ xs
take_front zero [] ys h = refl
take_front zero (x ∷ xs) ys h = absurd (omega arith)
take_front (suc n) [] ys h = absurd (omega arith)
take_front (suc n) (x ∷ xs) ys h = ap (x ∷◌) (take_front n xs ys (omega arith))

pub drop_front : (n : ℕ) (xs ys : ByteString) → length xs ≡ n → drop n (xs ++ ys) ≡ ys
drop_front zero [] ys h = refl
drop_front zero (x ∷ xs) ys h = absurd (omega arith)
drop_front (suc n) [] ys h = absurd (omega arith)
drop_front (suc n) (x ∷ xs) ys h = drop_front n xs ys (omega arith)

module _ (c : Aead) (laws : AeadLaws c) where
  -- The envelope of a text: version, nonce, ciphertext with its tag.
  abbrev pub envelope : ByteString → ByteString → ByteString → ByteString → ByteString
  envelope key nonce p additional = seal_version ∷ (nonce ++ c.encrypt key nonce p additional)

  pub open_bytes-envelope :
      (key nonce p additional : ByteString)
      → length key ≡ key_size
      → length nonce ≡ c.nonce_size
      → open_bytes c key (envelope key nonce p additional) additional ≡ ok p
  unfolding open_bytes opened
  open_bytes-envelope key nonce p additional k n =
      let sealed = c.encrypt key nonce p additional in
      rw
        (
          take_front c.nonce_size nonce sealed n,
          drop_front c.nonce_size nonce sealed n,
          laws.decrypt-encrypt key nonce p additional,
        )
        (ground (arith, length-append nonce sealed, laws.length-encrypt key nonce p additional))

  nonce_split :
      (n : ℕ) (v : ℕ) (rest : ByteString)
      → suc n ≤ length (v ∷ rest)
      → (length (take n rest) ≡ n) × (take n rest ++ drop n rest ≡ rest)
  nonce_split n v rest h = (omega (arith, length-take n rest), take-append-drop n rest)

  -- What opens is the envelope of the text that comes out.
  pub open_bytes-ok :
      (key sealed additional p : ByteString)
      → open_bytes c key sealed additional ≡ ok p
      → (length key ≡ key_size)
        × ((nonce : ByteString) × (length nonce ≡ c.nonce_size)
            × (sealed ≡ envelope key nonce p additional))
  unfolding open_bytes opened
  open_bytes-ok key [] additional p h = absurd (ground arith)
  open_bytes-ok key (v ∷ rest) additional p h =
      let nonce = take c.nonce_size rest in
      let size : length key ≡ key_size = ground arith in
      let long : suc c.nonce_size ≤ length (v ∷ rest) = ground arith in
      let version : v ≡ seal_version = ground arith in
      let (n, whole) = nonce_split c.nonce_size v rest long in
      let opens : c.decrypt key nonce (drop c.nonce_size rest) additional ≡ some p =
        elim (Option-cases (c.decrypt key nonce (drop c.nonce_size rest) additional)) [
          | inl e ↦ absurd (ground arith)
          | inr (q, e) ↦ ground arith
        ] in
      let cipher = laws.encrypt-decrypt key nonce _ additional p opens in (size, (nonce, n, cc))

  -- `Open` gives a text exactly for a complete context and a key of 32 bytes, from the envelope in
  -- which that text is sealed with the bytes of that very context, under some nonce.
  pub open_sealed_iff :
      (dek sealed : ByteString) (aad : Aad) (p : ByteString)
      → (open_sealed c dek sealed aad ≡ ok p) ↔ (
          (validate aad ≡ true)
          × (length dek ≡ key_size)
          × ((nonce : ByteString) × (length nonce ≡ c.nonce_size)
              × (sealed ≡ envelope dek nonce p (bytes aad))))
  unfolding open_sealed
  open_sealed_iff dek sealed aad p = (
    λ h. elim (Bool-cases (validate aad)) [
      | inl complete ↦
          let opens : open_bytes c dek sealed (bytes aad) ≡ ok p = ground arith in
          let (size, (nonce, n, shape)) = open_bytes-ok dek sealed (bytes aad) p opens in
          (complete, size, (nonce, n, shape))
      | inr broken ↦ absurd (ground arith)
    ],
    λ (complete, size, (nonce, n, shape)).
        rw (complete, shape) (open_bytes-envelope dek nonce p (bytes aad) size n),
  )

  seal_bytes-envelope :
      (key nonce p additional : ByteString)
      → length key ≡ key_size
      → seal_bytes c (some nonce) key p additional ≡ ok (envelope key nonce p additional)
  unfolding seal_bytes seal_with
  seal_bytes-envelope key nonce p additional k = ground arith

  -- With a complete context, a key of 32 bytes and a nonce of the cipher's size, `Seal` returns a
  -- value, and `Open` under the same key and context gives back the text.
  pub open-seal :
      (dek nonce p : ByteString) (aad : Aad)
      → validate aad ≡ true
      → length dek ≡ key_size
      → length nonce ≡ c.nonce_size
      → (sealed : ByteString) × (seal c (some nonce) dek p aad ≡ ok sealed)
        × (open_sealed c dek sealed aad ≡ ok p)
  unfolding seal
  open-seal dek nonce p aad complete k n = (
    envelope dek nonce p (bytes aad),
    rw complete (seal_bytes-envelope dek nonce p (bytes aad) k),
    (open_sealed_iff dek (envelope dek nonce p (bytes aad)) aad p).1
        (complete, k, (nonce, n, refl)),
  )
