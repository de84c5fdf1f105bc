-- ===== src/Paging/Ids.antt =====
-- The ids that `encode` of ids.go makes are valid.
use kilnci.Base.{
  ℕ, zero, suc, ◌+◌, ◌*◌, ◌/◌, ◌%◌, ◌^◌, ◌<◌, Bool, true, ◌&&◌, [], ◌∷◌, ◌≡◌, refl, arith, leb,
  List, length, take, get_or, all, ByteString, nat_eq, nat_beq_iff,
}
use kilnci.Paging.{alphabet, id_length, is_alphabet, starts_low, valid_id, encode_from, encode_id}

-- What holds of a list's first `n` elements holds of each one that is looked up among them.
get_or-first :
    (p : ℕ → Bool) (xs : List ℕ) (n i d : ℕ)
    → all p (take n xs) ≡ true
    → i < n
    → i < length xs
    → p (get_or xs i d) ≡ true
get_or-first p [] n i d h few inside = absurd (omega (arith, inside))
get_or-first p (x ∷ xs) zero i d h few inside = absurd (omega (arith, few))
get_or-first p (x ∷ xs) (suc n) zero d h few inside = ground (arith, h)
get_or-first p (x ∷ xs) (suc n) (suc i) d h few inside =
    get_or-first p xs n i d (ground (arith, h)) (omega (arith, few)) (omega (arith, inside))

encode_from-shape :
    (i hi lo : ℕ) (out : ByteString)
    → all is_alphabet out ≡ true
    → (length (encode_from i hi lo out) ≡ i + length out)
      × (all is_alphabet (encode_from i hi lo out) ≡ true)
unfolding encode_from
encode_from-shape zero hi lo out h = (omega arith, h)
encode_from-shape (suc i) hi lo out h =
    let c = get_or alphabet (lo % 32) 0 in
    let good = get_or-first is_alphabet alphabet 32 (lo % 32) 0 refl (omega arith) (omega arith) in
    let (l, a) = encode_from-shape i (hi / 32) (lo / 32 + hi % 32 * 2 ^ 59) (c ∷ out) (rw good h) in
    (omega (arith, l), a)

-- The two words as one number, and the shift of both.
shifted :
    (hi lo : ℕ)
    → lo < 2 ^ 64
    → (hi / 32 * 2 ^ 64 + (lo / 32 + hi % 32 * 2 ^ 59) ≡ (hi * 2 ^ 64 + lo) / 32)
      × (lo / 32 + hi % 32 * 2 ^ 59 < 2 ^ 64)
shifted hi lo h = omega arith

-- Three bits, and five more for each further character.
id_range : ℕ → ℕ
id_range zero = 8
id_range (suc k) = 32 * id_range k

-- After the last round but one, three bits are left.
encode_from-low :
    (k hi lo : ℕ) (out : ByteString)
    → lo < 2 ^ 64
    → hi * 2 ^ 64 + lo < id_range k
    → starts_low (encode_from (suc k) hi lo out) ≡ true
unfolding encode_from id_range
encode_from-low zero hi lo out h few =
    let small : lo < 8 = omega arith in
    let same : lo % 32 ≡ lo = omega arith in
    rw same (get_or-first (λ c. leb c b'7') alphabet 8 lo 0 refl small (omega (arith, small)))
encode_from-low (suc k) hi lo out h few =
    let (value, low) = shifted hi lo h in
    encode_from-low k (hi / 32) (lo / 32 + hi % 32 * 2 ^ 59) _ low (omega (arith, value, few))

whole_range : id_range 25 ≡ 2 ^ 128
unfolding id_range
whole_range = refl

all_true : (a b c : Bool) → a ≡ true → b ≡ true → c ≡ true → (a && b && c) ≡ true
all_true a b c h k l = ground (arith, h, k, l)

-- Whatever two words of 64 bits the clock and the random bytes fill, `Valid` accepts their id.
pub valid_id-encode_id : (hi lo : ℕ) → hi < 2 ^ 64 → lo < 2 ^ 64 → valid_id (encode_id hi lo) ≡ true
unfolding valid_id encode_id
valid_id-encode_id hi lo h l =
    let (size, good) = encode_from-shape id_length hi lo [] refl in
    let low = encode_from-low 25 hi lo [] l (rw whole_range (omega arith)) in
    all_true _ _ _ ((nat_beq_iff (length (encode_from id_length hi lo [])) id_length).1 size) low
      good
