-- ===== src/Paging/Tests.antt =====
-- Pages and ids at small inputs.
use kilnci.Base.{
  ℕ, ◌%◌, true, false, [], ◌∷◌, Option, none, some, ◌≡◌, refl, arith, take, ByteString, codes,
}
use kilnci.Base.Int.{pos, negsuc}
use kilnci.Paging.{Base64, Base64Laws, encode_id, valid_id, clamp, build, parse_request}
use kilnci.Paging.Ids.{valid_id-encode_id}
use kilnci.Paging.Resumes.{last, parse_request-build}

-- An encoding that puts one byte in front.
abbrev behind : ByteString → Option ByteString
behind [] = none
behind (c ∷ cs) = some cs

abbrev toy : Base64
toy = record { encode = λ s. 0 ∷ s; decode = behind }

toy-Base64Laws : Base64Laws toy
toy-Base64Laws = record { decode-encode = λ s. refl; encode-some = λ s h. refl }

abbrev id_of : ℕ → ByteString
id_of n = encode_id 0 (n % 1000)

small_id : encode_id 0 37 ≡ codes "00000000000000000000000015"
unfolding encode_id
small_id = refl

too_high : valid_id (codes "80000000000000000000000015") ≡ false
unfolding valid_id
too_high = refl

valid_id-encode_id_example : valid_id (encode_id 5 7) ≡ true
valid_id-encode_id_example = valid_id-encode_id 5 7 (omega arith) (omega arith)

parse_request-build_example :
    ((build toy id_of (1 ∷ 2 ∷ 3 ∷ []) (clamp (pos 2))).items
      ≡ take (clamp (pos 2)) (1 ∷ 2 ∷ 3 ∷ []))
    × ((y : ℕ) × (last (take (clamp (pos 2)) (1 ∷ 2 ∷ 3 ∷ [])) ≡ some y)
        × (parse_request toy (record {
          cursor = (build toy id_of (1 ∷ 2 ∷ 3 ∷ []) (clamp (pos 2))).next_cursor;
          limit = negsuc 0;
        })
            ≡ some (id_of y, clamp (negsuc 0))))
unfolding clamp
parse_request-build_example =
    parse_request-build toy toy-Base64Laws id_of (1 ∷ 2 ∷ 3 ∷ []) (pos 2) (negsuc 0)
      (λ n. valid_id-encode_id 0 (n % 1000) (omega arith) (omega arith)) (omega arith)
