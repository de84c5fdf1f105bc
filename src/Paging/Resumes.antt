-- ===== src/Paging/Resumes.antt =====
-- A page's cursor leads to the item after its last one: paging.go.
use kilnci.Base.{
  zero, suc, ◌≤◌, ◌<◌, true, false, List, [], ◌∷◌, Option, none, some, ◌≡◌, refl, arith, leb,
  length, length-take, take, ByteString, is_empty,
}
use kilnci.Base.Int.{ℤ, pos, negsuc}
use kilnci.Paging.{
  valid_id, Base64, Base64Laws, max_limit, clamp, checked, parse_request, cursor_after, build,
}

-- The last item, if there is one.
abbrev pub last : {A : Type 0} → List A → Option A
last [] = none
last (x ∷ []) = some x
last (x ∷ y ∷ xs) = last (y ∷ xs)

pub clamp_bounds : (l : ℤ) → (1 ≤ clamp l) × (clamp l ≤ max_limit)
unfolding clamp
clamp_bounds (pos zero) = omega arith
clamp_bounds (pos (suc n)) = omega arith
clamp_bounds (negsuc n) = omega arith

valid_id-some : (s : ByteString) → valid_id s ≡ true → is_empty s ≡ false
unfolding valid_id
valid_id-some [] h = cc
valid_id-some (c ∷ cs) h = refl

module _ (b : Base64) (laws : Base64Laws b) {A : Type 0} (id_of : A → ByteString) where
  cursor_after-last :
      (x : A) (xs : List A)
      → (y : A) × (last (x ∷ xs) ≡ some y) × (cursor_after b id_of (x ∷ xs) ≡ b.encode (id_of y))
  unfolding cursor_after
  cursor_after-last x [] = (x, refl, refl)
  cursor_after-last x (y ∷ xs) = cursor_after-last y xs

  cursor_of :
      (ys : List A)
      → 0 < length ys
      → (y : A) × (last ys ≡ some y) × (cursor_after b id_of ys ≡ b.encode (id_of y))
  cursor_of [] h = absurd (omega arith)
  cursor_of (x ∷ xs) h = cursor_after-last x xs

  -- A page that was asked for with a limit, of more rows than the limit, holds as many rows as the
  -- limit, and its cursor is parsed to the id of the last of them, whatever limit comes with it. The
  -- ids of the rows are valid.
  pub parse_request-build :
      (xs : List A) (asked again : ℤ)
      → ((x : A) → valid_id (id_of x) ≡ true)
      → clamp asked < length xs
      → ((build b id_of xs (clamp asked)).items ≡ take (clamp asked) xs)
        × ((y : A) × (last (take (clamp asked) xs) ≡ some y)
            × (parse_request b
                  (record { cursor = (build b id_of xs (clamp asked)).next_cursor; limit = again })
                ≡ some (id_of y, clamp again)))
  unfolding build parse_request checked
  parse_request-build xs asked again valid more =
      let many : leb (length xs) (clamp asked) ≡ false = ground arith in
      let full : 0 < length (take (clamp asked) xs) =
        omega (arith, length-take (clamp asked) xs, clamp_bounds asked) in
      let (y, ends, cursor) = cursor_of (take (clamp asked) xs) full in
      let shown = laws.encode-some (id_of y) (valid_id-some (id_of y) (valid y)) in
      rw many (refl, (y, ends, rw (cursor, shown, laws.decode-encode (id_of y), valid y)))
