-- ===== src/Mask/Tests.antt =====
-- The masker at small inputs.
use kilnci.Base.{
  true, false, List, [], ◌∷◌, ◌++◌, ◌≡◌, refl, ◌↔◌, none, append_assoc, append-nil, arith, get_or,
}
use mathlib.Core.List.{flatten}
use kilnci.Mask.{Bytes, Sink, has_prefix, match_at, render, close, write_all}
use kilnci.Mask.Split.{Appends}
use kilnci.Mask.Cover.{flags}
use kilnci.Mask.Compile.{compile, compile_patterns}
use kilnci.Mask.Hidden.{hidden, masked, split_independent, hidden_iff, Occurs}

abbrev collect : Sink Bytes
collect s b = (s ++ b, false)

collect-Appends : Appends collect
collect-Appends = record {
  never_fails = λ s b. refl;
  joins = λ s a b. append_assoc s a b;
  empty = λ s. append-nil s;
}

-- The values "abcd" and "cdef".
abbrev secrets : List Bytes
secrets = (97 ∷ 98 ∷ 99 ∷ 100 ∷ []) ∷ (99 ∷ 100 ∷ 101 ∷ 102 ∷ []) ∷ []

-- "xab", "cde" and "fy".
abbrev chunks : List Bytes
chunks = (120 ∷ 97 ∷ 98 ∷ []) ∷ (99 ∷ 100 ∷ 101 ∷ []) ∷ (102 ∷ 121 ∷ []) ∷ []

split_independent_example :
    let (w, err) = write_all collect chunks (compile [] secrets []) in
    (err ≡ none)
    × ((close collect w).1 ≡ none)
    × ((close collect w).0.sink ≡ masked secrets [] (flatten chunks))
split_independent_example = split_independent collect [] secrets [] chunks collect-Appends

-- The output is "x***y": two overlapping values make one mark.
overlap_once : masked secrets [] (flatten chunks) ≡ 120 ∷ 42 ∷ 42 ∷ 42 ∷ 121 ∷ []
unfolding masked flags compile_patterns match_at has_prefix render flatten
overlap_once = refl

hidden_iff_example :
    (get_or (hidden secrets [] (flatten chunks)) 5 false ≡ true)
    ↔ Occurs secrets [] (flatten chunks) 5
unfolding flatten
hidden_iff_example = hidden_iff secrets [] (flatten chunks) 5 tt (omega arith)
