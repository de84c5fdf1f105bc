-- ===== src/Engine/Dag/Rounds.antt =====
-- The loop of Kahn's algorithm in dag.go: it ends, and what holds in every round.
use kilnci.Base.{
  ℕ, zero, suc, ◌+◌, ◌-◌, ◌≤◌, ◌<◌, List, [], ◌∷◌, ◌++◌, ◌≡◌, ◌==◌, nat_eq, if◌then◌else◌, ltb,
  length, get_or, tally, tally-append, arith, inl, inr, Bool-cases, map, List-cases, length-set, ap,
}
use kilnci.Engine.Dag.{Node, Kahn, sort, name_at, release_one, release, take_ready, kahn}
use kilnci.Engine.Dag.Tallies.{
  get_or-set, get_or_default, get_or-past, tally-sort, sort-nil, met, met-cons, met_le_length,
  met-full, Single, Below, Single-length,
}
use mathlib.Core.List.{reverse, reverse-cons}

-- Each index came after the ones that it depends on; the newest is first.
abbrev pub Ordered : (ℕ → List ℕ) → List ℕ → Type 0
Ordered deps [] = Unit
Ordered deps (i ∷ done) = ((j : ℕ) → 0 < tally j (deps i) → 0 < tally j done) × Ordered deps done

module _ (nodes : List Node) (deps : ℕ → List ℕ) (dependents : List (List ℕ))
    (linked : (i k : ℕ) → tally k (get_or dependents i []) ≡ tally i (deps k))
    (bounded : (k : ℕ) → length nodes ≤ k → deps k ≡ []) where
  -- `ds` are the dependents of the index that is being taken, still to be released.
  pub record Inv (ds : List ℕ) (s : Kahn) (done : List ℕ) : Type 0 where
    pub sized : length s.indegree ≡ length nodes
    pub remaining :
        (k : ℕ)
        → k < length nodes
        → get_or s.indegree k 1 + met done (deps k) ≡ length (deps k) + tally k ds
    pub placed :
        (k : ℕ) → tally k s.ready + tally k done ≡ (if get_or s.indegree k 1 == 0 then 1 else 0)
    pub ordered : Ordered deps done
    pub listed : s.order ≡ reverse (map (name_at nodes) done)

  pub Inv-Single : {ds : List ℕ} {s : Kahn} (done : List ℕ) → Inv ds s done → Single done
  Inv-Single done v k = ground (arith, v.placed k)

  pub Inv-Below :
      {ds : List ℕ} {s : Kahn} (done : List ℕ) → Inv ds s done → Below (length nodes) done
  Inv-Below {s = s} done v k le =
      ground (arith, v.placed k, get_or-past s.indegree k 1 (omega (arith, v.sized, le)))

  Inv-release_one :
      (d : ℕ) (ds : List ℕ) (s : Kahn) (done : List ℕ)
      → d < length nodes
      → met done (deps d) ≤ length (deps d)
      → Inv (d ∷ ds) s done
      → Inv ds (release_one d s) done
  unfolding release_one
  Inv-release_one d ds s done lt room v =
      let old = get_or_default s.indegree d 0 1 (omega (arith, v.sized)) in
      record {
        sized = omega (arith, length-set s.indegree d (get_or s.indegree d 0 - 1), v.sized);
        remaining = λ k h. ground (
          arith,
          v.remaining k h,
          get_or-set s.indegree d k (get_or s.indegree d 0 - 1) 1,
          v.sized,
          old,
          v.remaining d lt,
        );
        placed = λ k. ground (
          arith,
          v.placed k,
          v.remaining d lt,
          get_or-set s.indegree d k (get_or s.indegree d 0 - 1) 1,
          v.sized,
          old,
          tally-append k s.ready (d ∷ []),
        );
        ordered = v.ordered;
        listed = v.listed;
      }

  Inv-release :
      (ds : List ℕ) (s : Kahn) (done : List ℕ)
      → ((d : ℕ) → 0 < tally d ds → d < length nodes)
      → Inv ds s done
      → Inv [] (release ds s) done
  unfolding release
  Inv-release [] s done within v = v
  Inv-release (d ∷ ds) s done within v =
      Inv-release ds (release_one d s) done (λ k h. within k (omega arith))
        (Inv-release_one d ds s done (within d (ground arith))
          (met_le_length done (deps d) (Inv-Single done v)) v)

  Inv-taken :
      (s : Kahn) (done : List ℕ) (i : ℕ) (rest : List ℕ)
      → sort s.ready ≡ i ∷ rest
      → Inv [] s done
      → Inv
          (get_or dependents i [])
          (record s { ready = rest; order = s.order ++ name_at nodes i ∷ [] })
          (i ∷ done)
  Inv-taken s done i rest e v =
      let in_ready : 0 < tally i s.ready = ground (arith, tally-sort i s.ready, ap (tally i) e) in
      let none_left : get_or s.indegree i 1 ≡ 0 = ground (arith, v.placed i, in_ready) in
      let in_range : i < length nodes =
        ground (arith, none_left, get_or-past s.indegree i 1, v.sized) in
      let all_met : met done (deps i) ≡ length (deps i) = omega (arith, v.remaining i in_range) in
      let free : (j : ℕ) → 0 < tally j (deps i) → 0 < tally j done =
        λ j m. omega (arith, met-full done (deps i) (Inv-Single done v) all_met j m) in
      record {
        sized = v.sized;
        remaining = λ k h. omega (arith, v.remaining k h, met-cons i done (deps k), linked i k);
        placed = λ k. omega (arith, v.placed k, tally-sort k s.ready, ap (tally k) e);
        ordered = (free, v.ordered);
        listed = rw (v.listed, reverse-cons);
      }

  Inv-take_ready :
      (s : Kahn) (done : List ℕ) (i : ℕ) (rest : List ℕ)
      → sort s.ready ≡ i ∷ rest
      → Inv [] s done
      → Inv [] (take_ready nodes dependents i rest s) (i ∷ done)
  unfolding take_ready
  Inv-take_ready s done i rest e v =
      Inv-release (get_or dependents i [])
        (record s { ready = rest; order = s.order ++ name_at nodes i ∷ [] }) (i ∷ done)
        (λ d h. elim (Bool-cases (ltb d (length nodes))) [
          | inl lt ↦ ground (arith, lt)
          | inr ge ↦
              absurd (omega (arith, linked i d, ap (tally i) (bounded d (ground (arith, ge)))))
        ])
        (Inv-taken s done i rest e v)

  -- With as much fuel as nodes are left the loop stops with nothing ready.
  pub kahn_ends :
      (fuel : ℕ) (s : Kahn) (done : List ℕ)
      → length nodes ≤ fuel + length done
      → Inv [] s done
      → (last : List ℕ) × Inv [] (kahn nodes dependents fuel s) last
        × ((kahn nodes dependents fuel s).ready ≡ [])
  unfolding kahn
  kahn_ends zero s done h v = elim (List-cases (sort s.ready)) [
    | inl e ↦ (done, v, sort-nil s.ready e)
    | inr (i, rest, e) ↦
        let w = Inv-taken s done i rest e v in
        absurd (
          omega (
            arith,
            Single-length (length nodes) (i ∷ done) (Inv-Single (i ∷ done) w)
                (Inv-Below (i ∷ done) w),
          ))
  ]
  kahn_ends (suc fuel) s done h v = elim (List-cases (sort s.ready)) [
    | inl e ↦ (done, rw (e, kahn) v, rw (e, kahn) (sort-nil s.ready e))
    | inr (i, rest, e) ↦
        let (last, w, empty) =
          kahn_ends fuel (take_ready nodes dependents i rest s) (i ∷ done) (omega arith)
            (Inv-take_ready s done i rest e v) in
        (last, rw (e, kahn) w, rw (e, kahn) empty)
  ]
