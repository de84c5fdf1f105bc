-- ===== src/Engine/Dag/Skips.antt =====
-- What `Advance` of dag.go decides.
use kilnci.Base.{
  ◌+◌, ◌≤◌, ◌<◌, Bool, true, false, ◌&&◌, List, [], ◌∷◌, ◌≡◌, inl, inr, ◌↔◌, ltb, any, all, ◌==◌,
  string_eq, if◌then◌else◌, String, holds_key, tally, refl, arith, ==_cases, ==_refl, Bool-cases,
  subst, sym, ap, ◌∙◌,
}
use kilnci.Base.Results.{ok}
use kilnci.Engine.Dag.{Node, plan}
use kilnci.Engine.Dag.Names.{ids, needs_of}
use kilnci.Engine.Dag.Graphs.{InOrder, holds_key-tally}
use kilnci.Engine.Dag.Planned.{plan-InOrder, plan_ok_iff}
use kilnci.Engine.Dag.Weights.{
  is_blocked_iff, any-tally, tally-any, all-tally, tally-all, is_waiting_iff, settled_free,
  decide_job_lem, is_blocked, is_settled,
}
use kilnci.Engine.Dag.Progress.{
  Outcome, waiting, succeeded, blocked, is_waiting, Decisions, decide_job, decide_jobs, select,
  undecided, advance,
}

-- A waiting job is doomed when a job that it needs is blocked, or is itself doomed.
pub data Doomed (nodes : List Node) (outcomes : String → Outcome) : String → Type 0 where
  direct :
      {x d : String}
      → outcomes x ≡ waiting
      → 0 < tally d (needs_of nodes x)
      → outcomes d ≡ blocked
      → Doomed nodes outcomes x
  through :
      {x d : String}
      → outcomes x ≡ waiting
      → 0 < tally d (needs_of nodes x)
      → Doomed nodes outcomes d
      → Doomed nodes outcomes x

-- A waiting job all of whose needs have succeeded.
abbrev pub Startable : List Node → (String → Outcome) → String → Type 0
Startable nodes outcomes x =
    (outcomes x ≡ waiting)
    × ((d : String) → 0 < tally d (needs_of nodes x) → outcomes d ≡ succeeded)

module _ (nodes : List Node) (outcomes : String → Outcome) where
  abbrev IsJob : String → Type 0
  IsJob x = 0 < tally x (ids nodes)

  -- `seen` are the jobs decided so far.
  record Decided (seen : List String) (s : Decisions) : Type 0 where
    skipped_state : (x : String) → 0 < tally x s.skipped → s.state x ≡ blocked
    other_state : (x : String) → IsJob x → tally x s.skipped ≡ 0 → s.state x ≡ outcomes x
    skipped_sound :
        (x : String) → 0 < tally x s.skipped → (0 < tally x seen) × Doomed nodes outcomes x
    skipped_full : (x : String) → 0 < tally x seen → Doomed nodes outcomes x → 0 < tally x s.skipped
    ready_sound :
        (x : String) → 0 < tally x s.ready → (0 < tally x seen) × Startable nodes outcomes x
    ready_full : (x : String) → 0 < tally x seen → Startable nodes outcomes x → 0 < tally x s.ready

  Doomed-waiting : {x : String} → Doomed nodes outcomes x → outcomes x ≡ waiting
  Doomed-waiting (direct w m b) = w
  Doomed-waiting (through w m d) = w

  Doomed-Startable : {x : String} → Doomed nodes outcomes x → Startable nodes outcomes x → ⊥
  Doomed-Startable (direct {x} {d} w m b) s = cc (b, s.1 d m)
  Doomed-Startable (through {x} {d} w m b) s = cc (Doomed-waiting b, s.1 d m)

  -- The job is decided when all that it needs are.
  module _ (seen : List String) (s : Decisions) (v : Decided seen s) (id : String)
      (fresh : tally id seen ≡ 0) (id_known : IsJob id)
      (before : (d : String) → 0 < tally d (needs_of nodes id) → (0 < tally d seen) × IsJob d) where
    abbrev needs : List String
    needs = needs_of nodes id

    -- A blocked need is why the job is doomed.
    blocked-Doomed :
        (d : String)
        → outcomes id ≡ waiting
        → 0 < tally d needs
        → s.state d ≡ blocked
        → Doomed nodes outcomes id
    blocked-Doomed d w m b = elim (Bool-cases (ltb 0 (tally d s.skipped))) [
      | inl yes_skipped ↦ through w m (v.skipped_sound d (ground (arith, yes_skipped))).1
      | inr not_skipped ↦
          direct w m (cc (b, v.other_state d (before d m).1 (ground (arith, not_skipped))))
    ]

    Doomed-blocked :
        Doomed nodes outcomes id → (d : String) × (0 < tally d needs) × (s.state d ≡ blocked)
    Doomed-blocked (direct {d = d} w m b) = (
      d,
      m,
      elim (Bool-cases (ltb 0 (tally d s.skipped))) [
        | inl yes_skipped ↦ v.skipped_state d (ground (arith, yes_skipped))
        | inr not_skipped ↦ cc (b, v.other_state d (before d m).1 (ground (arith, not_skipped)))
      ],
    )
    Doomed-blocked (through {d = d} w m b) =
        (d, m, v.skipped_state d (v.skipped_full d (before d m).0 b))

    id_undecided : (tally id s.skipped ≡ 0) × (tally id s.ready ≡ 0) × (s.state id ≡ outcomes id)
    id_undecided =
        let no_skip : tally id s.skipped ≡ 0 = elim (Bool-cases (ltb 0 (tally id s.skipped))) [
          | inl there ↦ absurd (omega (arith, (v.skipped_sound id (ground (arith, there))).0))
          | inr gone ↦ ground (arith, gone)
        ] in
        let no_ready : tally id s.ready ≡ 0 = elim (Bool-cases (ltb 0 (tally id s.ready))) [
          | inl there ↦ absurd (omega (arith, (v.ready_sound id (ground (arith, there))).0))
          | inr gone ↦ ground (arith, gone)
        ] in
        (no_skip, no_ready, v.other_state id id_known no_skip)

    module _ (s' : Decisions) (b c : Bool) (doomed : (b ≡ true) ↔ Doomed nodes outcomes id)
        (startable : (c ≡ true) ↔ Startable nodes outcomes id)
        (skips : (x : String)
          → tally x s'.skipped ≡ (if id == x && b then 1 else 0) + tally x s.skipped)
        (readies : (x : String)
          → tally x s'.ready ≡ (if id == x && c then 1 else 0) + tally x s.ready)
        (states : (x : String) → s'.state x ≡ (if id == x && b then blocked else s.state x)) where
      -- A decision on `id` that agrees with what it is.
      extend : Decided (id ∷ seen) s'
      extend = record {
        skipped_state = λ x m. elim (Bool-cases (id == x && b)) [
          | inl e ↦ rw (states x, e)
          | inr e ↦ rw (states x, e) (v.skipped_state x (ground (arith, skips x, e)))
        ];
        other_state = λ x k z. elim (Bool-cases (id == x && b)) [
          | inl e ↦ absurd (ground (arith, skips x, e))
          | inr e ↦ rw (states x, e) (v.other_state x k (ground (arith, skips x, e)))
        ];
        skipped_sound = λ x m. elim (==_cases id x) [
          | inl (same, e) ↦
              let chosen : b ≡ true =
                ground
                  (arith, skips x, same, subst (λ y. tally y s.skipped ≡ 0) e id_undecided.0) in
              (ground (arith, same), subst (Doomed nodes outcomes) e (doomed.0 chosen))
          | inr (other, ne) ↦
              let (old, why) = v.skipped_sound x (ground (arith, skips x, other)) in
              (omega arith, why)
        ];
        skipped_full = λ x m d. elim (==_cases id x) [
          | inl (same, e) ↦
              let chosen = doomed.1 (subst (Doomed nodes outcomes) (sym e) d) in
              ground (arith, skips x, same, chosen)
          | inr (other, ne) ↦ omega (arith, skips x, v.skipped_full x (ground (arith, other)) d)
        ];
        ready_sound = λ x m. elim (==_cases id x) [
          | inl (same, e) ↦
              let chosen : c ≡ true =
                ground
                  (arith, readies x, same, subst (λ y. tally y s.ready ≡ 0) e id_undecided.1) in
              (ground (arith, same), subst (Startable nodes outcomes) e (startable.0 chosen))
          | inr (other, ne) ↦
              let (old, why) = v.ready_sound x (ground (arith, readies x, other)) in
              (omega arith, why)
        ];
        ready_full = λ x m d. elim (==_cases id x) [
          | inl (same, e) ↦
              let chosen = startable.1 (subst (Startable nodes outcomes) (sym e) d) in
              ground (arith, readies x, same, chosen)
          | inr (other, ne) ↦ omega (arith, readies x, v.ready_full x (ground (arith, other)) d)
        ];
      }

    need_state : (d : String) → 0 < tally d needs → outcomes d ≡ succeeded → s.state d ≡ succeeded
    need_state d m e = elim (Bool-cases (ltb 0 (tally d s.skipped))) [
      | inl there ↦ absurd (cc (e, Doomed-waiting (v.skipped_sound d (ground (arith, there))).1))
      | inr gone ↦ v.other_state d (before d m).1 (ground (arith, gone)) ∙ e
    ]

    state_need : (d : String) → 0 < tally d needs → s.state d ≡ succeeded → outcomes d ≡ succeeded
    state_need d m e = elim (Bool-cases (ltb 0 (tally d s.skipped))) [
      | inl there ↦ absurd (cc (e, v.skipped_state d (ground (arith, there))))
      | inr gone ↦ sym (v.other_state d (before d m).1 (ground (arith, gone))) ∙ e
    ]

    Doomed-any : Doomed nodes outcomes id → any (λ d. is_blocked (s.state d)) needs ≡ true
    Doomed-any doom =
        let (d, m, e) = Doomed-blocked doom in
        tally-any (λ x. is_blocked (s.state x)) needs d m ((is_blocked_iff (s.state d)).1 e)

    Startable-all : Startable nodes outcomes id → all (λ d. is_settled (s.state d)) needs ≡ true
    Startable-all st =
        tally-all (λ x. is_settled (s.state x)) needs
          (λ d m. let e = need_state d m (st.1 d m) in rw e)

    unblocked :
        (d : String)
        → 0 < tally d needs
        → any (λ x. is_blocked (s.state x)) needs ≡ false
        → is_blocked (s.state d) ≡ false
    unblocked d m go = elim (Bool-cases (is_blocked (s.state d))) [
      | inl bad ↦ absurd (cc (go, tally-any (λ x. is_blocked (s.state x)) needs d m bad))
      | inr good ↦ good
    ]

    waits : outcomes id ≡ waiting → is_waiting (s.state id) ≡ true
    waits e = (is_waiting_iff (s.state id)).1 (id_undecided.2 ∙ e)

    Decided-decide_job : Decided (id ∷ seen) (decide_job nodes id s)
    Decided-decide_job =
        rw (decide_job_lem nodes id s) (elim (Bool-cases (is_waiting (s.state id))) [
          | inr running ↦ rw running (
              extend s false false ((λ h. cc), λ d. cc (running, waits (Doomed-waiting d)))
                ((λ h. cc), λ st. cc (running, waits st.0)) (λ x. ground arith) (λ x. ground arith)
                (λ x. ground arith))
          | inl idle ↦
              let free : outcomes id ≡ waiting =
                sym id_undecided.2 ∙ (is_waiting_iff (s.state id)).0 idle in
              elim (Bool-cases (any (λ d. is_blocked (s.state d)) needs)) [
                | inl stop ↦
                    let (d, m, e) = any-tally (λ x. is_blocked (s.state x)) needs stop in
                    let doom = blocked-Doomed d free m ((is_blocked_iff (s.state d)).0 e) in
                    rw (idle, stop)
                      (extend
                        (record s {
                          state = λ x. if x == id then blocked else s.state x;
                          skipped = id ∷ s.skipped;
                        })
                        true false ((λ h. doom), λ h. refl)
                        ((λ h. cc), λ st. absurd (Doomed-Startable doom st)) (λ x. ground arith)
                        (λ x. ground arith)
                        (λ x. ground (arith, string_eq.equals_iff x id, string_eq.equals_iff id x)))
                | inr go ↦ elim (Bool-cases (all (λ d. is_settled (s.state d)) needs)) [
                  | inl full ↦
                      rw (idle, go, full)
                        (extend (record s { ready = id ∷ s.ready }) false true
                          ((λ h. cc), λ d. cc (go, Doomed-any d))
                          (
                            (λ h. (
                              free,
                              λ d m. state_need d m (
                                  settled_free (s.state d)
                                    (all-tally (λ x. is_settled (s.state x)) needs d full m)
                                    (unblocked d m go)),
                            )),
                            λ st. refl,
                          )
                          (λ x. ground arith) (λ x. ground arith) (λ x. ground arith))
                  | inr short ↦
                      rw (idle, go, short)
                        (extend s false false ((λ h. cc), λ d. cc (go, Doomed-any d))
                          ((λ h. cc), λ st. cc (short, Startable-all st)) (λ x. ground arith)
                          (λ x. ground arith) (λ x. ground arith))
                ]
              ]
        ])

  Decided-decide_jobs :
      (order seen : List String) (s : Decisions)
      → Decided seen s
      → InOrder nodes seen order
      → ((x : String) → tally x seen + tally x order ≤ 1)
      → ((x : String) → 0 < tally x seen + tally x order → IsJob x)
      → (all_seen : List String) × Decided all_seen (decide_jobs nodes order s)
        × ((x : String) → tally x all_seen ≡ tally x seen + tally x order)
  unfolding decide_jobs
  Decided-decide_jobs [] seen s v h one within = (seen, v, λ x. omega arith)
  Decided-decide_jobs (id ∷ order) seen s v h one within =
      let fresh : tally id seen ≡ 0 = ground (arith, one id, ==_refl id) in
      let step =
        Decided-decide_job seen s v id fresh (within id (ground (arith, ==_refl id)))
          (λ d m. (h.0 d m, within d (omega (arith, h.0 d m)))) in
      let (all_seen, w, counts) =
        Decided-decide_jobs order (id ∷ seen) (decide_job nodes id s) step h.1
          (λ x. omega (arith, one x)) (λ x m. within x (omega arith)) in
      (all_seen, w, λ x. omega (arith, counts x))

tally-select :
    (ns : List Node) (chosen : List String) (x : String)
    → (0 < tally x (select ns chosen)) ↔ ((0 < tally x (ids ns)) × (0 < tally x chosen))
unfolding select
tally-select [] chosen x = (λ h. absurd (omega arith), λ h. absurd (omega arith))
tally-select (n ∷ ns) chosen x = elim (==_cases n.id x) [
  | inl (same, e) ↦
      let there = holds_key-tally x chosen in
      let key : holds_key n.id chosen ≡ holds_key x chosen = ap (λ y. holds_key y chosen) e in
      ground (arith, same, there, key, tally-select ns chosen x)
  | inr (other, ne) ↦ ground (arith, other, tally-select ns chosen x)
]

Decided-undecided :
    (nodes : List Node) (outcomes : String → Outcome)
    → Decided nodes outcomes [] (undecided nodes outcomes)
unfolding undecided
Decided-undecided nodes outcomes = record {
  skipped_state = λ x m. absurd (omega arith);
  other_state = λ x k z. ground (arith, holds_key-tally x (ids nodes));
  skipped_sound = λ x m. absurd (omega arith);
  skipped_full = λ x m d. absurd (omega arith);
  ready_sound = λ x m. absurd (omega arith);
  ready_full = λ x m d. absurd (omega arith);
}

advance_ok :
    (nodes : List Node) (outcomes : String → Outcome) (order : List String)
    → plan nodes ≡ ok order
    → advance nodes outcomes ≡ (
      select nodes (decide_jobs nodes order (undecided nodes outcomes)).ready,
      select nodes (decide_jobs nodes order (undecided nodes outcomes)).skipped,
    )
unfolding advance
advance_ok nodes outcomes order h = rw (h, advance)

-- For a graph that can be planned, `Advance` makes ready exactly the waiting jobs whose needs have
-- all succeeded, and skips exactly the waiting jobs that need a blocked job, or need one that is
-- itself to be skipped, through any number of steps.
pub advance_iff :
    (nodes : List Node) (outcomes : String → Outcome) (order : List String)
    → plan nodes ≡ ok order
    → (x : String)
    → ((0 < tally x (advance nodes outcomes).0)
        ↔ ((0 < tally x (ids nodes)) × Startable nodes outcomes x))
      × ((0 < tally x (advance nodes outcomes).1)
          ↔ ((0 < tally x (ids nodes)) × Doomed nodes outcomes x))
advance_iff nodes outcomes order h x =
    let (counts, sorted) = plan-InOrder nodes order h in
    let (good, _) = (plan_ok_iff nodes).0 (order, h) in
    let (all_seen, v, seen_counts) =
      Decided-decide_jobs nodes outcomes order [] (undecided nodes outcomes)
        (Decided-undecided nodes outcomes) sorted (λ y. omega (arith, counts y, good.0 y))
        (λ y m. omega (arith, counts y)) in
    let s = decide_jobs nodes order (undecided nodes outcomes) in
    let chosen = tally-select nodes s.ready x in
    let dropped = tally-select nodes s.skipped x in
    rw (advance_ok nodes outcomes order h) (
      (
        λ m. let (k, r) = chosen.0 m in (k, (v.ready_sound x r).1),
        λ (k, st). chosen.1 (k, v.ready_full x (omega (arith, seen_counts x, counts x)) st),
      ),
      (
        λ m. let (k, r) = dropped.0 m in (k, (v.skipped_sound x r).1),
        λ (k, d). dropped.1 (k, v.skipped_full x (omega (arith, seen_counts x, counts x)) d),
      ),
    )
