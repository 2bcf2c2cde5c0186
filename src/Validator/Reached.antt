-- ===== src/Validator/Reached.antt =====
-- The loop of `reachable_ids`: its end, and what it has visited then.
use attractor.Prelude.{
  ℕ, zero, suc, ◌+◌, ◌≤◌, ◌<◌, ◌≡◌, refl, sym, subst, true, false, some, List, [], ◌∷◌, ◌==◌,
  ==_iff, length, length-append, any, ◌∙◌, Bool-cases, inl, inr, ◌⊎◌, ◌↔◌, In, arith, if◌then◌else◌,
}
use attractor.Types.{NodeId}
use attractor.Graph.{Graph, Edge}
use attractor.Validator.Reachable.{
  contains, targets, Search, visit, visit_all, search_loop, search_fuel, reachable_ids,
}
use attractor.Validator.Search.{
  Reach, here, along, IsVisited, visit_all-IsVisited, In-targets, targets-In,
}

-- The edges whose target has not been visited.
unseen : List Edge → List NodeId → ℕ
unseen [] visited = 0
unseen (e ∷ es) visited = (if contains visited e.to then 0 else 1) + unseen es visited

contains-cons :
    (n : NodeId) (ids : List NodeId) (id : NodeId)
    → contains (n ∷ ids) id ≡ (if n == id then true else contains ids id)
unfolding contains any
contains-cons n ids id = refl

unseen_mono : (es : List Edge) (n : NodeId) (v : List NodeId) → unseen es (n ∷ v) ≤ unseen es v
unfolding unseen
unseen_mono [] n v = omega arith
unseen_mono (e ∷ es) n v = ground (arith, unseen_mono es n v, contains-cons n v e.to)

unseen_drop :
    (es : List Edge) (n : NodeId) (v : List NodeId) (e : Edge)
    → In e es
    → e.to ≡ n
    → contains v n ≡ false
    → unseen es (n ∷ v) < unseen es v
unfolding unseen
unseen_drop [] n v e i t h = absurd i
unseen_drop (d ∷ es) n v e (inl q) t h =
    let p : d.to ≡ n = subst (λ x. x.to ≡ n) q t in
    let b : (n == d.to) ≡ true = (==_iff n d.to).1 (sym p) in
    let c : contains v d.to ≡ false = subst (λ x. contains v x ≡ false) (sym p) h in
    ground (arith, unseen_mono es n v, contains-cons n v d.to)
unseen_drop (d ∷ es) n v e (inr i) t h =
    ground (arith, unseen_drop es n v e i t h, contains-cons n v d.to)

module _ (edges : List Edge) where
  visit_measure :
      (s : Search) (n : NodeId) (e : Edge)
      → In e edges
      → e.to ≡ n
      → length (visit s n).queue + unseen edges (visit s n).visited
        ≤ length s.queue + unseen edges s.visited
  unfolding visit
  visit_measure s n e i t = elim (Bool-cases (contains s.visited n)) [
    | inl c ↦ rw (c, visit) (omega arith)
    | inr c ↦
        rw (c, visit)
          (omega (arith, unseen_drop edges n s.visited e i t c, length-append s.queue (n ∷ [])))
  ]

  visit_all_measure :
      (s : Search) (ids : List NodeId)
      → ((id : NodeId) → In id ids → (e : Edge) × In e edges × (e.to ≡ id))
      → length (visit_all s ids).queue + unseen edges (visit_all s ids).visited
        ≤ length s.queue + unseen edges s.visited
  unfolding visit_all
  visit_all_measure s [] h = omega arith
  visit_all_measure s (n ∷ ids) h =
      let r = h n (inl refl) in
      omega (
        arith,
        visit_measure s n r.0 r.1 r.2,
        visit_all_measure (visit s n) ids (λ id i. h id (inr i)),
      )

  unseen-le : (es : List Edge) (v : List NodeId) → unseen es v ≤ length es
  unfolding unseen
  unseen-le [] v = omega arith
  unseen-le (e ∷ es) v = ground (arith, unseen-le es v)

  loop-ends :
      (fuel : ℕ) (queue visited : List NodeId)
      → length queue + unseen edges visited ≤ fuel
      → (v : List NodeId) × (search_loop edges fuel queue visited ≡ some v)
  unfolding search_loop
  loop-ends fuel [] visited h = (visited, refl)
  loop-ends zero (cur ∷ queue) visited h = absurd (omega arith)
  loop-ends (suc fuel) (cur ∷ queue) visited h =
      let s = visit_all (record { queue = queue; visited = visited }) (targets edges cur) in
      let m =
        visit_all_measure (record { queue = queue; visited = visited }) (targets edges cur)
          (λ id i. let r = In-targets edges cur id i in (r.0, r.1, r.3)) in
      loop-ends fuel s.queue s.visited (omega (arith, m))

  module _ (start : NodeId) where
    record IsSearch (queue visited : List NodeId) : Type 0 where
      sound : (id : NodeId) → In id visited → Reach edges start id
      queued : (id : NodeId) → In id queue → In id visited
      closed :
          (id : NodeId)
          → In id visited
          → In id queue ⊎ ((e : Edge) → In e edges → e.source ≡ id → In e.to visited)

    round-IsSearch :
        (cur : NodeId) (queue visited : List NodeId) (t : Search)
        → IsSearch (cur ∷ queue) visited
        → IsVisited (record { queue = queue; visited = visited }) (targets edges cur) t
        → IsSearch t.queue t.visited
    round-IsSearch cur queue visited t h v = record {
      sound = λ id i. elim (v.fresh id i) [
        | inl p ↦ h.sound id p
        | inr p ↦
            let r = In-targets edges cur id p.1 in
            subst (Reach edges start) r.3
              (along r.0 (h.sound cur (h.queued cur (inl refl))) r.1 r.2)
      ];
      queued =
          λ id i. elim (v.queued id i) [ inl p ↦ v.keeps id (h.queued id (inr p)) | inr p ↦ p ];
      closed = λ id i. elim (v.fresh id i) [
        | inr p ↦ inl p.0
        | inl p ↦ elim (h.closed id p) [
          | inr c ↦ inr (λ e m q. v.keeps e.to (c e m q))
          | inl w ↦ elim w [
            | inr q ↦ inl (v.waits id q)
            | inl q ↦ inr (λ e m l. v.covers e.to (targets-In edges cur e m (l ∙ q)))
          ]
        ]
      ];
    }

    loop-IsSearch :
        (fuel : ℕ) (queue visited v : List NodeId)
        → IsSearch queue visited
        → search_loop edges fuel queue visited ≡ some v
        → IsSearch [] v × ((id : NodeId) → In id visited → In id v)
    unfolding search_loop
    loop-IsSearch fuel [] visited v h q =
        let e : visited ≡ v = ground arith in (subst (IsSearch []) e h, λ id i. subst (In id) e i)
    loop-IsSearch zero (cur ∷ queue) visited v h q = absurd (cc)
    loop-IsSearch (suc fuel) (cur ∷ queue) visited v h q =
        let s : Search = record { queue = queue; visited = visited } in
        let w = visit_all-IsVisited s (targets edges cur) in
        let t = visit_all s (targets edges cur) in
        let r = loop-IsSearch fuel t.queue t.visited v (round-IsSearch cur queue visited t h w) q in
        (r.0, λ id i. r.1 id (w.keeps id i))

    closed-Reach :
        (v : List NodeId)
        → IsSearch [] v
        → In start v
        → (id : NodeId) → Reach edges start id
        → In id v
    closed-Reach v h s id here = s
    closed-Reach v h s id (along {id = u} e r m l) = elim (h.closed u (closed-Reach v h s u r)) [
      | inl q ↦ absurd q
      | inr c ↦ c e m l
    ]

    start-IsSearch : IsSearch (start ∷ []) (start ∷ [])
    start-IsSearch = record {
      sound = λ id i. elim i [ inl q ↦ subst (Reach edges start) (sym q) here | inr q ↦ absurd q ];
      queued = λ id i. i;
      closed = λ id i. inl i;
    }

-- `reachable_ids` ends for every graph and start, and its result holds an id exactly when a path
-- of edges leads there from the start.
pub reachable_ids-Reach :
    (g : Graph) (start : NodeId)
    → (v : List NodeId) × (reachable_ids g start ≡ some v)
      × ((id : NodeId) → (In id v ↔ Reach g.edges start id))
unfolding reachable_ids search_fuel
reachable_ids-Reach g start =
    let ids = start ∷ [] in
    let ended =
      loop-ends g.edges (length g.edges + 1) ids ids
        (omega (arith, unseen-le g.edges g.edges ids)) in
    let s =
      loop-IsSearch g.edges start (length g.edges + 1) ids ids ended.0
        (start-IsSearch g.edges start) ended.1 in
    let found = closed-Reach g.edges start ended.0 s.0 (s.1 start (inl refl)) in
    (ended.0, ended.1, λ id. ((λ i. s.0.sound id i), found id))
