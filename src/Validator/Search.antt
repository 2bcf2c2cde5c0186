-- ===== src/Validator/Search.antt =====
-- The breadth-first search ends, and visits exactly the nodes that a path leads to.
use attractor.Prelude.{
  ◌≡◌, refl, sym, subst, ap, true, List, [], ◌∷◌, ◌++◌, ◌==◌, ==_iff, any-In, any→In, Bool-cases,
  inl, inr, ◌⊎◌, In,
}
use attractor.Types.{NodeId}
use attractor.Graph.{Edge}
use attractor.Validator.Reachable.{contains, targets, Search, visit, visit_all}

-- A path of edges.
pub data Reach (edges : List Edge) (start : NodeId) : NodeId → Type 0 where
  here : Reach edges start start
  along :
      {id : NodeId} (e : Edge)
      → Reach edges start id
      → In e edges
      → e.source ≡ id
      → Reach edges start e.to

pub contains→In : (ids : List NodeId) (id : NodeId) → contains ids id ≡ true → In id ids
unfolding contains
contains→In ids id h =
    let r = any→In (λ x. x == id) ids h in subst (λ x. In x ids) ((==_iff r.0 id).0 r.2) r.1

pub In→contains : (ids : List NodeId) (id : NodeId) → In id ids → contains ids id ≡ true
unfolding contains
In→contains ids id h = any-In (λ x. x == id) ids id h ((==_iff id id).1 refl)

In-append-left : {A : Type 0} (a : A) (xs ys : List A) → In a xs → In a (xs ++ ys)
In-append-left a [] ys h = elim h [ ]
In-append-left a (x ∷ xs) ys (inl e) = inl e
In-append-left a (x ∷ xs) ys (inr h) = inr (In-append-left a xs ys h)

In-append-right : {A : Type 0} (a : A) (xs ys : List A) → In a ys → In a (xs ++ ys)
In-append-right a [] ys h = h
In-append-right a (x ∷ xs) ys h = inr (In-append-right a xs ys h)

In-append : {A : Type 0} (a : A) (xs ys : List A) → In a (xs ++ ys) → In a xs ⊎ In a ys
In-append a [] ys h = inr h
In-append a (x ∷ xs) ys (inl e) = inl (inl e)
In-append a (x ∷ xs) ys (inr h) = elim (In-append a xs ys h) [ inl q ↦ inl (inr q) | inr q ↦ inr q ]

-- What visiting the ids of a list does to the search.
pub record IsVisited (s : Search) (ids : List NodeId) (t : Search) : Type 0 where
  pub keeps : (id : NodeId) → In id s.visited → In id t.visited
  pub waits : (id : NodeId) → In id s.queue → In id t.queue
  pub covers : (id : NodeId) → In id ids → In id t.visited
  pub fresh : (id : NodeId) → In id t.visited → In id s.visited ⊎ (In id t.queue × In id ids)
  pub queued : (id : NodeId) → In id t.queue → In id s.queue ⊎ In id t.visited

visit-IsVisited : (s : Search) (n : NodeId) → IsVisited s (n ∷ []) (visit s n)
unfolding visit
visit-IsVisited s n = elim (Bool-cases (contains s.visited n)) [
  | inl e ↦
      rw (e, visit)
        (record {
          keeps = λ id h. h;
          waits = λ id h. h;
          covers = λ id h. only id (contains→In s.visited n e) h;
          fresh = λ id h. inl h;
          queued = λ id h. inl h;
        })
  | inr e ↦
      rw (e, visit)
        (record {
          keeps = λ id h. inr h;
          waits = λ id h. In-append-left id s.queue (n ∷ []) h;
          covers = λ id h. elim h [ inl q ↦ inl q | inr q ↦ absurd q ];
          fresh = λ id h. elim h [
            | inl q ↦ inr (In-append-right id s.queue (n ∷ []) (inl q), inl q)
            | inr q ↦ inl q
          ];
          queued = λ id h. elim (In-append id s.queue (n ∷ []) h) [
            | inl q ↦ inl q
            | inr q ↦ inr (elim q [ inl p ↦ inl p | inr p ↦ absurd p ])
          ];
        })
]
  where
    only : (id : NodeId) → In n s.visited → In id (n ∷ []) → In id s.visited
    only id i (inl q) = subst (λ x. In x s.visited) (sym q) i
    only id i (inr q) = absurd q

pub visit_all-IsVisited : (s : Search) (ids : List NodeId) → IsVisited s ids (visit_all s ids)
unfolding visit_all
visit_all-IsVisited s [] = record {
  keeps = λ id h. h;
  waits = λ id h. h;
  covers = λ id h. absurd h;
  fresh = λ id h. inl h;
  queued = λ id h. inl h;
}
visit_all-IsVisited s (n ∷ ids) = joined (visit-IsVisited s n) (visit_all-IsVisited (visit s n) ids)
  where
    joined :
        IsVisited s (n ∷ []) (visit s n)
        → IsVisited (visit s n) ids (visit_all (visit s n) ids)
        → IsVisited s (n ∷ ids) (visit_all (visit s n) ids)
    joined a b = record {
      keeps = λ id h. b.keeps id (a.keeps id h);
      waits = λ id h. b.waits id (a.waits id h);
      covers = λ id h. elim h [ inl q ↦ b.keeps id (a.covers id (inl q)) | inr q ↦ b.covers id q ];
      fresh = λ id h. elim (b.fresh id h) [
        | inr q ↦ inr (q.0, inr q.1)
        | inl q ↦ elim (a.fresh id q) [
          | inl p ↦ inl p
          | inr p ↦ inr (b.waits id p.0, elim p.1 [ inl x ↦ inl x | inr x ↦ absurd x ])
        ]
      ];
      queued = λ id h. elim (b.queued id h) [
        | inr q ↦ inr q
        | inl q ↦ elim (a.queued id q) [ inl p ↦ inl p | inr p ↦ inr (b.keeps id p) ]
      ];
    }

pub In-targets :
    (es : List Edge) (cur id : NodeId)
    → In id (targets es cur)
    → (e : Edge) × In e es × (e.source ≡ cur) × (e.to ≡ id)
unfolding targets
In-targets [] cur id h = absurd h
In-targets (e ∷ es) cur id h = elim (Bool-cases (e.source == cur)) [
  | inl q ↦ split q (rw q at h) (In-targets es cur id)
  | inr q ↦ let r = In-targets es cur id (rw q at h) in (r.0, inr r.1, r.2, r.3)
]
  where
    split :
        (e.source == cur) ≡ true
        → In id (e.to ∷ targets es cur)
        → (In id (targets es cur) → (d : Edge) × In d es × (d.source ≡ cur) × (d.to ≡ id))
        → (d : Edge) × In d (e ∷ es) × (d.source ≡ cur) × (d.to ≡ id)
    split q (inl p) k = (e, inl refl, (==_iff e.source cur).0 q, sym p)
    split q (inr p) k = let r = k p in (r.0, inr r.1, r.2, r.3)

pub targets-In :
    (es : List Edge) (cur : NodeId) (e : Edge) → In e es → e.source ≡ cur → In e.to (targets es cur)
unfolding targets
targets-In [] cur e i h = absurd i
targets-In (d ∷ es) cur e (inl q) h =
    let p : (d.source == cur) ≡ true = (==_iff d.source cur).1 (subst (λ x. x.source ≡ cur) q h) in
    rw p (inl (ap (λ x. x.to) q))
targets-In (d ∷ es) cur e (inr i) h = elim (Bool-cases (d.source == cur)) [
  | inl q ↦ rw q (inr (targets-In es cur e i h))
  | inr q ↦ rw q (targets-In es cur e i h)
]
