-- ===== src/Handlers/Joins.antt =====
-- What the outcome of a parallel node says of its branches.
use attractor.Prelude.{
  ℕ, ◌≡◌, ◌≢◌, ◌↔◌, refl, sym, subst, Bool, true, false, List, [], ◌∷◌, Text, In, select-In, any,
  any-In, any→In, select, length, Bool-cases, inl, inr, arith, Result, ok, err,
}
use attractor.Json.{Double, Json, Items, nil, cons}
use attractor.Types.{
  NodeId, StageStatus, success, partial_success, fail, retry, skipped, same_status,
}
use attractor.Handler.{Outcome}
use attractor.Handlers.Parallel.{
  branch_entry, zero_score, add_scored, first_outcome, Score, finite_score, bad_score, no_score,
  branch_score, collect_all, collect_first, is_failed, is_partial, is_success, count_outcome,
  join_all, join_first,
}

success-is_success : (s : StageStatus) → same_status s success ≡ true → s ≡ success
unfolding same_status
success-is_success success h = refl
success-is_success partial_success h = absurd (cc)
success-is_success fail h = absurd (cc)
success-is_success retry h = absurd (cc)
success-is_success skipped h = absurd (cc)

status-same : (s t : StageStatus) → s ≡ t → same_status t t ≡ true → same_status s t ≡ true
status-same s t e h = subst (λ x. same_status x t ≡ true) (sym e) h

not-In-empty :
    {A : Type 0} (p : A → Bool) (xs : List A) (a : A)
    → length (select p xs) ≡ 0
    → In a xs
    → p a ≡ true
    → ⊥
not-In-empty {A = A} p xs a z i h = empty (select p xs) z (select-In p xs a i h)
  where
    empty : (ys : List A) → length ys ≡ 0 → In a ys → ⊥
    empty [] q m = m
    empty (y ∷ ys) q m = absurd (omega arith)

module _ (to_double : Json → Double) where
  count_outcome-success :
      (f p : ℕ) (xs : Items) → (count_outcome to_double f p xs).status ≡ success → (f ≡ 0) × (p ≡ 0)
  unfolding count_outcome
  count_outcome-success f p xs h = (ground arith, ground arith)

  join_all-counts :
      (branches : List (NodeId × Outcome))
      → (join_all to_double branches).status ≡ success
      → (length (select (is_failed to_double) branches) ≡ 0)
        × (length (select (is_partial to_double) branches) ≡ 0)
  unfolding join_all
  join_all-counts branches h = by_result (collect_all to_double branches) refl
    where
      by_result :
          (r : Result Text Items)
          → collect_all to_double branches ≡ r
          → (length (select (is_failed to_double) branches) ≡ 0)
            × (length (select (is_partial to_double) branches) ≡ 0)
      by_result (err e) q = absurd (cc (rw (q, join_all) at h))
      by_result (ok xs) q = count_outcome-success _ _ xs (rw (q, join_all) at h)

  -- Under wait_all a parallel node succeeds only if no branch has failed and none has succeeded in
  -- part.
  pub join_all-success :
      (branches : List (NodeId × Outcome)) (b : NodeId × Outcome)
      → (join_all to_double branches).status ≡ success
      → In b branches
      → (b.1.status ≢ fail) × (b.1.status ≢ partial_success)
  unfolding is_failed is_partial same_status
  join_all-success branches b h i =
      let c = join_all-counts branches h in
      (
        λ e.
            not-In-empty (is_failed to_double) branches b c.0 i
              (status-same b.1.status fail e refl),
        λ e.
            not-In-empty (is_partial to_double) branches b c.1 i
              (status-same b.1.status partial_success e refl),
      )

  add_scored-ok :
      (id : NodeId) (r : Outcome) (score : Score) (xs : Items)
      → (ys : Items) × (add_scored to_double true id r score (ok xs) ≡ ok ys)
  unfolding add_scored
  add_scored-ok id r (finite_score j) xs = (cons (branch_entry to_double id r j) xs, refl)
  add_scored-ok id r no_score xs = (cons (branch_entry to_double id r zero_score) xs, refl)
  add_scored-ok id r bad_score xs = (cons (branch_entry to_double id r zero_score) xs, refl)

  collect_first-found :
      (branches : List (NodeId × Outcome))
      → (xs : Items) × (collect_first to_double true branches ≡ ok xs)
  unfolding collect_first
  collect_first-found [] = (nil, refl)
  collect_first-found ((id, r) ∷ branches) =
      let rest = collect_first-found branches in
      elim (Bool-cases (same_status r.status skipped)) [
        | inl e ↦ rw (e, collect_first) rest
        | inr e ↦
            rw (e, collect_first)
              (rw (rest.1) (add_scored-ok id r (branch_score to_double r) rest.0))
      ]

  first_outcome-success :
      (found : Bool) (r : Result Text Items)
      → (first_outcome to_double found r).status ≡ success
      → found ≡ true
  unfolding first_outcome
  first_outcome-success found (err e) h = absurd (cc)
  first_outcome-success true (ok xs) h = refl
  first_outcome-success false (ok xs) h = absurd (cc)

  -- Under first_success a parallel node succeeds exactly when some branch has succeeded.
  pub join_first_iff :
      (branches : List (NodeId × Outcome))
      → ((join_first to_double branches).status ≡ success)
        ↔ ((b : NodeId × Outcome) × In b branches × (b.1.status ≡ success))
  unfolding join_first is_success same_status first_outcome
  join_first_iff branches = (forward, λ w. back w.0 w.1 w.2)
    where
      forward :
          (join_first to_double branches).status ≡ success
          → (b : NodeId × Outcome) × In b branches × (b.1.status ≡ success)
      forward h =
          let found = first_outcome-success (any (is_success to_double) branches) _ h in
          let r = any→In (is_success to_double) branches found in
          (r.0, r.1, success-is_success r.0.1.status r.2)

      back :
          (b : NodeId × Outcome)
          → In b branches
          → b.1.status ≡ success
          → (join_first to_double branches).status ≡ success
      back b i e =
          let a =
            any-In (is_success to_double) branches b i (status-same b.1.status success e refl) in
          let r = collect_first-found branches in
          subst
            (λ f. (first_outcome to_double f (collect_first to_double f branches)).status ≡ success)
            (sym a) (subst (λ x. (first_outcome to_double true x).status ≡ success) (sym r.1) refl)
