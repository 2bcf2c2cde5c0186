-- ===== src/Handlers/BestBranch.antt =====
-- The fan-in handler takes a branch of the best rank.
use attractor.Prelude.{
  ◌≤◌, ◌≡◌, refl, ◌∙◌, ap, Bool, true, false, Option, none, List, [], ◌∷◌, Text, text, Bool-cases,
  inl, inr, In, All, All-map, sort, insert_sorted, first, first-sort-In, ok, arith,
}
use attractor.Json.{Double, Json, array, Items, cons}
use attractor.Graph.{FanInNode}
use attractor.Handler.{Outcome}
use attractor.Context.{Context, get}
use attractor.Handlers.FanIn.{
  outcome_rank, Candidate, candidates, better, best_sorted, choose, conclude, conclusion, answer,
  join_candidates, fan_in, execute_fan_in,
}

-- No candidate has a better status.
abbrev pub IsBest : Candidate → List Candidate → Type 0
IsBest best cs = All (λ a. outcome_rank best.status ≤ outcome_rank a.status) cs

module _ (apart above : Double → Double → Bool) where
  better-le :
      (a b : Candidate)
      → better apart above a b ≡ true
      → outcome_rank a.status ≤ outcome_rank b.status
  unfolding better
  better-le a b h = ground arith

  worse-le :
      (a b : Candidate)
      → better apart above a b ≡ false
      → outcome_rank b.status ≤ outcome_rank a.status
  unfolding better
  worse-le a b h = ground arith

  -- What stands first after an insertion.
  insert_sorted-IsBest :
      (x b : Candidate) (t cs : List Candidate)
      → IsBest b cs
      → (a : Candidate) × (t' : List Candidate) × (insert_sorted (better apart above) x (b ∷ t)
          ≡ a ∷ t')
        × IsBest a (x ∷ cs)
  unfolding insert_sorted
  insert_sorted-IsBest x b t cs h = elim (Bool-cases (better apart above b x)) [
    | inl e ↦ (b, insert_sorted (better apart above) x t, rw e refl, (better-le b x e, h))
    | inr e ↦ (
      x,
      b ∷ t,
      rw e refl,
      (omega arith, All-map (λ a k. let l = worse-le b x e in omega arith) cs h),
    )
  ]

  sort-IsBest :
      (x : Candidate) (xs : List Candidate)
      → (a : Candidate) × (t : List Candidate) × (sort (better apart above) (x ∷ xs) ≡ a ∷ t)
        × IsBest a (x ∷ xs)
  unfolding sort insert_sorted
  sort-IsBest x [] = (x, [], refl, (omega arith, tt))
  sort-IsBest x (y ∷ ys) =
      let r = sort-IsBest y ys in
      let s = insert_sorted-IsBest x r.0 r.1 (y ∷ ys) r.3 in
      (s.0, s.1, ap (insert_sorted (better apart above) x) r.2 ∙ s.2, s.3)

module _ (to_double : Json → Double) (apart above : Double → Double → Bool)
    (backend : Option (Text → Option Text)) where
  join_candidates-sorted :
      (node : FanInNode) (cs : List Candidate) (diagnostics : Text) (best : Candidate)
      (t : List Candidate)
      → answer backend node.prompt ≡ none
      → sort (better apart above) cs ≡ best ∷ t
      → join_candidates to_double apart above backend node (cs, diagnostics)
        ≡ conclude diagnostics (best, false)
  unfolding join_candidates conclusion choose best_sorted
  join_candidates-sorted node cs diagnostics best t h e =
      ap (λ o. conclusion diagnostics (choose apart above o cs)) h
      ∙ ap (λ xs. conclusion diagnostics (best_sorted apart above xs)) e

  -- Where the entries of `parallel.results` are read and the backend is not asked or does not
  -- answer, the fan-in handler ends with the outcome for a candidate that is one of the entries'
  -- and whose status no candidate's beats: success, then partial success, retry, fail, skipped.
  pub execute_fan_in-IsBest :
      (node : FanInNode) (ctx : Context) (entry : Json) (entries : Items) (c : Candidate)
      (cs : List Candidate) (diagnostics : Text)
      → get (text "parallel.results") ctx ≡ array (cons entry entries)
      → candidates to_double (cons entry entries) ≡ ok (c ∷ cs, diagnostics)
      → answer backend node.prompt ≡ none
      → (best : Candidate) × In best (c ∷ cs)
        × IsBest best (c ∷ cs)
        × (execute_fan_in to_double apart above backend node ctx
            ≡ ok (conclude diagnostics (best, false)))
  unfolding execute_fan_in fan_in
  execute_fan_in-IsBest node ctx entry entries c cs diagnostics h k l =
      let r = sort-IsBest apart above c cs in
      (
        r.0,
        first-sort-In (better apart above) (c ∷ cs) r.0 (ap first r.2),
        r.3,
        rw (h, k)
            (ap (λ (o : Outcome). ok o)
              (join_candidates-sorted node (c ∷ cs) diagnostics r.0 r.1 l r.2)),
      )
