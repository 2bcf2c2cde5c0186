-- ===== src/Handlers/FanIn.antt =====
-- src/handlers/fan_in_handler.cpp: the choice of the best branch from `parallel.results`. The
-- answer of the backend is a parameter, `none` if it fails, and so are the two tests on scores,
-- `apart` (|a - b| >= 1e-9) and `above` (a > b), and `get<double>()`.
use attractor.Prelude.{
  pos, ℕ, Bool, true, false, Option, none, some, List, [], ◌∷◌, ◌++◌, Text, text, ◌==◌, text_lt,
  ltb, nat_eq, find, Result, ok, err, ◌>>=◌, if◌then◌else◌, is_empty, sort,
}
use attractor.Json.{
  Double, finite, Json, str, array, object, Items, nil, cons, end, JsonError, library_error,
  get_field, set_field,
}
use attractor.Types.{StageStatus, success, partial_success, retry, fail, skipped, same_status}
use attractor.Graph.{FanInNode}
use attractor.Handler.{Outcome, default_outcome, fail_outcome}
use attractor.Context.{Context, get}
use attractor.Names.{stage_status_from_json}
use attractor.Handlers.Parallel.{is_number}

unfoldable pub outcome_rank : StageStatus → ℕ
outcome_rank success = 0
outcome_rank partial_success = 1
outcome_rank retry = 2
outcome_rank fail = 3
outcome_rank skipped = 4

pub record Candidate : Type 0 where
  pub id : Text
  pub status : StageStatus
  pub score : Double
  pub entry : Json

-- `get<std::string>()`.
unfoldable pub plain_string : Option Json → Result JsonError Text
plain_string none = ok []
plain_string (some (str s)) = ok s
plain_string (some j) = err library_error

-- `entry.value("id", "")`.
unfoldable pub entry_id : Json → Result JsonError Text
unfolding plain_string
entry_id (object fs) = plain_string (get_field (text "id") fs)
entry_id j = err library_error

-- The member of an entry, which is an object where this is called.
unfoldable pub entry_member : Text → Json → Option Json
entry_member key (object fs) = get_field key fs
entry_member key j = none

abbrev branch_note : Text → Text → Text
branch_note id what = text "branch '" ++ (id ++ what)

-- A value and what is appended to the diagnostics.
unfoldable pub entry_status : Text → Option Json → Result JsonError (StageStatus × Text)
unfolding stage_status_from_json
entry_status id none = ok (fail, branch_note id (text "' status missing; "))
entry_status id (some j) = stage_status_from_json j >>= λ s. ok (s, [])

module _ (to_double : Json → Double) where
  unfoldable pub entry_score : Text → Option Json → Double × Text
  unfolding is_number
  entry_score id none =
      (finite (pos 0) (pos 0), branch_note id (text "' score missing or non-numeric; "))
  entry_score id (some j) =
      if is_number j
      then (to_double j, [])
      else (finite (pos 0) (pos 0), branch_note id (text "' score missing or non-numeric; "))

  unfoldable pub candidate : Json → Result JsonError (Candidate × Text)
  unfolding entry_id entry_status entry_score entry_member
  candidate entry = entry_id entry >>= λ id.
      entry_status id (entry_member (text "status") entry) >>= λ st.
      let sc = entry_score id (entry_member (text "score") entry) in
      ok (record { id = id; status = st.0; score = sc.0; entry = entry }, st.1 ++ sc.1)

  -- The loop over the entries.
  unfoldable pub candidates : Items → Result JsonError (List Candidate × Text)
  unfolding candidate
  candidates nil = ok ([], [])
  candidates (cons entry entries) =
      let rest = candidates entries in
      candidate entry >>= λ c. rest >>= λ r. ok (c.0 ∷ r.0, c.1 ++ r.1)

module _ (apart above : Double → Double → Bool) where
  -- The comparator of std::stable_sort.
  unfoldable pub better : Candidate → Candidate → Bool
  unfolding outcome_rank
  better a b =
      if nat_eq (outcome_rank a.status) (outcome_rank b.status)
      then (if apart a.score b.score then above a.score b.score else text_lt a.id b.id)
      else ltb (outcome_rank a.status) (outcome_rank b.status)

  -- The best candidate, with `true` if the backend has named it; `none` if there is none.
  unfoldable pub best_sorted : List Candidate → Option (Candidate × Bool)
  best_sorted [] = none
  best_sorted (c ∷ cs) = some (c, false)

  unfoldable pub choose : Option Text → List Candidate → Option (Candidate × Bool)
  unfolding better best_sorted
  choose none cs = best_sorted (sort better cs)
  choose (some llm_id) cs = elim (find (λ c. c.id == llm_id) cs) [
    | some c ↦ some (c, true)
    | none ↦ best_sorted (sort better cs)
  ]

-- The failure, with the diagnostics as its notes if there are any.
unfoldable pub failed_with : Text → Text → Outcome
failed_with message diagnostics =
    if is_empty diagnostics
    then fail_outcome message
    else record (fail_outcome message) { notes = diagnostics }

unfoldable pub conclude : Text → Candidate × Bool → Outcome
unfolding failed_with
conclude diagnostics (best, from_llm) =
    if same_status best.status fail
    then failed_with
        (if from_llm
          then text "FanInHandler: LLM-selected candidate has fail status"
          else text "FanInHandler: all candidates failed")
        diagnostics
    else record default_outcome {
      context_updates = object (
          set_field (text "parallel.fan_in.best_outcome") best.entry
            (set_field (text "parallel.fan_in.best_id") (str best.id) end));
      notes =
          text "FanInHandler: selected best candidate: "
          ++ (best.id ++ (if is_empty diagnostics then [] else text "; " ++ diagnostics));
    }

abbrev pub missing_results : Outcome
missing_results = fail_outcome (text "FanInHandler: parallel.results missing or empty")

-- The end of `execute` on the chosen candidate, if there is one.
unfoldable pub conclusion : Text → Option (Candidate × Bool) → Outcome
unfolding conclude
conclusion diagnostics none = missing_results
conclusion diagnostics (some best) = conclude diagnostics best

-- The answer of the backend, if there is a prompt and a backend.
unfoldable pub answer : Option (Text → Option Text) → Text → Option Text
answer none prompt = none
answer (some run) prompt = if is_empty prompt then none else run prompt

module _ (to_double : Json → Double) (apart above : Double → Double → Bool)
    (backend : Option (Text → Option Text)) where
  unfoldable pub join_candidates : FanInNode → List Candidate × Text → Outcome
  unfolding choose conclusion answer
  join_candidates node (cs, diagnostics) =
      conclusion diagnostics (choose apart above (answer backend node.prompt) cs)

  unfoldable pub fan_in : FanInNode → Json → Result JsonError Outcome
  unfolding candidates join_candidates
  fan_in node (array (cons entry entries)) =
      candidates to_double (cons entry entries) >>= λ r. ok (join_candidates node r)
  fan_in node raw = ok missing_results

  unfoldable pub execute_fan_in : FanInNode → Context → Result JsonError Outcome
  unfolding fan_in
  execute_fan_in node ctx = fan_in node (get (text "parallel.results") ctx)
