-- ===== src/Tests/Fans.antt =====
-- The fan-in handler on the results of a branch that failed and one that succeeded.
use attractor.Prelude.{In, ◌≡◌, refl, Bool, false, none, [], ◌∷◌, Text, text, ok, pos, ◌==◌}
use attractor.Json.{Double, finite, Json, str, array, object, nil, cons, field, end, get_field}
use attractor.Types.{success, fail, triple_octagon}
use attractor.Names.{stage_status_from_json}
use attractor.Graph.{FanInNode}
use attractor.Context.{Context, get}
use attractor.Handlers.FanIn.{
  Candidate, candidate, candidates, entry_id, entry_member, entry_status, entry_score, plain_string,
  conclude, answer, execute_fan_in,
}
use attractor.Handlers.BestBranch.{IsBest, execute_fan_in-IsBest}
use attractor.Tests.Samples.{node_of, gate_id}

abbrev branch : Text → Text → Json
branch id status = object (field (text "id") (str id) (field (text "status") (str status) end))

abbrev lost : Json
lost = branch (text "a") (text "fail")

abbrev won : Json
won = branch (text "b") (text "success")

abbrev joined : Context
joined = record {
  m_data = field (text "parallel.results") (array (cons lost (cons won nil))) end;
  m_execution_counter = 0;
}

abbrev zero_of : Json → Double
zero_of j = finite (pos 0) (pos 0)

abbrev never : Double → Double → Bool
never a b = false

abbrev join_node : FanInNode
join_node = record { base = node_of gate_id triple_octagon false []; prompt = [] }

abbrev first_candidate : Candidate
first_candidate = record { id = text "a"; status = fail; score = zero_of lost; entry = lost }

abbrev second_candidate : Candidate
second_candidate = record { id = text "b"; status = success; score = zero_of won; entry = won }

abbrev notes : Text
notes = text "branch 'a' score missing or non-numeric; branch 'b' score missing or non-numeric; "

joined_results : get (text "parallel.results") joined ≡ array (cons lost (cons won nil))
unfolding get get_field text ◌==◌
joined_results = refl

joined_candidates :
    candidates zero_of (cons lost (cons won nil))
    ≡ ok (first_candidate ∷ second_candidate ∷ [], notes)
unfolding candidates candidate entry_id entry_member entry_status entry_score plain_string get_field
    stage_status_from_json text ◌==◌
joined_candidates = refl

unasked : answer none join_node.prompt ≡ none
unfolding answer
unasked = refl

execute_fan_in-IsBest_example :
    (best : Candidate) × In best (first_candidate ∷ second_candidate ∷ [])
    × IsBest best (first_candidate ∷ second_candidate ∷ [])
    × (execute_fan_in zero_of never never none join_node joined ≡ ok (conclude notes (best, false)))
execute_fan_in-IsBest_example =
    execute_fan_in-IsBest zero_of never never none join_node joined lost (cons won nil)
      first_candidate (second_candidate ∷ []) notes joined_results joined_candidates unasked
