-- ===== src/Names.antt =====
-- src/types.cpp: the JSON forms of the string types and of the enumerations, each by its table of
-- names.
pub mod Codec
use attractor.Prelude.{
  ℕ, Option, none, some, List, [], ◌∷◌, Text, text, ◌==◌, nat_eq, ◌++◌, Result, ok, err, ◌>>=◌,
  if◌then◌else◌,
}
use attractor.Json.{Json, null, str, JsonError, type_error, other_error, library_error, type_name}
use attractor.Types.{
  StageStatus, Severity, QuestionType, AnswerKind, FidelityMode, ReasoningEffort, JoinPolicy,
  NodeShape, success, partial_success, fail, retry, skipped, error, warning, info, yes_no,
  multiple_choice, freeform, confirmation, answer_yes, answer_no, answer_text, answer_skipped,
  answer_timeout, full, truncate, compact, summary_low, summary_medium, summary_high, low, medium,
  high, wait_all, first_success, mdiamond, msquare, box, hexagon, diamond, component,
  triple_octagon, parallelogram, house,
}

-- `to_json` and `from_json` of a strong typedef of the given name.
unfoldable pub typedef_to_json : Text → Json
typedef_to_json v = str v

unfoldable pub typedef_from_json : Text → Json → Result JsonError Text
typedef_from_json name (str s) = ok s
typedef_from_json name j =
    err (type_error (name ++ (text " requires a string, got: " ++ type_name j)))

-- `j.get<std::string>()`.
unfoldable pub get_string : Json → Result JsonError Text
get_string (str s) = ok s
get_string j = err library_error

-- The two loops over a table. Enumerators are compared by their numbers.
abbrev pub Table : Type 0 → Type 0
Table E = List (E × Text)

module _ {E : Type 0} where
  unfoldable pub name_in : Table E → (E → ℕ) → E → Option Text
  name_in [] number v = none
  name_in ((enumerator, name) ∷ table) number v =
      if nat_eq (number enumerator) (number v) then some name else name_in table number v

  unfoldable pub named_in : Table E → Text → Option E
  named_in [] s = none
  named_in ((enumerator, name) ∷ table) s = if name == s then some enumerator else named_in table s

  unfoldable pub write_enum : Json → Table E → (E → ℕ) → E → Json
  unfolding name_in
  write_enum fallback table number v = elim (name_in table number v) [
    | some name ↦ str name
    | none ↦ fallback
  ]

  unfoldable pub known : Text → Text → Option E → Result JsonError E
  known kind s (some v) = ok v
  known kind s none = err (other_error (text "unknown " ++ (kind ++ (text ": " ++ s))))

  unfoldable pub read_enum : Text → Table E → Json → Result JsonError E
  unfolding named_in known get_string
  read_enum kind table j = get_string j >>= λ s. known kind s (named_in table s)

abbrev pub stage_status_number : StageStatus → ℕ
stage_status_number success = 0
stage_status_number partial_success = 1
stage_status_number fail = 2
stage_status_number retry = 3
stage_status_number skipped = 4

abbrev pub k_stage_status_map : Table StageStatus
k_stage_status_map =
    (success, text "success")
    ∷ (partial_success, text "partial_success")
    ∷ (fail, text "fail")
    ∷ (retry, text "retry")
    ∷ (skipped, text "skipped")
    ∷ []

unfoldable pub stage_status_to_json : StageStatus → Json
unfolding write_enum
stage_status_to_json v = write_enum (null) k_stage_status_map stage_status_number v

unfoldable pub stage_status_from_json : Json → Result JsonError StageStatus
unfolding read_enum
stage_status_from_json j = read_enum (text "StageStatus") k_stage_status_map j

abbrev pub severity_number : Severity → ℕ
severity_number error = 0
severity_number warning = 1
severity_number info = 2

abbrev pub k_severity_map : Table Severity
k_severity_map = (error, text "error") ∷ (warning, text "warning") ∷ (info, text "info") ∷ []

unfoldable pub severity_to_json : Severity → Json
unfolding write_enum
severity_to_json v = write_enum (null) k_severity_map severity_number v

unfoldable pub severity_from_json : Json → Result JsonError Severity
unfolding read_enum
severity_from_json j = read_enum (text "Severity") k_severity_map j

abbrev pub question_type_number : QuestionType → ℕ
question_type_number yes_no = 0
question_type_number multiple_choice = 1
question_type_number freeform = 2
question_type_number confirmation = 3

abbrev pub k_question_type_map : Table QuestionType
k_question_type_map =
    (yes_no, text "yes_no")
    ∷ (multiple_choice, text "multiple_choice")
    ∷ (freeform, text "freeform")
    ∷ (confirmation, text "confirmation")
    ∷ []

unfoldable pub question_type_to_json : QuestionType → Json
unfolding write_enum
question_type_to_json v = write_enum (null) k_question_type_map question_type_number v

unfoldable pub question_type_from_json : Json → Result JsonError QuestionType
unfolding read_enum
question_type_from_json j = read_enum (text "QuestionType") k_question_type_map j

abbrev pub answer_kind_number : AnswerKind → ℕ
answer_kind_number answer_yes = 0
answer_kind_number answer_no = 1
answer_kind_number answer_text = 2
answer_kind_number answer_skipped = 3
answer_kind_number answer_timeout = 4

abbrev pub k_answer_kind_map : Table AnswerKind
k_answer_kind_map =
    (answer_yes, text "yes")
    ∷ (answer_no, text "no")
    ∷ (answer_text, text "text")
    ∷ (answer_skipped, text "skipped")
    ∷ (answer_timeout, text "timeout")
    ∷ []

unfoldable pub answer_kind_to_json : AnswerKind → Json
unfolding write_enum
answer_kind_to_json v = write_enum (str (text "unknown")) k_answer_kind_map answer_kind_number v

unfoldable pub answer_kind_from_json : Json → Result JsonError AnswerKind
unfolding read_enum
answer_kind_from_json j = read_enum (text "AnswerKind") k_answer_kind_map j

abbrev pub fidelity_mode_number : FidelityMode → ℕ
fidelity_mode_number full = 0
fidelity_mode_number truncate = 1
fidelity_mode_number compact = 2
fidelity_mode_number summary_low = 3
fidelity_mode_number summary_medium = 4
fidelity_mode_number summary_high = 5

abbrev pub k_fidelity_mode_map : Table FidelityMode
k_fidelity_mode_map =
    (full, text "full")
    ∷ (truncate, text "truncate")
    ∷ (compact, text "compact")
    ∷ (summary_low, text "summary:low")
    ∷ (summary_medium, text "summary:medium")
    ∷ (summary_high, text "summary:high")
    ∷ []

unfoldable pub fidelity_mode_to_json : FidelityMode → Json
unfolding write_enum
fidelity_mode_to_json v = write_enum (null) k_fidelity_mode_map fidelity_mode_number v

unfoldable pub fidelity_mode_from_json : Json → Result JsonError FidelityMode
unfolding read_enum
fidelity_mode_from_json j = read_enum (text "FidelityMode") k_fidelity_mode_map j

abbrev pub reasoning_effort_number : ReasoningEffort → ℕ
reasoning_effort_number low = 0
reasoning_effort_number medium = 1
reasoning_effort_number high = 2

abbrev pub k_reasoning_effort_map : Table ReasoningEffort
k_reasoning_effort_map = (low, text "low") ∷ (medium, text "medium") ∷ (high, text "high") ∷ []

unfoldable pub reasoning_effort_to_json : ReasoningEffort → Json
unfolding write_enum
reasoning_effort_to_json v = write_enum (null) k_reasoning_effort_map reasoning_effort_number v

unfoldable pub reasoning_effort_from_json : Json → Result JsonError ReasoningEffort
unfolding read_enum
reasoning_effort_from_json j = read_enum (text "ReasoningEffort") k_reasoning_effort_map j

abbrev pub join_policy_number : JoinPolicy → ℕ
join_policy_number wait_all = 0
join_policy_number first_success = 1

abbrev pub k_join_policy_map : Table JoinPolicy
k_join_policy_map = (wait_all, text "wait_all") ∷ (first_success, text "first_success") ∷ []

unfoldable pub join_policy_to_json : JoinPolicy → Json
unfolding write_enum
join_policy_to_json v = write_enum (null) k_join_policy_map join_policy_number v

unfoldable pub join_policy_from_json : Json → Result JsonError JoinPolicy
unfolding read_enum
join_policy_from_json j = read_enum (text "JoinPolicy") k_join_policy_map j

abbrev pub node_shape_number : NodeShape → ℕ
node_shape_number mdiamond = 0
node_shape_number msquare = 1
node_shape_number box = 2
node_shape_number hexagon = 3
node_shape_number diamond = 4
node_shape_number component = 5
node_shape_number triple_octagon = 6
node_shape_number parallelogram = 7
node_shape_number house = 8

abbrev pub k_node_shape_map : Table NodeShape
k_node_shape_map =
    (mdiamond, text "Mdiamond")
    ∷ (msquare, text "Msquare")
    ∷ (box, text "box")
    ∷ (hexagon, text "hexagon")
    ∷ (diamond, text "diamond")
    ∷ (component, text "component")
    ∷ (triple_octagon, text "tripleoctagon")
    ∷ (parallelogram, text "parallelogram")
    ∷ (house, text "house")
    ∷ []

abbrev pub k_node_shape_aliases : Table NodeShape
k_node_shape_aliases = (triple_octagon, text "triple_octagon") ∷ []

-- `none` is `std::unreachable()`.
unfoldable pub node_shape_to_string : NodeShape → Option Text
unfolding name_in
node_shape_to_string s = name_in k_node_shape_map node_shape_number s

unfoldable pub node_shape_from_string : Text → Option NodeShape
unfolding named_in
node_shape_from_string s = elim (named_in k_node_shape_map s) [
  | some enumerator ↦ some enumerator
  | none ↦ named_in k_node_shape_aliases s
]
