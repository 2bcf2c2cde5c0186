-- ===== src/Types.antt =====
-- include/attractor/types.hpp: the string types and the enumerations. A strong typedef is its
-- string, `empty()` is `is_empty`, and a constrained integer is a natural number whose constraint
-- stands where it is checked.
use attractor.Prelude.{ℕ, Bool, true, false, Text, leb, ◌&&◌}

abbrev pub NodeId : Type 0
NodeId = Text

abbrev pub EdgeLabel : Type 0
EdgeLabel = Text

abbrev pub ArtifactId : Type 0
ArtifactId = Text

abbrev pub HandlerTypeName : Type 0
HandlerTypeName = Text

abbrev pub ContextKey : Type 0
ContextKey = Text

abbrev pub ThreadId : Type 0
ThreadId = Text

abbrev pub PromptText : Type 0
PromptText = Text

abbrev pub GoalText : Type 0
GoalText = Text

abbrev pub LogsRoot : Type 0
LogsRoot = Text

abbrev pub NodeLabel : Type 0
NodeLabel = Text

abbrev pub CssClass : Type 0
CssClass = Text

abbrev pub LlmModel : Type 0
LlmModel = Text

abbrev pub LlmProvider : Type 0
LlmProvider = Text

abbrev pub GraphId : Type 0
GraphId = Text

abbrev pub GraphLabel : Type 0
GraphLabel = Text

abbrev pub StylesheetId : Type 0
StylesheetId = Text

abbrev pub DotfilePath : Type 0
DotfilePath = Text

abbrev pub WorkDir : Type 0
WorkDir = Text

abbrev pub ShellCommand : Type 0
ShellCommand = Text

abbrev pub ConditionExpr : Type 0
ConditionExpr = Text

abbrev pub RuleId : Type 0
RuleId = Text

abbrev pub DiagnosticMessage : Type 0
DiagnosticMessage = Text

abbrev pub SuggestedFix : Type 0
SuggestedFix = Text

abbrev pub HandlerNote : Type 0
HandlerNote = Text

abbrev pub LlmResponse : Type 0
LlmResponse = Text

abbrev pub SubgraphId : Type 0
SubgraphId = Text

-- The values that the constrained types accept, of those that are not negative.
unfoldable pub port_constraint : ℕ → Bool
port_constraint v = leb 1 v && leb v 65535

unfoldable pub positive_duration_constraint : ℕ → Bool
positive_duration_constraint v = leb 1 v

unfoldable pub max_parallel_constraint : ℕ → Bool
max_parallel_constraint v = leb 1 v

pub data NodeShape : Type 0 where
  mdiamond msquare box hexagon diamond component triple_octagon parallelogram house : NodeShape

pub data StageStatus : Type 0 where
  success partial_success fail retry skipped : StageStatus

pub data Severity : Type 0 where
  error warning info : Severity

pub data QuestionType : Type 0 where
  yes_no multiple_choice freeform confirmation : QuestionType

pub data AnswerKind : Type 0 where
  answer_yes answer_no answer_text answer_skipped answer_timeout : AnswerKind

pub data FidelityMode : Type 0 where
  full truncate compact summary_low summary_medium summary_high : FidelityMode

pub data ReasoningEffort : Type 0 where
  low medium high : ReasoningEffort

pub data JoinPolicy : Type 0 where
  wait_all first_success : JoinPolicy

-- `==` of the enumerations that the program compares.
unfoldable pub same_status : StageStatus → StageStatus → Bool
same_status success success = true
same_status partial_success partial_success = true
same_status fail fail = true
same_status retry retry = true
same_status skipped skipped = true
same_status _ _ = false

unfoldable pub same_shape : NodeShape → NodeShape → Bool
same_shape mdiamond mdiamond = true
same_shape msquare msquare = true
same_shape box box = true
same_shape hexagon hexagon = true
same_shape diamond diamond = true
same_shape component component = true
same_shape triple_octagon triple_octagon = true
same_shape parallelogram parallelogram = true
same_shape house house = true
same_shape _ _ = false
