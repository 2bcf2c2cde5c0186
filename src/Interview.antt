-- ===== src/Interview.antt =====
-- include/attractor/interviewer.hpp and src/interviewers: questions, answers, and the interviewers
-- that need no terminal. An interviewer is what `ask` does to a state. The struct `Option` is
-- `Choice`, and the fields `text` of Question and Answer are `wording` and `reply`.
pub mod Laws
use attractor.Prelude.{
  Bool, true, false, ◌||◌, Option, none, some, List, [], ◌∷◌, ◌++◌, Text, text, if◌then◌else◌,
}
use attractor.Json.{Double}
use attractor.Types.{
  QuestionType, yes_no, multiple_choice, freeform, confirmation, AnswerKind, answer_yes,
  answer_text, answer_skipped,
}

pub record Choice : Type 0 where
  pub key : Text
  pub label : Text

pub record Question : Type 0 where
  pub wording : Text
  pub type : QuestionType
  pub options : List Choice
  pub default_answer : Option Text
  pub timeout_seconds : Option Double
  pub stage : Text

pub record Answer : Type 0 where
  pub kind : AnswerKind
  pub reply : Text
  pub selected_option : Option Choice

pub record Recording : Type 0 where
  pub question : Question
  pub answer : Answer

-- `Answer{}`.
abbrev pub skipped_answer : Answer
skipped_answer = record { kind = answer_skipped; reply = []; selected_option = none }

-- `Interviewer::ask`, on the state of the interviewer.
abbrev pub Ask : Type 0 → Type 0
Ask S = Question → S → Answer × S

unfoldable pub ask_multiple : {S : Type 0} → Ask S → List Question → S → List Answer × S
ask_multiple ask [] s = ([], s)
ask_multiple ask (q ∷ questions) s =
    let r = ask q s in let rest = ask_multiple ask questions r.1 in (r.0 ∷ rest.0, rest.1)

-- AutoApproveInterviewer.
unfoldable pub auto_approve : Question → Answer
auto_approve question = elim question.type [
  | yes_no ↦ record skipped_answer { kind = answer_yes }
  | confirmation ↦ record skipped_answer { kind = answer_yes }
  | freeform ↦ record skipped_answer { kind = answer_text; reply = text "auto-approved" }
  | multiple_choice ↦ elim question.options [
    | [] ↦ record skipped_answer { kind = answer_text; reply = text "auto-approved" }
    | option ∷ options ↦ record {
      kind = answer_text;
      reply = option.key;
      selected_option = some option;
    }
  ]
]

-- QueueInterviewer; the queue has its front first.
unfoldable pub push : Answer → List Answer → List Answer
push answer m_answers = m_answers ++ answer ∷ []

unfoldable pub ask_queue : Ask (List Answer)
ask_queue question [] = (skipped_answer, [])
ask_queue question (front ∷ m_answers) = (front, m_answers)

-- RecordingInterviewer: the state of the inner one, and `m_recordings`.
unfoldable pub ask_recording : {S : Type 0} → Ask S → Ask (S × List Recording)
ask_recording ask question (s, m_recordings) =
    let r = ask question s in
    (r.0, (r.1, m_recordings ++ record { question = question; answer = r.0 } ∷ []))
