-- ===== src/Interview/Laws.antt =====
-- What the interviewers answer to several questions.
use attractor.Prelude.{◌≡◌, refl, ◌∙◌, ap, sym, List, [], ◌∷◌, ◌++◌}
use attractor.Interview.{
  Question, Answer, Recording, skipped_answer, Ask, ask_multiple, push, ask_queue, ask_recording,
}

-- The answers of a queue, one for each question: the pushed ones in their order, then skips.
unfoldable pub answers_of : List Question → List Answer → List Answer
answers_of [] queue = []
answers_of (q ∷ questions) [] = skipped_answer ∷ answers_of questions []
answers_of (q ∷ questions) (a ∷ queue) = a ∷ answers_of questions queue

unfoldable pub push_all : List Answer → List Answer → List Answer
unfolding push
push_all [] queue = queue
push_all (a ∷ answers) queue = push_all answers (push a queue)

append_assoc : {A : Type 0} (xs ys zs : List A) → (xs ++ ys) ++ zs ≡ xs ++ (ys ++ zs)
append_assoc [] ys zs = refl
append_assoc (x ∷ xs) ys zs = ap (λ l. x ∷ l) (append_assoc xs ys zs)

append_nil : {A : Type 0} (xs : List A) → xs ++ [] ≡ xs
append_nil [] = refl
append_nil (x ∷ xs) = ap (λ l. x ∷ l) (append_nil xs)

push_all-append : (answers queue : List Answer) → push_all answers queue ≡ queue ++ answers
unfolding push_all
push_all-append [] queue = sym (append_nil queue)
push_all-append (a ∷ answers) queue =
    push_all-append answers (push a queue) ∙ append_assoc queue (a ∷ []) answers

ask_multiple-queue :
    (questions : List Question) (queue : List Answer)
    → (ask_multiple ask_queue questions queue).0 ≡ answers_of questions queue
unfolding ask_multiple ask_queue answers_of
ask_multiple-queue [] queue = refl
ask_multiple-queue (q ∷ questions) [] =
    ap (λ l. skipped_answer ∷ l) (ask_multiple-queue questions [])
ask_multiple-queue (q ∷ questions) (a ∷ queue) =
    ap (λ l. a ∷ l) (ask_multiple-queue questions queue)

-- A queue interviewer answers first in, first out: to several questions it gives the answers that
-- were pushed, in the order of the pushes, and a skip for each question after the last of them.
pub ask_multiple-push_all :
    (questions : List Question) (answers : List Answer)
    → (ask_multiple ask_queue questions (push_all answers [])).0 ≡ answers_of questions answers
ask_multiple-push_all questions answers =
    ap (λ q. (ask_multiple ask_queue questions q).0) (push_all-append answers [])
    ∙ ask_multiple-queue questions answers

-- The pairs of the questions and the answers.
unfoldable pub recorded : List Question → List Answer → List Recording
recorded [] answers = []
recorded (q ∷ questions) [] = []
recorded (q ∷ questions) (a ∷ answers) =
    record { question = q; answer = a } ∷ recorded questions answers

-- A recording interviewer answers as the inner one does, leaves it in the same state, and appends
-- to its recordings each question with its answer, in order.
pub ask_multiple-recording :
    {S : Type 0} (ask : Ask S) (questions : List Question) (s : S) (old : List Recording)
    → ask_multiple (ask_recording ask) questions (s, old) ≡ (
      (ask_multiple ask questions s).0,
      (
        (ask_multiple ask questions s).1,
        old ++ recorded questions (ask_multiple ask questions s).0,
      ),
    )
unfolding ask_multiple ask_recording recorded
ask_multiple-recording ask [] s old = ap (λ l. ([], (s, l))) (sym (append_nil old))
ask_multiple-recording ask (q ∷ questions) s old =
    let r = ask q s in
    let e = record { question = q; answer = r.0 } ∷ [] in
    ap (λ x. (r.0 ∷ x.0, x.1)) (ask_multiple-recording ask questions r.1 (old ++ e))
    ∙ ap (λ l. (r.0 ∷ (ask_multiple ask questions r.1).0, ((ask_multiple ask questions r.1).1, l)))
        (append_assoc old e (recorded questions (ask_multiple ask questions r.1).0))
