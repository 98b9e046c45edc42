-- ===== src/Loop/Answering.antt =====
-- What it is for the tool calls of tau_agent/loop.py to be answered, wholly or in part.
use tau_prime.Prelude.{◌≡◌, refl, sym, ap, ◌∙◌, List, [], ◌∷◌, ◌++◌, append-nil, append_assoc}
use tau_prime.Messages.{ToolCall, AgentMessage, user, assistant, tool}
use tau_prime.Exec.{Run}

-- One tool message for each call, in the calls' order and under the calls' ids.
abbrev pub Answers : List ToolCall → List AgentMessage → Type 0
Answers [] [] = Unit
Answers (call ∷ calls) (tool r ∷ ms) = (r.tool_call_id ≡ call.id) × Answers calls ms
Answers _ _ = ⊥

-- The answers to these calls were added to the transcript, and nothing else.
pub record IsAnswered {W : Type 0} (s : Run W) (calls : List ToolCall) (t : Run W) : Type 0 where
  pub answers : List AgentMessage
  pub written : t.messages ≡ s.messages ++ answers
  pub answer : Answers calls answers

-- So for some first part of the calls.
pub record IsPartlyAnswered {W : Type 0} (s : Run W) (calls : List ToolCall) (t : Run W)
    : Type 0 where
  pub done : List ToolCall
  pub left : List ToolCall
  pub split : calls ≡ done ++ left
  pub answered : IsAnswered s done t

module _ {W : Type 0} {s : Run W} where
  pub nothing_yet :
      {t : Run W} (calls : List ToolCall) → t.messages ≡ s.messages → IsPartlyAnswered s calls t
  nothing_yet calls e = record {
    done = [];
    left = calls;
    split = refl;
    answered = record { answers = []; written = e ∙ sym (append-nil s.messages); answer = tt };
  }

module _ {W : Type 0} where
  -- One answer, and then those that follow.
  pub then-IsAnswered :
      {s t u : Run W} (call : ToolCall) (calls : List ToolCall)
      → IsAnswered s (call ∷ []) t
      → IsAnswered t calls u
      → IsAnswered s (call ∷ calls) u
  then-IsAnswered {s} {t} {u} call calls p q = by_answer p.answers p.written p.answer
    where
      by_answer :
          (ms : List AgentMessage)
          → t.messages ≡ s.messages ++ ms
          → Answers (call ∷ []) ms
          → IsAnswered s (call ∷ calls) u
      by_answer (tool r ∷ []) e a = record {
        answers = tool r ∷ q.answers;
        written =
            q.written
            ∙ ap (λ l. l ++ q.answers) e
            ∙ append_assoc s.messages (tool r ∷ []) q.answers;
        answer = (a.0, q.answer);
      }
      by_answer (tool r ∷ m ∷ ms) e a = absurd a.1
      by_answer (user m ∷ ms) e a = absurd a
      by_answer (assistant m ∷ ms) e a = absurd a
      by_answer [] e a = absurd a

  pub then_partly :
      {s t u : Run W} (call : ToolCall) (calls : List ToolCall)
      → IsAnswered s (call ∷ []) t
      → IsPartlyAnswered t calls u
      → IsPartlyAnswered s (call ∷ calls) u
  then_partly call calls p q = record {
    done = call ∷ q.done;
    left = q.left;
    split = ap (◌∷◌ call) q.split;
    answered = then-IsAnswered call q.done p q.answered;
  }

  pub more_left :
      {s u : Run W} (call : ToolCall) (calls : List ToolCall)
      → IsPartlyAnswered s (call ∷ []) u
      → IsPartlyAnswered s (call ∷ calls) u
  more_left call calls p = record {
    done = p.done;
    left = p.left ++ calls;
    split = ap (λ l. l ++ calls) p.split ∙ append_assoc p.done p.left calls;
    answered = p.answered;
  }

  -- The same, told from an earlier state with the same transcript.
  pub IsAnswered-from :
      {s t u : Run W} (calls : List ToolCall)
      → t.messages ≡ s.messages
      → IsAnswered t calls u
      → IsAnswered s calls u
  IsAnswered-from calls e p = record {
    answers = p.answers;
    written = p.written ∙ ap (λ l. l ++ p.answers) e;
    answer = p.answer;
  }

  pub IsPartlyAnswered-from :
      {s t u : Run W} (calls : List ToolCall)
      → t.messages ≡ s.messages
      → IsPartlyAnswered t calls u
      → IsPartlyAnswered s calls u
  IsPartlyAnswered-from calls e p = record {
    done = p.done;
    left = p.left;
    split = p.split;
    answered = IsAnswered-from p.done e p.answered;
  }
