-- ===== src/Daemon/Answer.antt =====
-- What the daemon writes for a command, and what lixyctl prints of it.
use lixy.Base.{
  ℕ, ◌≡◌, refl, sym, ap, ◌∙◌, ◌≢◌, ◌-◌, ◌==◌, ◌||◌, arith, false, List, [], ◌∷◌, ◌++◌, All,
  All-append, append-nil, append_assoc, Bool-cases, inl, inr,
}
use lixy.Control.{ReturnType, success, success_no_message}
use lixy.Control.Dispatch.{control_msg_buf_len}
use lixy.Lixyctl.{print_lines, prints}
use lixy.Daemon.{control_message, write_control_msg, write_result}

-- What comes from the socket.
abbrev pub stream : List (List ℕ) → List ℕ
stream [] = []
stream (text ∷ texts) = text ++ stream texts

abbrev pub IsText : List ℕ → Type 0
IsText text = All (λ c. c ≢ 0) text

-- The line for a result, which is empty if the command has written its own.
abbrev pub result_line : ReturnType → List ℕ
result_line success_no_message = []
result_line r = control_message r

stream-append : (xs ys : List (List ℕ)) → stream (xs ++ ys) ≡ stream xs ++ stream ys
stream-append [] ys = refl
stream-append (x ∷ xs) ys =
    ap (λ l. x ++ l) (stream-append xs ys) ∙ sym (append_assoc x (stream xs) (stream ys))

stream-IsText : (texts : List (List ℕ)) → All IsText texts → IsText (stream texts)
stream-IsText [] h = tt
stream-IsText (x ∷ xs) h = All-append (λ c. c ≢ 0) x (stream xs) h.0 (stream-IsText xs h.1)

-- Two NULs at the end are not seen.
print_lines-text :
    (xs : List ℕ) (room : ℕ)
    → IsText xs
    → (print_lines room false xs ≡ xs) × (print_lines room false (xs ++ 0 ∷ 0 ∷ []) ≡ xs)
unfolding print_lines
print_lines-text [] room h = (refl, ground arith)
print_lines-text (c ∷ cs) room h = elim (Bool-cases (c == b'\n' || room == 1)) [
  | inl e ↦
      let rest = print_lines-text cs (control_msg_buf_len - 1) h.1 in
      (ground (arith, rest.0), ground (arith, rest.1))
  | inr e ↦
      let rest = print_lines-text cs (room - 1) h.1 in
      (ground (arith, rest.0), ground (arith, rest.1))
]

control_message-IsText : (r : ReturnType) → IsText (control_message r)
unfolding control_message
control_message-IsText success = omega arith
control_message-IsText r = omega arith

written :
    (msg xs : List ℕ)
    → IsText msg
    → IsText xs
    → prints (xs ++ ((msg ++ 0 ∷ 0 ∷ []) ++ [])) ≡ xs ++ msg
unfolding prints
written msg xs k h =
    ap prints
      (ap (λ l. xs ++ l) (append-nil (msg ++ 0 ∷ 0 ∷ [])) ∙ sym (append_assoc xs msg (0 ∷ 0 ∷ [])))
    ∙ (print_lines-text (xs ++ msg) (control_msg_buf_len - 1)
        (All-append (λ c. c ≢ 0) xs msg h k)).1

message_printed :
    (r : ReturnType) (xs : List ℕ)
    → IsText xs
    → prints (xs ++ stream (write_result r)) ≡ xs ++ result_line r
unfolding prints write_result write_control_msg
message_printed success_no_message xs h =
    rw (append-nil xs) (print_lines-text xs (control_msg_buf_len - 1) h).0
message_printed r xs h = written (control_message r) xs (control_message-IsText r) h

-- Whatever texts without NUL a command writes, and whatever its result is: lixyctl prints exactly
-- these texts, one after the other, and then the line of the result, without the two NULs that the
-- daemon sends behind it.
pub prints-write_result :
    (texts : List (List ℕ)) (r : ReturnType)
    → All IsText texts
    → prints (stream (texts ++ write_result r)) ≡ stream texts ++ result_line r
prints-write_result texts r h =
    ap prints (stream-append texts (write_result r))
    ∙ message_printed r (stream texts) (stream-IsText texts h)
