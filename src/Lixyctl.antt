-- ===== src/Lixyctl.antt =====
-- lixyctl.c: what the client does with the words that are typed, and what it prints of the answer.
use lixy.Base.{ℕ, ◌-◌, ◌==◌, ◌||◌, if◌then◌else◌, Bool, true, false, none, some, List, [], ◌∷◌}
use lixy.Control.{is}
use lixy.Control.Dispatch.{command_string, control_msg_buf_len}

pub data Client : Type 0 where
  -- The usage is printed, and whether the exit is 0.
  usage : Bool → Client
  -- `error_quit ("command string is too long")`
  too_long : Client
  -- The command string is written to the daemon's socket.
  sends : List ℕ → Client

-- `main`, on `argv[1]` and what follows it.
unfoldable pub lixyctl_main : List (List ℕ) → Client
lixyctl_main [] = usage false
lixyctl_main (word ∷ words) =
    if is word "-h"
    then usage true
    else (if is word "--help" then usage true else elim (command_string [] (word ∷ words)) [
      | none ↦ too_long
      | some cmdstr ↦ sends cmdstr
    ])

-- The loop of `fgets` and `printf`, character by character. A line ends behind a newline, or when
-- the buffer has room for its NUL only; of each line what stands before its first NUL is printed.
-- `room` is what is left in the buffer, and `cut_off` says that the line has had a NUL.
unfoldable pub print_lines : ℕ → Bool → List ℕ → List ℕ
print_lines room cut_off [] = []
print_lines room cut_off (c ∷ cs) =
    let nul = cut_off || c == 0 in
    let ends = c == b'\n' || room == 1 in
    let rest =
      print_lines (if ends then control_msg_buf_len - 1 else room - 1) (if ends then false else nul)
        cs in
    if nul then rest else c ∷ rest

-- What is printed of all that comes from the socket.
unfoldable pub prints : List ℕ → List ℕ
prints answer = print_lines (control_msg_buf_len - 1) false answer
