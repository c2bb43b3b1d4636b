-- ===== src/Control/Dispatch.antt =====
-- From the command line of lixyctl to the command that the daemon runs: the loop over `argv` in
-- lixyctl.c, and strsplit and the table of commands in control.c.
pub mod Words
pub mod Table
use lixy.Base.{
  ℕ, zero, suc, ◌==◌, get_elem?, ltb, leb, ◌-◌, ◌&&◌, if◌then◌else◌, Bool, Option, none, some, List,
  [], ◌∷◌, ◌++◌, length, take, String, codes, bytes_eq,
}
use lixy.Platform.{UtList}
use lixy.LinkedList.{ListT, create_list, append_listnode, search_listnode}
use lixy.LinkedList.Pool.{Pool, malloc}

abbrev pub control_msg_buf_len : ℕ
control_msg_buf_len = 1024

abbrev pub control_args_max : ℕ
control_args_max = 8

-- `snprintf (cmdbuf, sizeof (cmdbuf), "%s %s", cmdstr, arg)` with its check, and the copy back;
-- `none` is the end of the program with an error.
unfoldable pub add_arg : List ℕ → List ℕ → Option (List ℕ)
add_arg cmdstr word =
    let text = cmdstr ++ b' ' ∷ word in
    if ltb control_msg_buf_len (length text)
    then none
    else some (take (control_msg_buf_len - 1) text)

-- The loop over `argv`, from `argv[1]` on.
unfoldable pub command_string : List ℕ → List (List ℕ) → Option (List ℕ)
command_string cmdstr [] = some cmdstr
command_string cmdstr (word ∷ words) = elim (add_arg cmdstr word) [
  | none ↦ none
  | some longer ↦ command_string longer words
]

-- `*c > ' '`, where a `char` is signed: the bytes from 128 on are negative.
abbrev pub is_graphic : ℕ → Bool
is_graphic c = ltb b' ' c && ltb c 128

-- The loop `while (*c && *c > ' ') c++`: what it passes, and where it stops.
unfoldable pub word_of : List ℕ → List ℕ
word_of [] = []
word_of (c ∷ cs) = let rest = word_of cs in if is_graphic c then c ∷ rest else []

unfoldable pub after_word : List ℕ → List ℕ
after_word [] = []
after_word (c ∷ cs) = let rest = after_word cs in if is_graphic c then rest else c ∷ cs

-- The loop `while (*c && *c <= ' ')`.
unfoldable pub skip_blanks : List ℕ → List ℕ
skip_blanks [] = []
skip_blanks (c ∷ cs) = let rest = skip_blanks cs in if is_graphic c then c ∷ cs else rest

-- The loop `for (c = str; *c == ' '; c++)`.
unfoldable pub skip_spaces : List ℕ → List ℕ
skip_spaces [] = []
skip_spaces (c ∷ cs) = let rest = skip_spaces cs in if c == b' ' then rest else c ∷ cs

-- The loop that fills `argv`, with the room that is left in it.
unfoldable pub split_words : ℕ → List ℕ → List (List ℕ)
split_words zero str = []
split_words (suc room) [] = []
split_words (suc room) (c ∷ cs) =
    word_of (c ∷ cs) ∷ split_words room (skip_blanks (after_word (c ∷ cs)))

-- The words, or `none` for -1.
unfoldable pub strsplit : List ℕ → ℕ → Option (List (List ℕ))
strsplit str maxnum =
    let words = split_words maxnum (skip_spaces str) in
    if leb maxnum (length words) then none else some words

-- The functions that `cmd_node.func` points to.
pub data Func : Type 0 where
  config_map_server config_locator config_eid config_show config_route : Func

pub record CmdNode : Type 0 where
  pub depth : ℕ
  pub init_cmd : List ℕ
  pub func : Func

-- `strncpy` into the zeroed array of 16 characters.
abbrev pub cmd_node : String → Func → CmdNode
cmd_node name func = record { depth = 1; init_cmd = take 16 (codes name); func = func }

module _ (u : UtList) where
  abbrev pub CmdTuple : Type 0
  CmdTuple = Pool CmdNode × ListT u

  unfoldable pub append_cmd_node : CmdNode → CmdTuple → CmdTuple
  append_cmd_node node (pool, l) = (malloc pool node, append_listnode u l pool.next)

  unfoldable pub install_cmd_node : Pool CmdNode → CmdTuple
  install_cmd_node pool = append_cmd_node (cmd_node "route" config_route) (
      append_cmd_node (cmd_node "show" config_show) (
        append_cmd_node (cmd_node "eid" config_eid) (
          append_cmd_node (cmd_node "locator" config_locator)
            (append_cmd_node (cmd_node "mapserver" config_map_server) (pool, create_list u)))))

  -- `compare_cmd_node` is `strcmp`. A missing word finds nothing.
  unfoldable pub search_cmd_node : CmdTuple → Option (List ℕ) → Option CmdNode
  search_cmd_node (pool, l) none = none
  search_cmd_node (pool, l) (some cmd) =
      elim (search_listnode u l (λ p. bytes_eq cmd (pool.cell p).init_cmd)) [
        | none ↦ none
        | some p ↦ some (pool.cell p)
      ]

  -- What `lisp_op_thread` makes of the bytes that it read, up to the call of `cnode->func`: the
  -- function and its arguments; `none` is the answer ERR_INVALID_COMMAND.
  unfoldable pub find_command : CmdTuple → List ℕ → Option (Func × List (List ℕ))
  find_command tuple buf = elim (strsplit buf control_args_max) [
    | none ↦ none
    | some args ↦ elim (search_cmd_node tuple (get_elem? args 0)) [
      | none ↦ none
      | some cnode ↦ some (cnode.func, args)
    ]
  ]
