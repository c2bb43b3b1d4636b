-- ===== src/Control/Dispatch/Words.antt =====
-- The words of a command line arrive as they were given.
use lixy.Base.{
  ℕ, zero, suc, ◌≡◌, refl, ◌==◌, ltb, leb, ◌-◌, append-nil, subst, ap, ap₂, ◌∙◌, sym, ◌<◌, ◌≤◌,
  true, false, some, List, [], ◌∷◌, ◌++◌, length, take, length-append, All, arith, append_assoc,
}
use lixy.Control.Dispatch.{
  is_graphic, word_of, after_word, skip_blanks, skip_spaces, split_words, strsplit, add_arg,
  command_string, control_msg_buf_len, control_args_max,
}

-- A word of printable ASCII characters, with at least one of them.
pub record IsWord (w : List ℕ) : Type 0 where
  pub nonempty : 0 < length w
  pub graphic : All (λ c. is_graphic c ≡ true) w

-- The words with a space before each.
abbrev pub spaced : List (List ℕ) → List ℕ
spaced [] = []
spaced (w ∷ ws) = b' ' ∷ (w ++ spaced ws)

word_of-append :
    (w : List ℕ) (ws : List (List ℕ))
    → All (λ c. is_graphic c ≡ true) w
    → (word_of (w ++ spaced ws) ≡ w) × (after_word (w ++ spaced ws) ≡ spaced ws)
unfolding word_of after_word
word_of-append [] [] h = (refl, refl)
word_of-append [] (v ∷ vs) h = (refl, refl)
word_of-append (c ∷ cs) ws h =
    let (here, rest) = word_of-append cs ws h.1 in rw h.0 (ap (◌∷◌ c) here, rest)

skip_blanks-spaced :
    (ws : List (List ℕ)) → All IsWord ws → skip_blanks (spaced ws) ≡ skip_spaces (spaced ws)
unfolding skip_blanks skip_spaces
skip_blanks-spaced [] h = refl
skip_blanks-spaced ([] ∷ ws) h = absurd (omega (arith, (h.0).nonempty))
skip_blanks-spaced ((c ∷ cs) ∷ ws) h = ground (arith, ((h.0).graphic).0)

split_words-spaced :
    (room : ℕ) (ws : List (List ℕ))
    → All IsWord ws
    → length ws ≤ room
    → split_words room (skip_spaces (spaced ws)) ≡ ws
unfolding split_words skip_spaces
split_words-spaced zero [] h n = refl
split_words-spaced zero (w ∷ ws) h n = absurd (omega arith)
split_words-spaced (suc room) [] h n = refl
split_words-spaced (suc room) ([] ∷ ws) h n = absurd (omega (arith, (h.0).nonempty))
split_words-spaced (suc room) ((c ∷ cs) ∷ ws) h n =
    let printable = ((h.0).graphic).0 in
    let no_space : (c == b' ') ≡ false = ground (arith, printable) in
    let (word, rest) = word_of-append (c ∷ cs) ws (h.0).graphic in
    rw no_space (
      ap₂ (◌∷◌) word (
        ap (λ r. split_words room (skip_blanks r)) rest
        ∙ ap (split_words room) (skip_blanks-spaced ws h.1)
        ∙ split_words-spaced room ws h.1 (omega arith)))

take_long : (xs : List ℕ) (n : ℕ) → length xs ≤ n → take n xs ≡ xs
take_long [] zero h = refl
take_long [] (suc n) h = refl
take_long (x ∷ xs) zero h = absurd (omega arith)
take_long (x ∷ xs) (suc n) h = ap (◌∷◌ x) (take_long xs n (omega arith))

-- The loop over `argv` joins the words, as long as they fit the buffer with its NUL.
command_string-spaced :
    (cmdstr : List ℕ) (ws : List (List ℕ))
    → length (cmdstr ++ spaced ws) < control_msg_buf_len
    → command_string cmdstr ws ≡ some (cmdstr ++ spaced ws)
unfolding command_string add_arg
command_string-spaced cmdstr [] n = rw append-nil refl
command_string-spaced cmdstr (w ∷ ws) n =
    let grouped : cmdstr ++ b' ' ∷ (w ++ spaced ws) ≡ (cmdstr ++ b' ' ∷ w) ++ spaced ws =
      simp append_assoc in
    let small : length ((cmdstr ++ b' ' ∷ w) ++ spaced ws) < control_msg_buf_len =
      subst (λ l. length l < control_msg_buf_len) grouped n in
    let joined = length-append (cmdstr ++ b' ' ∷ w) (spaced ws) in
    let fits : ltb control_msg_buf_len (length (cmdstr ++ b' ' ∷ w)) ≡ false =
      ground (arith, joined, small) in
    let whole : take (control_msg_buf_len - 1) (cmdstr ++ b' ' ∷ w) ≡ cmdstr ++ b' ' ∷ w =
      take_long _ (control_msg_buf_len - 1) (omega (arith, joined, small)) in
    let added : add_arg cmdstr w ≡ some (cmdstr ++ b' ' ∷ w) = rw (fits, whole) refl in
    rw (added, command_string)
      (command_string-spaced (cmdstr ++ b' ' ∷ w) ws small ∙ ap some (sym grouped))

-- Up to seven words of printable characters that fit the buffer with a space before each arrive at
-- the daemon as they were given to lixyctl.
pub strsplit-command_string :
    (ws : List (List ℕ))
    → All IsWord ws
    → length ws < control_args_max
    → length (spaced ws) < control_msg_buf_len
    → (line : List ℕ) × (command_string [] ws ≡ some line)
      × (strsplit line control_args_max ≡ some ws)
unfolding strsplit
strsplit-command_string ws h few short =
    let split = split_words-spaced control_args_max ws h (omega arith) in
    let room : leb control_args_max (length ws) ≡ false = ground arith in
    (spaced ws, command_string-spaced [] ws short, rw split (rw room refl))
