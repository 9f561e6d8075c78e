-- ===== src/Repl/Words.antt =====
-- What `td_split_command` (src/cluster.c) makes of a line that is put together from words.
use tee_dist.Base.{ℕ, ◌≡◌, refl, sym, ap, ◌∙◌, Bool, true, false, none, some, [], ◌∷◌, ◌++◌, Bytes}
use tee_dist.Common.{trim}
use tee_dist.Repl.{
  is_break, is_line_end, skip_separators, token, token_of, strtok, trimmed_token, split_args,
  split_words, split_command,
}

-- No byte of a word is a separator.
abbrev pub NoneOf : (ℕ → Bool) → Bytes → Type 0
NoneOf sep [] = Unit {0}
NoneOf sep (b ∷ bs) = (sep b ≡ false) × NoneOf sep bs

module _ (sep : ℕ → Bool) where
  -- A word that reaches to the end.
  token_all : (word : Bytes) → NoneOf sep word → token sep word ≡ (word, [])
  unfolding token
  token_all [] all = refl
  token_all (b ∷ bs) all = rw (all.0, token_all bs all.1) refl

  -- A word in front of a separator.
  token_front :
      (word : Bytes) (s : ℕ) (rest : Bytes)
      → NoneOf sep word
      → sep s ≡ true
      → token sep (word ++ (s ∷ rest)) ≡ (word, rest)
  unfolding token
  token_front [] s rest all e = rw e refl
  token_front (b ∷ bs) s rest all e = rw (all.0, token_front bs s rest all.1 e) refl

  strtok_all : (b : ℕ) (bs : Bytes) → NoneOf sep (b ∷ bs) → strtok sep (b ∷ bs) ≡ some (b ∷ bs, [])
  unfolding strtok skip_separators token_of
  strtok_all b bs all = rw (all.0, token_all (b ∷ bs) all) refl

  strtok_front :
      (b : ℕ) (bs : Bytes) (s : ℕ) (rest : Bytes)
      → NoneOf sep (b ∷ bs)
      → sep s ≡ true
      → strtok sep ((b ∷ bs) ++ (s ∷ rest)) ≡ some (b ∷ bs, rest)
  unfolding strtok skip_separators token_of
  strtok_front b bs s rest all e = rw (all.0, token_front (b ∷ bs) s rest all e) refl

-- A word with at least one byte, and no separator.
pub record IsWord (sep : ℕ → Bool) (word : Bytes) : Type 0 where
  pub head : ℕ
  pub tail : Bytes
  pub is : word ≡ head ∷ tail
  pub none_of : NoneOf sep (head ∷ tail)

module _ (sep : ℕ → Bool) where
  strtok-word : (word : Bytes) → IsWord sep word → strtok sep word ≡ some (word, [])
  strtok-word word w =
      ap (strtok sep) w.is
      ∙ strtok_all sep w.head w.tail w.none_of
      ∙ ap (λ l. some (l, [])) (sym w.is)

  strtok-append :
      (word : Bytes) (s : ℕ) (rest : Bytes)
      → IsWord sep word
      → sep s ≡ true
      → strtok sep (word ++ (s ∷ rest)) ≡ some (word, rest)
  strtok-append word s rest w e =
      ap (λ l. strtok sep (l ++ (s ∷ rest))) w.is
      ∙ strtok_front sep w.head w.tail s rest w.none_of e
      ∙ ap (λ l. some (l, rest)) (sym w.is)

-- A line of two words.
pub split_command-two :
    (cmd key : Bytes)
    → IsWord is_break cmd
    → IsWord is_break key
    → split_command (cmd ++ (b' ' ∷ key))
      ≡ some (record { cmd = cmd; arg1 = some key; arg2 = none })
unfolding split_command split_words split_args trimmed_token strtok token_of skip_separators
split_command-two cmd key w k =
    ap split_words (strtok-append is_break cmd b' ' key w refl)
    ∙ ap (λ x. some (split_args cmd x)) (strtok-word is_break key k)

-- A line of two words and a text.
pub split_command-three :
    (cmd key text : Bytes)
    → IsWord is_break cmd
    → IsWord is_break key
    → IsWord is_line_end text
    → split_command (cmd ++ (b' ' ∷ (key ++ (b' ' ∷ text))))
      ≡ some (record { cmd = cmd; arg1 = some key; arg2 = some (trim text) })
unfolding split_command split_words split_args trimmed_token
split_command-three cmd key text w k x =
    ap split_words (strtok-append is_break cmd b' ' (key ++ (b' ' ∷ text)) w refl)
    ∙ ap (λ x. some (split_args cmd x)) (strtok-append is_break key b' ' text k refl)
    ∙ ap (λ x. some (record { cmd = cmd; arg1 = some key; arg2 = trimmed_token x }))
        (strtok-word is_line_end text x)
