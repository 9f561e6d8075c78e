-- ===== src/Repl.antt =====
-- The commands of a client node: `td_split_command`, `td_consume_timing_flag` and `td_cluster_execute`
-- (src/cluster.c). What a command prints is a value; the lines of a latency profile are left out, since a
-- timed command calls the variant of its operation that does the same with a profile.
pub mod Words
pub mod Session
use tee_dist.Base.{
  ℕ, zero, suc, ◌+◌, ◌==◌, if◌then◌else◌, Bool, true, false, ◌||◌, Option, none, some, List, [],
  ◌∷◌, ◌++◌, Bytes,
}
use tee_dist.Common.{is_space, trim, trim_end}
use tee_dist.Config.Text.{clip}
use tee_dist.Config.Load.{c_string}
use tee_dist.Crypto.{OpenSsl, same_bytes}
use tee_dist.Cluster.Monad.{Error, Result, ok, failed, Transport, Cluster, session_count, M}
use tee_dist.Cluster.Read.{read_kv}
use tee_dist.Cluster.Write.{write_kv, update_kv, delete_kv}

-- `TD_CMD_BYTES`
abbrev pub cmd_bytes : ℕ
cmd_bytes = 512

-- The characters of the strings " \t\r\n" and "\r\n".
abbrev pub is_line_end : ℕ → Bool
is_line_end b = b == 13 || b == 10

abbrev pub is_break : ℕ → Bool
is_break b = b == b' ' || (b == 9 || is_line_end b)

-- `strtok_r` with a set of separators: those in front are passed over, and the token ends in front of
-- the next one, which is dropped. The token and the rest, or `NULL` at the end of the string.
unfoldable pub skip_separators : (ℕ → Bool) → Bytes → Bytes
skip_separators sep [] = []
skip_separators sep (b ∷ bs) = let rest = skip_separators sep bs in if sep b then rest else b ∷ bs

unfoldable pub token : (ℕ → Bool) → Bytes → Bytes × Bytes
token sep [] = ([], [])
token sep (b ∷ bs) = let (word, rest) = token sep bs in if sep b then ([], bs) else (b ∷ word, rest)

unfoldable pub token_of : (ℕ → Bool) → Bytes → Option (Bytes × Bytes)
unfolding token
token_of sep [] = none
token_of sep (b ∷ bs) = some (token sep (b ∷ bs))

unfoldable pub strtok : (ℕ → Bool) → Bytes → Option (Bytes × Bytes)
unfolding skip_separators token_of
strtok sep line = token_of sep (skip_separators sep line)

-- A command with its arguments.
pub record Command : Type 0 where
  pub cmd : Bytes
  pub arg1 : Option Bytes
  pub arg2 : Option Bytes

unfoldable pub trimmed_token : Option (Bytes × Bytes) → Option Bytes
unfolding trim
trimmed_token none = none
trimmed_token (some (word, rest)) = some (trim word)

unfoldable pub split_args : Bytes → Option (Bytes × Bytes) → Command
unfolding trimmed_token strtok
split_args cmd none = record { cmd = cmd; arg1 = none; arg2 = none }
split_args cmd (some (arg1, rest)) = record {
  cmd = cmd;
  arg1 = some arg1;
  arg2 = trimmed_token (strtok is_line_end rest);
}

unfoldable pub split_words : Option (Bytes × Bytes) → Option Command
unfolding split_args strtok
split_words none = none
split_words (some (cmd, rest)) = some (split_args cmd (strtok is_break rest))

-- `td_split_command`; `none` is -1.
unfoldable pub split_command : Bytes → Option Command
unfolding split_words strtok
split_command line = split_words (strtok is_break line)

abbrev pub has_space : Bytes → Bool
has_space [] = false
has_space (b ∷ bs) = is_space b || has_space bs

-- A text up to its last space, and the word behind it.
unfoldable pub last_word : Bytes → Bytes × Bytes
last_word [] = ([], [])
last_word (b ∷ bs) =
    let (front, word) = last_word bs in
    if has_space bs then (b ∷ front, word) else if is_space b then (b ∷ [], bs) else ([], b ∷ bs)

-- "-t"
abbrev pub timing_flag : Bytes
timing_flag = b'-' ∷ b't' ∷ []

-- `td_consume_timing_flag`: whether the last word is the flag, and the trimmed text without it.
unfoldable pub consume_timing_flag : Bytes → Bool × Bytes
unfolding last_word trim trim_end same_bytes
consume_timing_flag text =
    let trimmed = trim text in
    let (front, word) = last_word trimmed in
    if same_bytes trimmed timing_flag
    then (true, [])
    else if same_bytes word timing_flag
    then (true, trim_end front)
    else (false, trimmed)

-- The second argument without the flag.
unfoldable pub without_flag : Option Bytes → Option Bytes
unfolding consume_timing_flag
without_flag none = none
without_flag (some text) = some (consume_timing_flag text).1

-- What a command prints.
pub data Output : Type 0 where
  nothing help status : Output
  eviction_requested eviction_failed : Output
  missing_key missing_value extra_argument : Output
  failure : Error → Output
  value : Bytes → Bytes → Output
  not_found : Bytes → Output
  done : Bytes → ℕ → Output
  deleted : Bytes → ℕ → Output
  unknown_command : Bytes → Output

-- The result of `td_cluster_execute`: 0, or 1 with what was printed.
pub data Reply : Type 0 where
  leave : Reply
  stay : Output → Reply

abbrev pub cmd_quit : Bytes
cmd_quit = b'q' ∷ b'u' ∷ b'i' ∷ b't' ∷ []

abbrev pub cmd_exit : Bytes
cmd_exit = b'e' ∷ b'x' ∷ b'i' ∷ b't' ∷ []

abbrev pub cmd_help : Bytes
cmd_help = b'h' ∷ b'e' ∷ b'l' ∷ b'p' ∷ []

abbrev pub cmd_status : Bytes
cmd_status = b's' ∷ b't' ∷ b'a' ∷ b't' ∷ b'u' ∷ b's' ∷ []

abbrev pub cmd_evict : Bytes
cmd_evict = b'e' ∷ b'v' ∷ b'i' ∷ b'c' ∷ b't' ∷ []

abbrev pub cmd_read : Bytes
cmd_read = b'r' ∷ b'e' ∷ b'a' ∷ b'd' ∷ []

abbrev pub cmd_write : Bytes
cmd_write = b'w' ∷ b'r' ∷ b'i' ∷ b't' ∷ b'e' ∷ []

abbrev pub cmd_update : Bytes
cmd_update = b'u' ∷ b'p' ∷ b'd' ∷ b'a' ∷ b't' ∷ b'e' ∷ []

abbrev pub cmd_delete : Bytes
cmd_delete = b'd' ∷ b'e' ∷ b'l' ∷ b'e' ∷ b't' ∷ b'e' ∷ []

module _ {W : Type 0} where
  -- What is printed of the result of a read. The value is printed as a C string.
  unfoldable pub reply_read : Bytes → Result (Option Bytes) × W → Reply × W
  unfolding c_string
  reply_read key (ok (some bytes), w) = (stay (value key (c_string bytes)), w)
  reply_read key (ok none, w) = (stay (not_found key), w)
  reply_read key (failed e, w) = (stay (failure e), w)

  unfoldable pub reply_write : Bytes → Result ℕ × W → Reply × W
  reply_write key (ok rule, w) = (stay (done key rule), w)
  reply_write key (failed e, w) = (stay (failure e), w)

  unfoldable pub reply_delete : Bytes → Result ℕ × W → Reply × W
  reply_delete key (ok rule, w) = (stay (deleted key rule), w)
  reply_delete key (failed e, w) = (stay (failure e), w)

-- Whether there is a second argument with text.
unfoldable pub has_text : Option Bytes → Bool
unfolding trim
has_text none = false
has_text (some text) = elim (trim text) [ [] ↦ false | b ∷ bs ↦ true ]

-- `control` is the session's function of that name, for `TD_WIRE_EVICT`.
module _ {W : Type 0} (o : OpenSsl) (t : Transport W) (control : ℕ → W → Option (Unit {0}) × W)
    (c : Cluster) where
  -- The loop over the sessions, for those from `idx` on.
  unfoldable pub evict_sessions : ℕ → ℕ → W → Reply × W
  evict_sessions zero idx w = (stay eviction_requested, w)
  evict_sessions (suc n) idx w =
      let (asked, w') = control idx w in
      let rest = evict_sessions n (idx + 1) w' in
      elim asked [ none ↦ (stay eviction_failed, w') | some answered ↦ rest ]

  -- `write` and `update` of a trimmed value.
  unfoldable pub execute_value : Bool → Bytes → Bytes → W → Reply × W
  unfolding reply_write
  execute_value update key [] w = (stay missing_value, w)
  execute_value update key (b ∷ bs) w =
      reply_write key
        (if update then update_kv o t c key (b ∷ bs) w else write_kv o t c key (b ∷ bs) w)

  -- `write` and `update` with their second argument.
  unfoldable pub execute_write : Bool → Bytes → Option Bytes → W → Reply × W
  unfolding execute_value trim
  execute_write update key none w = (stay missing_value, w)
  execute_write update key (some text) w = execute_value update key (trim text) w

  -- The commands that take a key.
  unfoldable pub execute_keyed : Bytes → Bytes → Option Bytes → W → Reply × W
  unfolding same_bytes has_text reply_read reply_delete execute_write
  execute_keyed cmd key arg2 w =
      if same_bytes cmd cmd_read
      then (if has_text arg2
          then (stay extra_argument, w)
          else reply_read key (read_kv o t c key w))
      else if same_bytes cmd cmd_write
      then execute_write false key arg2 w
      else if same_bytes cmd cmd_update
      then execute_write true key arg2 w
      else if same_bytes cmd cmd_delete
      then (if has_text arg2
          then (stay extra_argument, w)
          else reply_delete key (delete_kv o t c key w))
      else (stay (unknown_command cmd), w)

  unfoldable pub execute_args : Bytes → Option Bytes → Option Bytes → W → Reply × W
  unfolding execute_keyed without_flag
  execute_args cmd none arg2 w = (stay missing_key, w)
  execute_args cmd (some key) arg2 w = execute_keyed cmd key (without_flag arg2) w

  unfoldable pub execute_command : Option Command → W → Reply × W
  unfolding same_bytes evict_sessions execute_args
  execute_command none w = (stay nothing, w)
  execute_command (some line) w =
      if same_bytes line.cmd cmd_quit || same_bytes line.cmd cmd_exit
      then (leave, w)
      else if same_bytes line.cmd cmd_help
      then (stay help, w)
      else if same_bytes line.cmd cmd_status
      then (stay status, w)
      else if same_bytes line.cmd cmd_evict
      then evict_sessions (session_count c) 0 w
      else execute_args line.cmd line.arg1 line.arg2 w

  -- `td_cluster_execute`
  unfoldable pub execute : Bytes → W → Reply × W
  unfolding execute_command split_command clip
  execute line w = execute_command (split_command (clip cmd_bytes line)) w
