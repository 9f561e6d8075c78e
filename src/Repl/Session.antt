-- ===== src/Repl/Session.antt =====
-- A write and a read as a client node's commands (`td_cluster_execute`, src/cluster.c).
use tee_dist.Base.{
  ℕ, ◌<◌, ◌≡◌, refl, sym, ap, ◌∙◌, arith, Bool, false, Option, none, some, [], ◌∷◌, ◌++◌, Bytes,
  length, lt→ltb, length-append,
}
use tee_dist.Common.{trim}
use tee_dist.Config.Text.{clip}
use tee_dist.Config.Load.{c_string}
use tee_dist.Crypto.{OpenSsl, OpenSslLaws, same_bytes}
use tee_dist.Cluster.Monad.{Result, ok, failed, Cluster, session_count}
use tee_dist.Cluster.Local.{World, WorldFits, local}
use tee_dist.Cluster.Read.{read_kv}
use tee_dist.Cluster.Write.{write_kv}
use tee_dist.Cluster.ReadBack.{write_value-read_kv}
use tee_dist.Repl.{
  is_break, is_line_end, split_command, consume_timing_flag, without_flag, cmd_bytes, cmd_read,
  cmd_write, value, done, stay, reply_read, reply_write, has_text, execute, execute_command,
  execute_args, execute_keyed, execute_value, execute_write,
}
use tee_dist.Repl.Words.{IsWord, split_command-two, split_command-three}

-- The lines "read <key>" and "write <key> <value>".
abbrev pub read_line : Bytes → Bytes
read_line key = cmd_read ++ (b' ' ∷ key)

abbrev pub write_line : Bytes → Bytes → Bytes
write_line key text = cmd_write ++ (b' ' ∷ (key ++ (b' ' ∷ text)))

-- A text that a line can carry as a value: not empty, with no end of line and no NUL, no spaces around it, and with
-- a last word that is not the timing flag.
pub record IsValue (text : Bytes) : Type 0 where
  pub word : IsWord is_line_end text
  pub plain : c_string text ≡ text
  pub trimmed : trim text ≡ text
  pub untimed : consume_timing_flag text ≡ (false, text)

cmd_write-IsWord : IsWord is_break cmd_write
cmd_write-IsWord = record {
  head = b'w';
  tail = b'r' ∷ b'i' ∷ b't' ∷ b'e' ∷ [];
  is = refl;
  none_of = (refl, (refl, (refl, (refl, (refl, tt)))));
}

cmd_read-IsWord : IsWord is_break cmd_read
cmd_read-IsWord = record {
  head = b'r';
  tail = b'e' ∷ b'a' ∷ b'd' ∷ [];
  is = refl;
  none_of = (refl, (refl, (refl, (refl, tt))));
}

clip_short : (line : Bytes) → length line < cmd_bytes → clip cmd_bytes line ≡ line
unfolding clip
clip_short line h = rw (lt→ltb (length line) 512 h) refl

module _ (o : OpenSsl) (control : ℕ → World → Option (Unit {0}) × World) (c : Cluster) where
  execute_short :
      (line : Bytes) (w : World)
      → length line < cmd_bytes
      → execute o local control c line w ≡ execute_command o local control c (split_command line) w
  unfolding execute
  execute_short line w short =
      ap (λ l. execute_command o local control c (split_command l) w) (clip_short line short)

  read_command :
      (key : Bytes) (w : World)
      → execute_command o local control c
          (some (record { cmd = cmd_read; arg1 = some key; arg2 = none }))
          w
        ≡ reply_read key (read_kv o local c key w)
  unfolding execute_command execute_args execute_keyed same_bytes without_flag has_text
  read_command key w = refl

  write_command :
      (key text : Bytes) (w : World)
      → execute_command o local control c
          (some (record { cmd = cmd_write; arg1 = some key; arg2 = some text }))
          w
        ≡ execute_write o local control c false key (some (consume_timing_flag text).1) w
  unfolding execute_command execute_args execute_keyed same_bytes without_flag
  write_command key text w = refl

  value_command :
      (key : Bytes) (b : ℕ) (bs : Bytes) (w : World)
      → execute_value o local control c false key (b ∷ bs) w
        ≡ reply_write key (write_kv o local c key (b ∷ bs) w)
  unfolding execute_value
  value_command key b bs w = refl

  write_text :
      (key text : Bytes) (w : World)
      → IsValue text
      → execute_write o local control c false key (some text) w
        ≡ reply_write key (write_kv o local c key text w)
  unfolding execute_write
  write_text key text w v =
      ap (λ x. execute_value o local control c false key x w) (v.trimmed ∙ v.word.is)
      ∙ value_command key v.word.head v.word.tail w
      ∙ ap (λ x. reply_write key (write_kv o local c key x w)) (sym v.word.is)

  -- The read command is the read of the key.
  execute-read_line :
      (key : Bytes) (w : World)
      → IsWord is_break key
      → length (read_line key) < cmd_bytes
      → execute o local control c (read_line key) w ≡ reply_read key (read_kv o local c key w)
  execute-read_line key w k short =
      execute_short (read_line key) w short
      ∙ ap (λ x. execute_command o local control c x w)
          (split_command-two cmd_read key cmd_read-IsWord k)
      ∙ read_command key w

  -- The write command is the write of the value under the key.
  pub execute-write_line :
      (key text : Bytes) (w : World)
      → IsWord is_break key
      → IsValue text
      → length (write_line key text) < cmd_bytes
      → execute o local control c (write_line key text) w
        ≡ reply_write key (write_kv o local c key text w)
  execute-write_line key text w k v short =
      execute_short (write_line key text) w short
      ∙ ap (λ x. execute_command o local control c x w)
          (split_command-three cmd_write key text cmd_write-IsWord k v.word)
      ∙ write_command key (trim text) w
      ∙ ap (λ x. execute_write o local control c false key (some (consume_timing_flag x).1) w)
          v.trimmed
      ∙ ap (λ (x : Bool × Bytes). execute_write o local control c false key (some x.1) w) v.untimed
      ∙ write_text key text w v

write_kv-read_kv :
    (o : OpenSsl) (laws : OpenSslLaws o) (c : Cluster)
    → 0 < session_count c
    → (key text : Bytes) (w : World) (rule : ℕ) (w' : World) → WorldFits c w
    → write_kv o local c key text w ≡ (ok rule, w')
    → (w'' : World) × (read_kv o local c key w' ≡ (ok (some text), w''))
unfolding write_kv
write_kv-read_kv o laws c pos key text w rule w' fits e =
    write_value-read_kv o laws c pos key text false w rule w' fits e

reply_write_done :
    {W : Type 0} (key : Bytes) (result : Result ℕ × W) (rule : ℕ) (w : W)
    → reply_write key result ≡ (stay (done key rule), w)
    → result ≡ (ok rule, w)
unfolding reply_write
reply_write_done key (ok found, v) rule w h = cc
reply_write_done key (failed e, v) rule w h = absurd cc

reply_read_value :
    {W : Type 0} (key bytes : Bytes) (w : W)
    → c_string bytes ≡ bytes
    → reply_read key (ok (some bytes), w) ≡ (stay (value key bytes), w)
unfolding reply_read
reply_read_value key bytes w plain = rw plain refl

-- If the line "write <key> <value>" answers that the write is done, then the line "read <key>" prints the
-- key with this value, provided that no other client acts, that the lines fit the command buffer, that the
-- key is a word and the value a text that a line can carry, and that the key's primary has PRIME slots.
pub execute_write-read :
    (o : OpenSsl) (laws : OpenSslLaws o) (control : ℕ → World → Option (Unit {0}) × World)
    (c : Cluster)
    → 0 < session_count c
    → (key text : Bytes) (w : World) (rule : ℕ) (w' : World) → WorldFits c w
    → IsWord is_break key
    → IsValue text
    → length (write_line key text) < cmd_bytes
    → execute o local control c (write_line key text) w ≡ (stay (done key rule), w')
    → (w'' : World) × (execute o local control c (read_line key) w' ≡ (stay (value key text), w''))
execute_write-read o laws control c pos key text w rule w' fits k v short wrote =
    let command = execute-write_line o control c key text w k v short in
    let written =
      reply_write_done key (write_kv o local c key text w) rule w' (sym command ∙ wrote) in
    let (w'', reads) = write_kv-read_kv o laws c pos key text w rule w' fits written in
    let fewer : length (read_line key) < cmd_bytes =
      omega (arith, length-append key (b' ' ∷ text)) in
    (
      w'',
      execute-read_line o control c key w' k fewer
          ∙ ap (reply_read key) reads
          ∙ reply_read_value key text w'' v.plain,
    )
