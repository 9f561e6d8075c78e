-- ===== src/Tests/Commands.antt =====
-- The witness of the property of commands: "write k v" and "read k" on the toy cluster.
use tee_dist.Base.{ℕ, ◌≡◌, ◌∙◌, refl, ap, arith, Option, none, [], ◌∷◌, Bytes}
use tee_dist.Cluster.Local.{World, local}
use tee_dist.Cluster.Write.{write_kv}
use tee_dist.Cluster.Monad.{ok}
use tee_dist.Common.{trim, trim_start, trim_end}
use tee_dist.Config.Load.{c_string}
use tee_dist.Crypto.{same_bytes}
use tee_dist.Repl.{
  is_break, consume_timing_flag, last_word, value, done, stay, reply_write, execute,
}
use tee_dist.Repl.Words.{IsWord}
use tee_dist.Repl.Session.{read_line, write_line, IsValue, execute-write_line, execute_write-read}
use tee_dist.Tests.Toy.{toy, toy-OpenSslLaws, toy_cluster, toy_world, toy_world-WorldFits}
use tee_dist.Tests.Writes

-- Sessions that refuse to evict.
abbrev refuses : ℕ → World → Option (Unit {0}) × World
refuses session w = (none, w)

abbrev text : Bytes
text = b'v' ∷ []

key-IsWord : IsWord is_break Writes.key
key-IsWord = record { head = b'k'; tail = []; is = refl; none_of = (refl, tt) }

text-IsValue : IsValue text
unfolding c_string trim trim_start trim_end consume_timing_flag last_word same_bytes
text-IsValue = record {
  word = record { head = b'v'; tail = []; is = refl; none_of = (refl, tt) };
  plain = refl;
  trimmed = refl;
  untimed = refl;
}

kv_ok : write_kv toy local toy_cluster Writes.key text toy_world ≡ (ok 1, Writes.written.1)
unfolding write_kv
kv_ok = Writes.written_ok

answer_done : (w : World) → reply_write Writes.key (ok 1, w) ≡ (stay (done Writes.key 1), w)
unfolding reply_write
answer_done w = refl

line_done :
    execute toy local refuses toy_cluster (write_line Writes.key text) toy_world
    ≡ (stay (done Writes.key 1), Writes.written.1)
line_done =
    execute-write_line toy refuses toy_cluster Writes.key text toy_world key-IsWord text-IsValue
      (omega arith)
    ∙ ap (reply_write Writes.key) kv_ok
    ∙ answer_done Writes.written.1

execute_write-read_example :
    (w : World) × (execute toy local refuses toy_cluster (read_line Writes.key) Writes.written.1
      ≡ (stay (value Writes.key text), w))
execute_write-read_example =
    execute_write-read toy toy-OpenSslLaws refuses toy_cluster (omega arith) Writes.key text
      toy_world 1 Writes.written.1 toy_world-WorldFits key-IsWord text-IsValue (omega arith)
      line_done
