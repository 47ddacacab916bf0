-- ===== src/Db/Workload.antt =====
-- Many writes of different keys to a new database, and then reads of them, as src/main.cpp makes them.
pub mod Steps
pub mod Run
pub mod Main
mod Tests
use tiny_db.Prelude.{
  ℕ, zero, suc, ◌+◌, ◌%◌, ◌^◌, ◌<◌, ◌≤◌, ◌-◌, map, ◌≡◌, ◌≢◌, refl, sym, ap, ◌∙◌, subst, Bool, true,
  false, Option, none, some, List, [], ◌∷◌, ◌++◌, Bytes, length, take, All, ltb, ◌>>=◌,
  if◌then◌else◌, arith, Option-cases, Bool-cases, inl, inr, ◌==◌, ==_iff,
}
use tiny_db.Order.ByteString.{byte_string, bytes_same}
use tiny_db.Assoc
use tiny_db.Assoc.{lookup-insert, remove-absent, lookup-remove_other}
use tiny_db.SkipList.{weight}
use tiny_db.SkipList.Refine.{weight-insert}
use tiny_db.Status.{Status}
use tiny_db.Wal.{Checksum}
use tiny_db.Wal.Records.{log_record}
use tiny_db.Db.Logged.{logged}
use tiny_db.MemTable.{c_str, sizes}
use tiny_db.MemTable.Laws.{lookup}
use tiny_db.Cache.{sharding_index}
use tiny_db.Cache.Shards.{in_shard}
use tiny_db.Lru.Refine.{admit, touch}
use tiny_db.Db.{Options, is_empty}
use tiny_db.Db.Calls.{DbCall, Reply}
use tiny_db.Db.Refine.{Fits}
use tiny_db.Db.Spec.{
  TablesSpec, Spec, put_spec, get_spec, get_cached, get_tabled, after_write, cached, written,
  answer_all_spec,
}

-- A string with a byte, and with no NUL.
pub record IsPlain (bytes : Bytes) : Type 0 where
  pub filled : is_empty bytes ≡ false
  pub whole : c_str bytes ≡ bytes

-- A call of `Put`, with the draws of `rand()` and the clock, and one of `Get`, with the value expected.
pub record Put : Type 0 where
  pub bits : List Bool
  pub now : ℕ
  pub key : Bytes
  pub value : Bytes

pub record Get : Type 0 where
  pub now : ℕ
  pub key : Bytes
  pub ret : Bytes
  pub value : Bytes

abbrev pub put_calls : List Put → List DbCall
put_calls = map (λ p. DbCall.put_call p.bits p.now p.key p.value)

abbrev pub get_calls : List Get → List DbCall
get_calls = map (λ g. DbCall.get_call g.now g.key g.ret)

-- Keys and values that the calls take, and each key once.
abbrev pub IsWorkload : List Put → Type 0
IsWorkload [] = Unit
IsWorkload (p ∷ puts) =
    (IsPlain p.key × IsPlain p.value × (length p.key < 256) × (length p.value < 2 ^ 32 - 1))
    × All (λ r. bytes_same p.key r.key ≡ false) puts
    × IsWorkload puts

abbrev pub total : List Put → ℕ
total [] = 0
total (p ∷ puts) = length p.key + length p.value + total puts

-- What the last of the calls wrote for a key, and else what was there before.
abbrev pub last_value : Bytes → List Put → Option Bytes → Option Bytes
last_value q [] old = old
last_value q (p ∷ puts) old = last_value q puts (if bytes_same p.key q then some p.value else old)
