-- ===== src/Adm/Store/Memory.antt =====
-- A store in memory that meets the laws.
use manatee.Base.{ℕ, suc, ◌==◌, List, [], ◌∷◌, ◌++◌, Option, none, some, if◌then◌else◌, arith}
use manatee.Adm.Edits.{State}
use manatee.Adm.Store.{Zk, IsLawful}

pub record Memory : Type 0 where
  pub node : State
  pub version : ℕ
  pub past : List State

unfoldable pub write_node : State → ℕ → Memory → Option Memory
write_node c v m =
    if m.version == v
    then some (record { node = c; version = suc v; past = m.past ++ c ∷ [] })
    else none

abbrev pub memory : Zk
memory = record {
  Store = Memory;
  read = λ m. some (m.node, m.version);
  history = λ m. m.past;
  update = write_node;
}

pub memory-IsLawful : IsLawful memory
unfolding write_node
memory-IsLawful = record {
  update-version = λ c v s t h. (s.node, ground arith);
  read-update = λ c v s t h. ground arith;
  history-update = λ c v s t h. ground arith;
}
