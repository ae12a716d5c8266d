-- ===== src/Adm/Tests.antt =====
-- lib/adm.js: edits, writes and the history on a small shard.
use manatee.Base.{
  ℕ, ◌+◌, Text, codes, ◌≡◌, ◌↔◌, refl, List, [], ◌∷◌, ◌++◌, length, none, some, arith, Outcome, ok,
}
use manatee.Adm.Samples.{shard, taken_over}
use manatee.Adm.Edits.{State, apply, freeze, freezes, unfreezes, reaps}
use manatee.Adm.Store.Memory.{memory, memory-IsLawful, Memory, write_node}
use manatee.Adm.Store.Sessions.{
  reads, writes, Event, replay, run, put_state, put_edited, get_state, step,
}
use manatee.Adm.Store.Serial.{opened, trail, run_serial}
use manatee.Adm.Store.Stale.{stale_write_refused}
use manatee.Adm.History.{Entry, annotate_states}
use manatee.Adm.History.Legal.{IsFine, Legal, annotate_states-Legal_iff}
unfoldable use manatee.Base.{text_dec}

abbrev start : Memory
start = record { node = shard; version = 7; past = shard ∷ [] }

-- Two commands that read the same state; the second to write it is refused.
abbrev race : List Event
race =
    reads 0 ∷ reads 1 ∷ writes 0 (freezes (codes "today") (codes "work")) ∷ writes 1 unfreezes ∷ []

run_serial_example :
    let w = run memory race (opened memory start) in
    (now : State) × (replay w.written shard ≡ some now)
    × (memory.read w.store ≡ some (now, 7 + length w.written))
    × (memory.history w.store ≡ (shard ∷ []) ++ trail w.written shard)
run_serial_example = run_serial memory start shard 7 race memory-IsLawful refl

abbrev freezing : List Event
freezing = reads 1 ∷ writes 1 (freezes (codes "today") (codes "work")) ∷ []

stale_write_refused_example :
    let w = run memory (reads 0 ∷ freezing) (opened memory start) in
    put_state memory 0 (reaps (codes "zone-aaaa-1") []) w ≡ w
unfolding run step get_state put_state put_edited write_node freeze apply
stale_write_refused_example =
    stale_write_refused memory start shard 7 0 (reaps (codes "zone-aaaa-1") []) [] freezing
      memory-IsLawful refl (refl, (tt, tt)) (λ e. (omega arith))

annotate_states-Legal_iff_example :
    IsFine (annotate_states taken_over shard) ↔ Legal shard taken_over
annotate_states-Legal_iff_example = annotate_states-Legal_iff taken_over shard

Legal-step : Legal shard taken_over
unfolding annotate_states text_dec
Legal-step = (annotate_states-Legal_iff taken_over shard).0 refl

abbrev entry : ℕ → State → Entry
entry time s = record {
  time = some time;
  zk_seq = some (codes "0000000001");
  action = none;
  state = some s;
}

abbrev fetched : Text → Outcome Text (ℕ × State)
fetched name = ok (5, shard)
