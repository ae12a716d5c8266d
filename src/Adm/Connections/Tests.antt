-- ===== src/Adm/Connections/Tests.antt =====
-- A client that connects after its caller has given up.
use manatee.Base.{◌≡◌, ◌≢◌, ◌≤◌, refl, List, [], ◌∷◌, true, false, length}
use manatee.Adm.Connections.{
  ZkEvent, connected, ten_seconds, disconnected, connecting, no_client, zk_run, zk_step,
  drop_client,
}
use manatee.Adm.Connections.Once.{zk_run-once}

abbrev late : List ZkEvent
late = ten_seconds ∷ connected ∷ disconnected ∷ []

late_is_answered :
    let w = zk_run late connecting in
    (length w.answers ≤ 1)
    × (w.timer ≡ false → w.answers ≢ [])
    × ((e : _) → w.answers ≡ no_client e ∷ [] → w.on_connected ≡ false → w.closed ≡ true)
late_is_answered = zk_run-once late

late_closed : (zk_run late connecting).closed ≡ true
unfolding zk_run zk_step drop_client
late_closed = refl

-- A server that drops the connection ends a command that has its client.
dropped_crashes : (zk_run (connected ∷ disconnected ∷ []) connecting).crashed ≡ true
unfolding zk_run zk_step
dropped_crashes = refl
