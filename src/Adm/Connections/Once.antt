-- ===== src/Adm/Connections/Once.antt =====
-- lib/adm.js: each of the two waits answers once, and in time.
use manatee.Base.{
  Text, ◌≡◌, ◌≢◌, ◌⊎◌, ◌≤◌, inl, inr, refl, List, [], ◌∷◌, none, some, true, false, arith, length,
}
use manatee.Adm.Connections.{
  ZkWait, ZkEvent, a_client, no_client, connected, disconnected, zk_error, ten_seconds, connecting,
  drop_client, heard_connected, time_out, zk_step, zk_run, PgWait, PgEvent, over, opened, queried,
  one_second, querying, on_opened, answer_once, pg_step, pg_run,
}

-- Nobody was answered yet, the caller has the client, or the caller was told that there is none; in the
-- last case a client that still connects is closed.
abbrev pub IsWaiting : ZkWait → Type 0
IsWaiting w = (w.answers ≡ []) × (w.timer ≡ true) × (w.on_connected ≡ true) × (w.closed ≡ false)

abbrev pub HasClient : ZkWait → Type 0
HasClient w = (w.answers ≡ a_client ∷ []) × (w.on_connected ≡ false) × (w.closed ≡ false)

abbrev pub HasNone : ZkWait → Type 0
HasNone w =
    ((e : Text) × (w.answers ≡ no_client e ∷ []))
    × (w.timer ≡ false)
    × ((w.on_connected ≡ true) ⊎ (w.closed ≡ true))

abbrev pub IsValid : ZkWait → Type 0
IsValid w = IsWaiting w ⊎ HasClient w ⊎ HasNone w

zk_step-IsValid : (e : ZkEvent) (w : ZkWait) → IsValid w → IsValid (zk_step e w)
unfolding zk_step heard_connected time_out drop_client
zk_step-IsValid connected w (inl v) = ground arith
zk_step-IsValid connected w (inr (inl v)) = ground arith
zk_step-IsValid connected w (inr (inr v)) = ground arith
zk_step-IsValid disconnected w v = ground arith
zk_step-IsValid zk_error w v = ground arith
zk_step-IsValid ten_seconds w (inl v) = ground arith
zk_step-IsValid ten_seconds w (inr (inl v)) = ground arith
zk_step-IsValid ten_seconds w (inr (inr v)) = ground arith

zk_run-IsValid : (events : List ZkEvent) (w : ZkWait) → IsValid w → IsValid (zk_run events w)
unfolding zk_run
zk_run-IsValid [] w v = v
zk_run-IsValid (e ∷ events) w v =
    ground (arith, zk_run-IsValid events (zk_step e w) (zk_step-IsValid e w v))

IsValid-once :
    (w : ZkWait)
    → IsValid w
    → (length w.answers ≤ 1)
      × (w.timer ≡ false → w.answers ≢ [])
      × ((e : Text) → w.answers ≡ no_client e ∷ [] → w.on_connected ≡ false → w.closed ≡ true)
IsValid-once w (inl v) = ground arith
IsValid-once w (inr (inl v)) = ground arith
IsValid-once w (inr (inr ((e, a), t, c))) = ground arith

-- Whatever the client and the timer do, the caller of `createZkClient` is answered once at most, and is
-- answered once the timer has fired; and a client that connects after its caller was told that there is
-- none is closed.
pub zk_run-once :
    (events : List ZkEvent)
    → let w = zk_run events connecting in
      (length w.answers ≤ 1)
      × (w.timer ≡ false → w.answers ≢ [])
      × ((e : Text) → w.answers ≡ no_client e ∷ [] → w.on_connected ≡ false → w.closed ≡ true)
zk_run-once events =
    IsValid-once (zk_run events connecting)
      (zk_run-IsValid events connecting (inl (refl, refl, refl, refl)))

-- A query has one answer at most, and none only while it is open and its timer is set.
abbrev pub IsAsking : PgWait → Type 0
IsAsking w = (length w.answers ≤ 1) × (w.answers ≡ [] → (w.timer ≡ true) × (w.asking_now ≢ over))

pg_step-IsAsking : (e : PgEvent) (w : PgWait) → IsAsking w → IsAsking (pg_step e w)
unfolding pg_step on_opened answer_once
pg_step-IsAsking (opened none) w v = ground arith
pg_step-IsAsking (opened (some x)) w v = ground arith
pg_step-IsAsking (queried x) w v = ground arith
pg_step-IsAsking one_second w v = ground arith

pg_run-IsAsking : (events : List PgEvent) (w : PgWait) → IsAsking w → IsAsking (pg_run events w)
unfolding pg_run
pg_run-IsAsking [] w v = v
pg_run-IsAsking (e ∷ events) w v = pg_run-IsAsking events (pg_step e w) (pg_step-IsAsking e w v)

-- Whatever Postgres and the timer do, the caller of `queryPg` is answered once at most, and is answered
-- once the timer has fired.
pg_run-once :
    (events : List PgEvent)
    → let w = pg_run events querying in (length w.answers ≤ 1) × (w.timer ≡ false → w.answers ≢ [])
pg_run-once events =
    ground (arith, pg_run-IsAsking events querying (ground arith, λ e. (refl, λ q. cc)))
