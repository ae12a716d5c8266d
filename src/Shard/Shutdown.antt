-- ===== src/Shard/Shutdown.antt =====
-- lib/shard.js: `shutdown`, with `status` of lib/zookeeperMgr.js.
use manatee.Base.{
  Text, codes, text_eq, ◌≡◌, ◌⊎◌, ◌≤◌, refl, List, [], ◌∷◌, true, if◌then◌else◌, Bool-cases, inl,
  inr, arith,
}
use manatee.Zookeeper.Sessions.{Client, Sessions, Event, close, created, step, run}
use manatee.Zookeeper.Sessions.One.{count, opened, run-one}

-- `status`, with the name that the client gives its state.
unfoldable pub zk_status : (Client → Text) → Sessions → Text
zk_status state_name s = elim s.clients [ [] ↦ codes "UNINIT" | c ∷ older ↦ state_name c ]

-- Whether the callback runs by itself, or when the client that is closed is disconnected.
pub data Ending : Type 0 where
  at_once on_disconnected : Ending

-- `shutdown`
unfoldable pub shutdown : (Client → Text) → Sessions → Ending × Sessions
unfolding zk_status step
shutdown state_name s =
    if text_eq (zk_status state_name s) (codes "SYNC_CONNECTED")
    then (on_disconnected, step close s)
    else (at_once, s)

-- Only a client that is open says that it is connected.
abbrev pub IsHonest : (Client → Text) → Type 0
IsHonest state_name =
    (c : Client) → text_eq (state_name c) (codes "SYNC_CONNECTED") ≡ true → c.is_open ≡ true

close-opened :
    (state_name : Client → Text) (s : Sessions) (clients : List Client)
    → IsHonest state_name
    → s.clients ≡ clients
    → count opened clients ≤ 1
    → text_eq (zk_status state_name s) (codes "SYNC_CONNECTED") ≡ true
    → count opened (step close s).clients ≡ 0
unfolding zk_status step
close-opened state_name s [] honest e n t = rw e refl
close-opened state_name s (c ∷ older) honest e n t = rw e (ground (arith, honest c (rw e at t), n))

-- Whatever has become of the sessions of its manager, a shard that shuts down either calls back at once,
-- and changes nothing, or leaves no client open.
pub shutdown-closes :
    (state_name : Client → Text)
    → IsHonest state_name
    → (events : List Event)
    → let s = run events created in
      (shutdown state_name s ≡ (at_once, s))
      ⊎ (((shutdown state_name s).0 ≡ on_disconnected)
          × (count opened (shutdown state_name s).1.clients ≡ 0))
unfolding shutdown
shutdown-closes state_name honest events =
    let s = run events created in
    elim (Bool-cases (text_eq (zk_status state_name s) (codes "SYNC_CONNECTED"))) [
      | inl e ↦
          inr (rw e (refl, close-opened state_name s s.clients honest refl (run-one events).0 e))
      | inr e ↦ inl (rw e refl)
    ]
