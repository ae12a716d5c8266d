-- ===== src/Zookeeper/Sessions/One.antt =====
-- lib/zookeeperMgr.js: there is one client at a time, and one event `init`.
use manatee.Base.{
  ℕ, suc, ◌+◌, ◌≤◌, Text, ◌≡◌, refl, List, [], ◌∷◌, Option, none, some, Bool, true, false, All,
  arith, if◌then◌else◌, zero, Option-cases, inl, inr, ◌==◌,
}
use manatee.Zookeeper.Sessions.{
  Client, Sessions, Event, restart, connected, data_done, expired, reset, data_error, close,
  created, find, update, reset_client, step, restart_from, run, setup_client, on_connected,
  emit_init, on_data, on_expired, close_client, with_client,
}

-- A client that may still be replaced, and one whose connection is open.
abbrev pub replaceable : Client → ℕ
replaceable c = if c.was_reset then 0 else 1

abbrev pub opened : Client → ℕ
opened c = if c.is_open then 1 else 0

abbrev pub count : (Client → ℕ) → List Client → ℕ
count f [] = 0
count f (c ∷ clients) = f c + count f clients

count-update :
    (f : Client → ℕ) (n : ℕ) (c d : Client) (clients : List Client)
    → find n clients ≡ some c
    → (d.number == n) ≡ true
    → count f (update d clients) + f c ≡ count f clients + f d
unfolding find update
count-update f n c d [] e k = ground arith
count-update f n c d (b ∷ clients) e k = ground (arith, count-update f n c d clients)

module _ (P : Client → Type 0) where
  All-update : (d : Client) (clients : List Client) → All P clients → P d → All P (update d clients)
  unfolding update
  All-update d [] h p = tt
  All-update d (c ∷ clients) h p = ground (arith, All-update d clients h.1 p)

  find-All :
      (n : ℕ) (c : Client) (clients : List Client) → find n clients ≡ some c → All P clients → P c
  unfolding find
  find-All n c [] e h = ground arith
  find-All n c (b ∷ clients) e h = ground (arith, find-All n c clients)

find-number :
    (n : ℕ) (c : Client) (clients : List Client) → find n clients ≡ some c → (c.number == n) ≡ true
unfolding find
find-number n c [] e = ground arith
find-number n c (b ∷ clients) e = ground (arith, find-number n c clients)

-- A connection is open only until its client is replaced, and, as long as the manager is not closed, no
-- less long.
abbrev pub IsSound : Bool → Client → Type 0
IsSound closed c =
    (c.was_reset ≡ true → c.is_open ≡ false)
    × (closed ≡ false → c.was_reset ≡ false → c.is_open ≡ true)

-- One client can be replaced, or a restart is waiting.
pub record IsValid (s : Sessions) : Type 0 where
  pub one : count replaceable s.clients + s.restarts ≡ 1
  pub sound : All (IsSound s.closed) s.clients
  pub once : s.inits ≡ (if s.inited then 1 else 0)

pub reset_client-IsValid :
    (n : ℕ) (c : Client) (s : Sessions)
    → find n s.clients ≡ some c
    → IsValid s
    → IsValid (reset_client c s)
unfolding reset_client
reset_client-IsValid n c s e v =
    let d = record c { is_open = false; was_reset = true } in
    ground (
      arith,
      count-update replaceable n c d s.clients e (find-number n c s.clients e),
      All-update (IsSound s.closed) d s.clients v.sound (ground arith),
    )

on_connected-IsValid :
    (n : ℕ) (c : Client) (s : Sessions)
    → find n s.clients ≡ some c
    → IsValid s
    → IsValid (on_connected c s)
unfolding on_connected
on_connected-IsValid n c s e v =
    let d = record c { set_up = true } in
    ground (
      arith,
      count-update replaceable n c d s.clients e (find-number n c s.clients e),
      All-update (IsSound s.closed) d s.clients v.sound
          (find-All (IsSound s.closed) n c s.clients e v.sound),
    )

on_data-IsValid :
    (n : ℕ) (c : Client) (r : Option Text) (s : Sessions)
    → find n s.clients ≡ some c
    → IsValid s
    → IsValid (on_data c r s)
unfolding on_data emit_init
on_data-IsValid n c none s e v = ground arith
on_data-IsValid n c (some x) s e v =
    reset_client-IsValid n c (record s { setup_state = data_error }) e
      (record { one = v.one; sound = v.sound; once = v.once })

setup_client-IsValid :
    (n : ℕ) (s : Sessions) → s.restarts ≡ n → IsValid s → IsValid (restart_from n s)
unfolding restart_from setup_client
setup_client-IsValid zero s e v = v
setup_client-IsValid (suc n) s e v = ground arith

All-closed :
    (closed : Bool) (clients : List Client)
    → All (IsSound closed) clients
    → All (IsSound true) clients
All-closed closed [] h = tt
All-closed closed (c ∷ clients) h = ground (arith, All-closed closed clients)

close_client-IsValid :
    (cs : List Client) (s : Sessions) → s.clients ≡ cs → IsValid s → IsValid (close_client s)
unfolding close_client
close_client-IsValid [] s e v = ground arith
close_client-IsValid (c ∷ cs) s e v = ground (arith, All-closed s.closed cs)

with_client-IsValid :
    (n : ℕ) (f : Client → Sessions → Sessions) (s : Sessions)
    → IsValid s
    → ((c : Client) → find n s.clients ≡ some c → IsValid (f c s))
    → IsValid (with_client n f s)
unfolding with_client
with_client-IsValid n f s v h = elim (Option-cases (find n s.clients)) [
  | inl e ↦ rw (with_client, e) v
  | inr (c, e) ↦ rw (with_client, e) (h c e)
]

if-IsValid :
    (b : Bool) (f g : Sessions → Sessions) (s : Sessions)
    → IsValid (f s)
    → IsValid (g s)
    → IsValid ((if b then f else g) s)
if-IsValid true f g s h k = h
if-IsValid false f g s h k = k

on_expired-IsValid :
    (n : ℕ) (c : Client) (s : Sessions)
    → find n s.clients ≡ some c
    → IsValid s
    → IsValid (on_expired c s)
unfolding on_expired
on_expired-IsValid n c s e v = ground (arith, reset_client-IsValid n c s e v)

step-IsValid : (e : Event) (s : Sessions) → IsValid s → IsValid (step e s)
unfolding step
step-IsValid restart s v = setup_client-IsValid s.restarts s refl v
step-IsValid (connected n) s v =
    with_client-IsValid n on_connected s v (λ c e. on_connected-IsValid n c s e v)
step-IsValid (data_done n r) s v =
    with_client-IsValid n (λ c. if c.set_up then on_data c r else λ t. t) s v
      (λ c e. if-IsValid c.set_up (on_data c r) (λ t. t) s (on_data-IsValid n c r s e v) v)
step-IsValid (expired n) s v =
    with_client-IsValid n on_expired s v (λ c e. on_expired-IsValid n c s e v)
step-IsValid (reset n) s v =
    with_client-IsValid n reset_client s v (λ c e. reset_client-IsValid n c s e v)
step-IsValid close s v = close_client-IsValid s.clients s refl v

run-IsValid : (events : List Event) (s : Sessions) → IsValid s → IsValid (run events s)
unfolding run
run-IsValid [] s v = v
run-IsValid (e ∷ events) s v = run-IsValid events (step e s) (step-IsValid e s v)

created-IsValid : IsValid created
created-IsValid = record { one = refl; sound = tt; once = refl }

opened-le :
    (closed : Bool) (clients : List Client)
    → All (IsSound closed) clients
    → (count opened clients ≤ count replaceable clients)
      × (closed ≡ false → count opened clients ≡ count replaceable clients)
opened-le closed [] h = (omega arith, λ _. refl)
opened-le closed (c ∷ clients) h = ground (arith, opened-le closed clients h.1)

-- Whatever becomes of its sessions, a manager has one open client at most, and exactly one, or a restart
-- that waits in place of it, as long as it is not closed; and it emits `init` once at most.
pub run-one :
    (events : List Event)
    → let s = run events created in
      (count opened s.clients ≤ 1)
      × (s.closed ≡ false → count opened s.clients + s.restarts ≡ 1)
      × (s.inits ≤ 1)
run-one events =
    let s = run events created in
    let v = run-IsValid events created created-IsValid in
    ground (arith, v.one, v.once, opened-le s.closed s.clients v.sound)
