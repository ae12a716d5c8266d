-- ===== src/Adm/Commands/Closing.antt =====
-- lib/adm.js: which commands close their client of ZooKeeper.
use manatee.Base.{
  Text, ◌≡◌, ◌⊎◌, ◌≢◌, refl, Option, List, inl, inr, Outcome, ok, err, lost, thrown, arith,
}
use manatee.Adm.Connections.{a_client}
use manatee.Adm.Commands.{
  Failure, Zoo, Peers, Client, absent, live, released, create_zk_client, close_zk_client, finish,
  status, zk_state, zk_active, check_lock,
}

-- A command that has answered holds no client.
abbrev IsClosed : {A : Type 0} → Outcome Failure A × Client → Type 0
IsClosed r = ((r.0 ≡ lost) ⊎ (r.0 ≡ thrown)) ⊎ (r.1 ≢ live)

close_zk_client-ne : (c : Client) → close_zk_client c ≢ live
unfolding close_zk_client
close_zk_client-ne absent = ground arith
close_zk_client-ne live = ground arith
close_zk_client-ne released = ground arith

finish-IsClosed :
    {A : Type 0}
    → (f : Failure → Failure) → (r : Outcome Failure A × Client) → IsClosed (finish f r)
unfolding finish
finish-IsClosed f (ok a, c) = inr (close_zk_client-ne c)
finish-IsClosed f (err e, c) = inr (close_zk_client-ne c)
finish-IsClosed f (lost, c) = inl (inl refl)
finish-IsClosed f (thrown, c) = inl (inr refl)

-- Once they have answered, with an error or without, `status`, `zkState` and `zkActive` hold no client of
-- ZooKeeper; `checkLock` holds each client that it was given.
pub commands-IsClosed :
    {N : Type 0}
    → (zoo : Zoo N) (peers : Peers) (multi : List Failure → Failure) (named : Option Text)
      (shard path : Text)
    → ((IsClosed (status zoo peers named) × IsClosed (zk_state zoo shard))
        × IsClosed (zk_active multi zoo shard))
      × (zoo.connection ≡ a_client → (check_lock zoo path).1 ≡ live)
unfolding status zk_state zk_active check_lock create_zk_client
commands-IsClosed zoo peers multi named shard path =
    (((finish-IsClosed _ _, finish-IsClosed _ _), finish-IsClosed _ _), λ c. rw c refl)
