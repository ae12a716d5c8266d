-- ===== src/Adm/Commands/Shows.antt =====
-- lib/adm.js: `status` shows each shard as it is, in whatever order the answers come.
use mathlib.Core.Option
use manatee.Base.{
  Text, ◌≡◌, ◌⊎◌, refl, sym, ap, ◌∙◌, List, [], ◌∷◌, Option, none, some, Bool, true, false, All,
  length, ◌<◌, if◌then◌else◌, arith, inl, inr, ok,
}
use manatee.Base.Objects.{Object, lookup, IsMap, lookup-map, map-IsMap}
use manatee.Adm.Edits.{State}
use manatee.Adm.Details.Status.{PeerInfo, add_postgres_status}
use manatee.Adm.Format.{Shown, format_shard, format_state}
use manatee.Adm.Format.Shards.{lookup-format_state}
use manatee.Adm.Connections.{a_client}
use manatee.Adm.Commands.{
  Fetch, Zoo, Peers, released, held, get_states, first_call, with_status, show_states, get_shards,
  status, create_zk_client, finish, close_zk_client,
}
use manatee.Adm.Commands.Fetching.{calls_for, fetch_states-calls_for}
use manatee.Adm.Commands.States.{
  has, value_of, IsRead, IsRead-all, failures-read, read-IsAnswering, fetched, fetched-Gathering,
}

first_call-ok : (f : Fetch) → f.calls ≡ none ∷ [] → first_call f ≡ ok f.states
unfolding first_call
first_call-ok f e = rw e refl

first_call_of :
    (f : Fetch)
    → f.calls ≡ none ∷ []
    → f.states ≡ some (held f.states)
    → first_call f ≡ ok (some (held f.states))
first_call_of f e h = first_call-ok f e ∙ ap ok h

nonempty : (o : Option (Object State)) → (o ≡ some (held o)) ⊎ (0 < 0) → o ≡ some (held o)
nonempty o (inl h) = h
nonempty o (inr z) = ground (arith, z)

map-if :
    {V W : Type 0}
    → (f : V → W) → (b : Bool) → (v : Option V)
    → Option.map f (if b then v else none) ≡ (if b then Option.map f v else none)
map-if f true v = refl
map-if f false v = refl

map-shown :
    (peers : Peers) (r : Option State)
    → Option.map format_shard (Option.map (add_postgres_status peers.repl peers.lag) r)
      ≡ Option.map (λ s. format_shard (add_postgres_status peers.repl peers.lag s)) r
map-shown peers none = refl
map-shown peers (some s) = refl

-- A list with the same elements.
abbrev pub IsRearranged : List Text → List Text → Type 0
IsRearranged order shards =
    (length order ≡ length shards) × ((q : Text) → has q order ≡ has q shards)

module _ {N : Type 0} (zoo : Zoo N) (peers : Peers) (shards : List Text) where
  abbrev gathered_states : Object State
  gathered_states = held (fetched zoo.state_of (peers.order shards) shards).states

  get_states-ok :
      length (peers.order shards) ≡ length shards
      → 0 < length shards
      → All (λ x. IsRead (zoo.state_of x)) (peers.order shards)
      → get_states zoo peers shards ≡ ok (some gathered_states)
  unfolding get_states fetched
  get_states-ok n l a =
      let f = fetched zoo.state_of (peers.order shards) shards in
      let g = fetched-Gathering zoo.state_of (peers.order shards) shards [] n l a in
      first_call_of f
        (fetch_states-calls_for zoo.state_of shards (peers.order shards) n
            (read-IsAnswering zoo.state_of (peers.order shards) a)
          ∙ ap calls_for (failures-read zoo.state_of (peers.order shards) a))
        (nonempty f.states g.0.1)

  status-ok :
      (named : Option Text) (o : Object State)
      → zoo.connection ≡ a_client
      → get_shards zoo named ≡ ok shards
      → get_states zoo peers shards ≡ ok (some o)
      → status zoo peers named ≡ (ok (format_state (with_status peers o)), released)
  unfolding status finish create_zk_client close_zk_client show_states
  status-ok named o c s g = rw c (rw s (rw g refl))

  -- What `status` shows of a shard by its node.
  abbrev pub shown_of : Text → Option (Object (Shown PeerInfo))
  shown_of q =
      Option.map (λ s. format_shard (add_postgres_status peers.repl peers.lag s))
        (value_of (zoo.state_of q))

  lookup-with_status :
      (q : Text) (o : Object State)
      → IsMap o
      → lookup q (format_state (with_status peers o))
        ≡ Option.map (λ s. format_shard (add_postgres_status peers.repl peers.lag s)) (lookup q o)
  unfolding with_status
  lookup-with_status q o m =
      lookup-format_state q (with_status peers o)
        (map-IsMap (add_postgres_status peers.repl peers.lag) o m)
      ∙ ap (Option.map format_shard) (lookup-map (add_postgres_status peers.repl peers.lag) q o)
      ∙ map-shown peers (lookup q o)

  -- When ZooKeeper is there and the state of each shard can be read, `status` closes its client and
  -- answers, in whatever order the states come, with each of the shards and no other, each as its state
  -- and what its own peers say are laid out.
  pub status-lookup :
      (named : Option Text)
      → zoo.connection ≡ a_client
      → get_shards zoo named ≡ ok shards
      → 0 < length shards
      → IsRearranged (peers.order shards) shards
      → ((q : Text) → has q shards ≡ true → IsRead (zoo.state_of q))
      → (shown : Object (Object (Shown PeerInfo))) × ((status zoo peers named
            ≡ (ok shown, released))
          × ((q : Text) → lookup q shown ≡ (if has q shards then shown_of q else none)))
  unfolding fetched
  status-lookup named c s l (n, h) r =
      let a = IsRead-all zoo.state_of (peers.order shards) (λ q m. r q (sym (h q) ∙ m)) in
      (
        format_state (with_status peers gathered_states),
        (
          status-ok named gathered_states c s (get_states-ok n l a),
          λ q.
              let g = fetched-Gathering zoo.state_of (peers.order shards) shards q n l a in
              lookup-with_status q gathered_states g.0.0
              ∙ ap (Option.map (λ s. format_shard (add_postgres_status peers.repl peers.lag s)))
                  (g.1 ∙ ap (λ b. if b then value_of (zoo.state_of q) else none) (h q))
              ∙ map-if (λ s. format_shard (add_postgres_status peers.repl peers.lag s))
                  (has q shards) (value_of (zoo.state_of q)),
        ),
      )
