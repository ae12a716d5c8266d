-- ===== src/Adm/Commands/States.antt =====
-- lib/adm.js: what `_getClusterStates` has found when each node was read.
use manatee.Base.{
  Text, text_eq, text_eq_iff, ◌≡◌, ◌⊎◌, refl, sym, ap, ◌∙◌, subst, List, [], ◌∷◌, Option, none,
  some, Bool, true, false, ◌||◌, All, length, ◌<◌, if◌then◌else◌, Bool-cases, arith, inl, inr,
  Outcome, ok, err, lost, thrown,
}
use manatee.Base.Objects.{Object, insert, lookup, lookup-insert, IsMap, insert-IsMap}
use manatee.Adm.Edits.{State}
use manatee.Adm.Commands.{Failure, Fetch, begin, held, sub_done, get_state, fetch_states}
use manatee.Adm.Commands.Fetching.{IsAnswering, failures, fetch_states-cons}

-- `shards.indexOf(q) !== -1`
abbrev pub has : Text → List Text → Bool
has q [] = false
has q (x ∷ xs) = text_eq x q || has q xs

abbrev pub value_of : Outcome Failure State → Option State
value_of (ok s) = some s
value_of (err e) = none
value_of lost = none
value_of thrown = none

-- The node of the shard can be read.
abbrev pub IsRead : Outcome Failure State → Type 0
IsRead r = (s : State) × (r ≡ ok s)

module _ (reply : Text → Outcome Failure State) where
  sub_done-states :
      (f : Fetch) → ((sub_done f).states ≡ f.states) × ((sub_done f).crashed ≡ f.crashed)
  unfolding sub_done
  sub_done-states f = ground arith

  after_read : (x : Text) (f : Fetch) → Fetch
  after_read x f = get_state x (reply x) f

  get_state-states :
      (x : Text) (f : Fetch) (s : State)
      → reply x ≡ ok s
      → ((after_read x f).states ≡ some (insert x s (held f.states)))
        × ((after_read x f).crashed ≡ f.crashed)
  unfolding get_state after_read
  get_state-states x f s e =
      rw e (sub_done-states (record f { states = some (insert x s (held f.states)) }))

  -- What holds of the states before and after each node that is read.
  fetch_states_induction {ℓ} :
      (P : List Text → Option (Object State) → Type ℓ)
      → ((x : Text) (rest : List Text) (s : State) (o : Option (Object State))
          → reply x ≡ ok s
          → P (x ∷ rest) o
          → P rest (some (insert x s (held o))))
      → (order : List Text) (f : Fetch) → All (λ x. IsRead (reply x)) order
      → f.crashed ≡ false
      → P order f.states
      → P [] (fetch_states reply order f).states
  unfolding fetch_states after_read
  fetch_states_induction P step [] f a c h = h
  fetch_states_induction P step (x ∷ rest) f ((s, e), a) c h =
      let (t, d) = get_state-states x f s e in
      subst (λ g. P [] g.states) (sym (fetch_states-cons reply x rest f c))
        (fetch_states_induction P step rest (get_state x (reply x) f) a (d ∙ c)
          (subst (P rest) (sym t) (step x rest s f.states e h)))

  -- What the shard will be found at when the answers for the rest have come.
  abbrev pub found : Text → List Text → Option (Object State) → Option State
  found q rest o = if has q rest then value_of (reply q) else lookup q (held o)

  abbrev pub Gathering : Text → Option State → List Text → Option (Object State) → Type 0
  Gathering q target rest o =
      (IsMap (held o) × ((o ≡ some (held o)) ⊎ (0 < length rest))) × (found q rest o ≡ target)

  value_of-same :
      (x q : Text) (s : State) → reply x ≡ ok s → text_eq x q ≡ true → some s ≡ value_of (reply q)
  value_of-same x q s e t =
      subst (λ z. some s ≡ value_of (reply z)) ((text_eq_iff x q).0 t) (ap value_of (sym e))

  found-insert :
      (q x : Text) (rest : List Text) (s : State) (o : Option (Object State))
      → reply x ≡ ok s
      → found q rest (some (insert x s (held o))) ≡ found q (x ∷ rest) o
  found-insert q x rest s o e = elim (Bool-cases (text_eq x q)) [
    | inl t ↦ rw (lookup-insert x q s (held o), t) (ground (arith, value_of-same x q s e t))
    | inr t ↦ rw (lookup-insert x q s (held o), t) refl
  ]

  Gathering-insert :
      (q : Text) (target : Option State)
      → (x : Text) (rest : List Text) (s : State) (o : Option (Object State)) → reply x ≡ ok s
      → Gathering q target (x ∷ rest) o
      → Gathering q target rest (some (insert x s (held o)))
  Gathering-insert q target x rest s o e ((m, n), h) =
      ((insert-IsMap x s (held o) m, inl refl), found-insert q x rest s o e ∙ h)

  pub failures-read :
      (order : List Text) → All (λ x. IsRead (reply x)) order → failures reply order ≡ []
  failures-read [] a = refl
  failures-read (x ∷ order) ((s, e), a) = rw e (failures-read order a)

  pub read-IsAnswering :
      (order : List Text) → All (λ x. IsRead (reply x)) order → IsAnswering reply order
  read-IsAnswering [] a = tt
  read-IsAnswering (x ∷ order) (r, a) = (inl r, read-IsAnswering order a)

  pub IsRead-all :
      (xs : List Text)
      → ((q : Text) → has q xs ≡ true → IsRead (reply q))
      → All (λ x. IsRead (reply x)) xs
  IsRead-all [] h = tt
  IsRead-all (x ∷ xs) h =
      (h x (rw ((text_eq_iff x x).1 refl) refl), IsRead-all xs (λ q m. h q (ground (arith, m))))

  unfoldable pub fetched : List Text → List Text → Fetch
  fetched order shards = fetch_states reply order (begin shards)

  pub fetched-Gathering :
      (order shards : List Text) (q : Text)
      → length order ≡ length shards
      → 0 < length shards
      → All (λ x. IsRead (reply x)) order
      → Gathering q
          (if has q order then value_of (reply q) else none)
          []
          (fetched order shards).states
  unfolding fetched begin lookup
  fetched-Gathering order [] q n l a = ground (arith, l)
  fetched-Gathering order (x ∷ shards) q n l a =
      let target = if has q order then value_of (reply q) else none in
      fetch_states_induction (Gathering q target) (Gathering-insert q target) order
        (begin (x ∷ shards)) a refl ((tt, inr (omega (arith, n, l))), refl)
