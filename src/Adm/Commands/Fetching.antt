-- ===== src/Adm/Commands/Fetching.antt =====
-- lib/adm.js: in what order ZooKeeper answers for the shards does not matter to `_getClusterStates`.
use mathlib.Core.List.{append-nil, append_assoc}
use manatee.Base.{
  ℕ, suc, ◌+◌, ◌<◌, Text, ◌≡◌, ◌⊎◌, refl, sym, ap, ◌∙◌, List, [], ◌∷◌, ◌++◌, map, Option, none,
  some, false, All, length, arith, inl, inr, Outcome, ok, err, lost, thrown,
}
use manatee.Base.Objects.{insert}
use manatee.Adm.Edits.{State}
use manatee.Adm.Commands.{Failure, Fetch, begin, held, sub_done, get_state, fetch_states}

-- The callback of `getData` is called and does not throw.
abbrev pub IsAnswer : Outcome Failure State → Type 0
IsAnswer r = ((s : State) × (r ≡ ok s)) ⊎ ((e : Failure) × (r ≡ err e))

abbrev failure_of : Outcome Failure State → List Failure
failure_of (ok s) = []
failure_of (err e) = e ∷ []
failure_of lost = []
failure_of thrown = []

-- The errors among the answers, in the order in which they come.
abbrev pub failures : (Text → Outcome Failure State) → List Text → List Failure
failures reply [] = []
failures reply (shard ∷ shards) = failure_of (reply shard) ++ failures reply shards

-- The calls of a callback that is handed each error, and told of the end if there is none.
abbrev pub calls_for : List Failure → List (Option Failure)
calls_for [] = none ∷ []
calls_for (e ∷ errors) = some e ∷ map some errors

module _ (reply : Text → Outcome Failure State) where
  abbrev pub IsAnswering : List Text → Type 0
  IsAnswering = All (λ shard. IsAnswer (reply shard))

  -- An answer that is not the last one.
  sub_done-more :
      (f : Fetch) (n : ℕ) → f.pending ≡ suc (suc n) → sub_done f ≡ record f { pending = suc n }
  unfolding sub_done
  sub_done-more f n p = ground (arith, p)

  sub_done-last :
      (f : Fetch)
      → f.pending ≡ 1
      → sub_done f ≡ record f { pending = 0; calls = f.calls ++ none ∷ [] }
  unfolding sub_done
  sub_done-last f p = ground (arith, p)

  module _ (x : Text) (shards : List Text) (f : Fetch) (c : f.crashed ≡ false) where
    pub fetch_states-cons :
        fetch_states reply (x ∷ shards) f ≡ fetch_states reply shards (get_state x (reply x) f)
    unfolding fetch_states
    fetch_states-cons = ground (arith, c)

    abbrev stored : State → Fetch
    stored s = record f { states = some (insert x s (held f.states)) }

    fetch_states-more :
        (s : State) (n : ℕ)
        → reply x ≡ ok s
        → f.pending ≡ suc (suc n)
        → fetch_states reply (x ∷ shards) f
          ≡ fetch_states reply shards (record (stored s) { pending = suc n })
    unfolding get_state
    fetch_states-more s n e p =
        fetch_states-cons
        ∙ ap (λ r. fetch_states reply shards (get_state x r f)) e
        ∙ ap (fetch_states reply shards) (sub_done-more (stored s) n p)

    fetch_states-failed :
        (z : Failure)
        → reply x ≡ err z
        → fetch_states reply (x ∷ shards) f
          ≡ fetch_states reply shards (record f { calls = f.calls ++ some z ∷ [] })
    unfolding get_state
    fetch_states-failed z e =
        fetch_states-cons ∙ ap (λ r. fetch_states reply shards (get_state x r f)) e

  -- A call of vasync that has failed is never over.
  calls-fetch_states_late :
      (shards : List Text) (f : Fetch) (k : ℕ)
      → IsAnswering shards
      → f.crashed ≡ false
      → f.pending ≡ suc (length shards + k)
      → (fetch_states reply shards f).calls ≡ f.calls ++ map some (failures reply shards)
  unfolding fetch_states
  calls-fetch_states_late [] f k a c p = sym (append-nil f.calls)
  calls-fetch_states_late (x ∷ shards) f k (inl (s, e), a) c p =
      ap (λ g. g.calls) (fetch_states-more x shards f c s (length shards + k) e (omega (arith, p)))
      ∙ calls-fetch_states_late shards
          (record (stored x shards f c s) { pending = suc (length shards + k) }) k a c refl
      ∙ ap (λ z. f.calls ++ map some (failure_of z ++ failures reply shards)) (sym e)
  calls-fetch_states_late (x ∷ shards) f k (inr (z, e), a) c p =
      ap (λ g. g.calls) (fetch_states-failed x shards f c z e)
      ∙ calls-fetch_states_late shards (record f { calls = f.calls ++ some z ∷ [] }) (suc k) a c
          (omega (arith, p))
      ∙ append_assoc f.calls (some z ∷ []) (map some (failures reply shards))
      ∙ ap (λ z. f.calls ++ map some (failure_of z ++ failures reply shards)) (sym e)

  fetch_states-one :
      (x : Text) (f : Fetch) (s : State)
      → f.crashed ≡ false
      → reply x ≡ ok s
      → f.pending ≡ 1
      → (fetch_states reply (x ∷ []) f).calls ≡ f.calls ++ none ∷ []
  unfolding fetch_states get_state
  fetch_states-one x f s c e p =
      ap (λ g. g.calls) (fetch_states-cons x [] f c)
      ∙ ap (λ r. (get_state x r f).calls) e
      ∙ ap (λ g. g.calls) (sub_done-last (stored x [] f c s) p)

  calls-fetch_states :
      (shards : List Text) (f : Fetch)
      → IsAnswering shards
      → f.crashed ≡ false
      → f.calls ≡ []
      → 0 < length shards
      → f.pending ≡ length shards
      → (fetch_states reply shards f).calls ≡ calls_for (failures reply shards)
  calls-fetch_states [] f a c z n p = ground (arith, n)
  calls-fetch_states (x ∷ []) f (inl (s, e), a) c z n p =
      fetch_states-one x f s c e p
      ∙ ap (λ calls. calls ++ none ∷ []) z
      ∙ ap (λ r. calls_for (failure_of r ++ [])) (sym e)
  calls-fetch_states (x ∷ y ∷ shards) f (inl (s, e), a) c z n p =
      ap (λ g. g.calls)
        (fetch_states-more x (y ∷ shards) f c s (length shards) e (omega (arith, p)))
      ∙ calls-fetch_states (y ∷ shards)
          (record (stored x (y ∷ shards) f c s) { pending = suc (length shards) }) a c z
          (omega arith) (omega arith)
      ∙ ap (λ r. calls_for (failure_of r ++ failures reply (y ∷ shards))) (sym e)
  calls-fetch_states (x ∷ shards) f (inr (w, e), a) c z n p =
      ap (λ g. g.calls) (fetch_states-failed x shards f c w e)
      ∙ calls-fetch_states_late shards (record f { calls = f.calls ++ some w ∷ [] }) 0 a c
          (omega (arith, p))
      ∙ ap (λ calls. (calls ++ some w ∷ []) ++ map some (failures reply shards)) z
      ∙ ap (λ r. calls_for (failure_of r ++ failures reply shards)) (sym e)

  -- In whatever order ZooKeeper answers for the shards, the callback is called once for each error, and
  -- otherwise once with no error.
  pub fetch_states-calls_for :
      (shards order : List Text)
      → length order ≡ length shards
      → IsAnswering order
      → (fetch_states reply order (begin shards)).calls ≡ calls_for (failures reply order)
  unfolding begin fetch_states
  fetch_states-calls_for [] [] n a = refl
  fetch_states-calls_for [] (y ∷ order) n a = ground (arith, n)
  fetch_states-calls_for (x ∷ shards) order n a =
      calls-fetch_states order (begin (x ∷ shards)) a refl refl (omega (arith, n)) (sym n)
