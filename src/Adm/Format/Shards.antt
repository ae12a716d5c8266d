-- ===== src/Adm/Format/Shards.antt =====
-- lib/adm.js: `_formatState` shows each shard by itself.
use mathlib.Core.Option
use manatee.Base.{
  Text, text_eq, text_eq_iff, ◌≡◌, refl, ◌∙◌, subst, [], ◌∷◌, Option, none, some, true, Bool-cases,
  inl, inr,
}
use manatee.Base.Objects.{Object, insert, lookup, lookup-insert, IsMap}
use manatee.Adm.{ShardState}
use manatee.Adm.Format.{Shown, format_shard, format_onto, format_state}

module _ {P : Type 0} where
  abbrev shown_or : Option (ShardState P) → Option (Object (Shown P)) → Option (Object (Shown P))
  shown_or none r = r
  shown_or (some s) r = some (format_shard s)

  shown_or-none : (r : Option (ShardState P)) → shown_or r none ≡ Option.map format_shard r
  shown_or-none none = refl
  shown_or-none (some s) = refl

  gone :
      (k q : Text)
      → text_eq k q ≡ true
      → (states : Object (ShardState P)) → lookup k states ≡ none
      → lookup q states ≡ none
  gone k q e states n = subst (λ z. lookup z states ≡ none) ((text_eq_iff k q).0 e) n

  lookup-format_onto :
      (q : Text) (states : Object (ShardState P)) (o : Object (Object (Shown P)))
      → IsMap states
      → lookup q (format_onto states o) ≡ shown_or (lookup q states) (lookup q o)
  unfolding format_onto lookup
  lookup-format_onto q [] o h = refl
  lookup-format_onto q ((k, s) ∷ states) o (n, h) =
      lookup-format_onto q states (insert k (format_shard s) o) h
      ∙ elim (Bool-cases (text_eq k q)) [
        | inl e ↦ rw (lookup-insert k q (format_shard s) o, e, gone k q e states n) refl
        | inr e ↦ rw (lookup-insert k q (format_shard s) o, e) refl
      ]

  pub lookup-format_state :
      (q : Text) (states : Object (ShardState P))
      → IsMap states
      → lookup q (format_state states) ≡ Option.map format_shard (lookup q states)
  unfolding format_state lookup
  lookup-format_state q states h =
      lookup-format_onto q states [] h ∙ shown_or-none (lookup q states)
