-- ===== src/Adm/Rebuild/Steps.antt =====
-- lib/adm.js: `rebuild` as its checks, and what follows them.
use manatee.Base.{
  after, ◌>>◌, ap, ◌∙◌, sym, ℕ, Text, ◌≡◌, refl, ◌⊎◌, inl, inr, [], Option, arith, Outcome, ok, err,
  lost, thrown,
}
use manatee.Base.Objects.{Object}
use manatee.Host.{Host}
use manatee.Adm.Edits.{State}
use manatee.Adm.Backfill.{LegacyNode}
use manatee.Adm.Rebuild.Waiting.{active_zk_node}
use manatee.Adm.Rebuild.Watching.{watch_from}
use manatee.Adm.Rebuild.{
  Config, Scene, Trail, check_primary, check_deposed, warn_active, prompt_confirm, checks, quietly,
  forget, held, Op, replace_data, rebuild,
}

abbrev pub nothing_done : Trail
nothing_done = record { log = []; sent = [] }

-- What the checks make sure of.
abbrev pub Checked : Config → Scene → State → Option ℕ → Type 0
Checked config scene s index =
    (scene.state ≡ ok s)
    × (check_primary config.zone_id s ≡ ok tt)
    × (index ≡ check_deposed config.zone_id s)
    × (prompt_confirm scene.prompt ≡ ok tt)
    × ((nodes : Object LegacyNode) × (scene.active ≡ ok nodes)
        × (warn_active (active_zk_node config.zone_id nodes) index ≡ ok tt))

checks-Checked :
    (config : Config) (scene : Scene) (t : Trail) (s : State) (index : Option ℕ)
    → (checks config scene t).0 ≡ ok (s, index)
    → Checked config scene s index
unfolding checks
checks-Checked config scene t s index h = ground arith

checks_changes_nothing :
    (config : Config) (scene : Scene) (t : Trail) → (checks config scene t).1 ≡ t
unfolding checks
checks_changes_nothing config scene t = ground arith

pub after-quietly :
    {A : Type 0} (f : A → Outcome Text (Unit {0})) (r : Outcome Text A × Trail)
    → (after (λ a. quietly (f a)) r).1 ≡ r.1
after-quietly f (ok a, t) = refl
after-quietly f (err e, t) = refl
after-quietly f (lost, t) = refl
after-quietly f (thrown, t) = refl

-- What follows the checks.
abbrev pub steps : Config → Host → Scene → State × Option ℕ → Op
steps config host scene found =
    replace_data config host scene found
    >> quietly (forget (watch_from (held found) config.zone_id scene.polls))

abbrev pub Done : Config → Host → Scene → Trail → Type 0
Done config host scene t =
    (t ≡ nothing_done)
    ⊎ ((s : State) × (index : Option ℕ) × Checked config scene s index
        × (t ≡ (replace_data config host scene (s, index) nothing_done).1))

steps-Done :
    (config : Config) (host : Host) (scene : Scene) (r : Outcome Text (State × Option ℕ) × Trail)
    → checks config scene nothing_done ≡ r
    → Done config host scene (after (steps config host scene) r).1
steps-Done config host scene (ok (s, index), t) e =
    let same = checks_changes_nothing config scene nothing_done in
    let at_start = ap (λ x. x.1) e in
    inr (
      s,
      index,
      checks-Checked config scene nothing_done s index (ap (λ x. x.0) e),
      after-quietly (λ u. forget (watch_from (held (s, index)) config.zone_id scene.polls))
            (replace_data config host scene (s, index) t)
          ∙ ap (λ x. (replace_data config host scene (s, index) x).1) (sym at_start ∙ same),
    )
steps-Done config host scene (err m, t) e =
    inl (sym (ap (λ x. x.1) e) ∙ checks_changes_nothing config scene nothing_done)
steps-Done config host scene (lost, t) e =
    inl (sym (ap (λ x. x.1) e) ∙ checks_changes_nothing config scene nothing_done)
steps-Done config host scene (thrown, t) e =
    inl (sym (ap (λ x. x.1) e) ∙ checks_changes_nothing config scene nothing_done)

-- Nothing is done unless the checks succeed, and then it is what `replace_data` does.
pub rebuild-Done :
    (config : Config) (host : Host) (scene : Scene)
    → Done config host scene (rebuild config host scene nothing_done).1
unfolding rebuild
rebuild-Done config host scene =
    steps-Done config host scene (checks config scene nothing_done) refl
