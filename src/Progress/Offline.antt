-- ===== src/Progress/Offline.antt =====
-- `Player::addOfflineTrainingTries` of src/player.cpp: the tries of a player that has trained while it
-- was away. The message with the percentages is not modelled.
use theforgottenserver.Prelude.{
  ℕ, zero, suc, ◌+◌, ◌^◌, ◌%◌, refl, sym, ap, ◌∙◌, true, ltb, wrap64, ◌≡◌, ◌≢◌, inl, inr, Bool,
  false, ◌||◌, not, leb, ◌==◌, if◌then◌else◌, wrap16, wrap32, arith, Bool-cases, ==→eq, ==-refl,
}
use native.Mathlib.Nat.{mod-mod}
use theforgottenserver.Progress.{
  Advance, advance, sub64, get_percent_level, Skill, settle_skill, add_skill_advance, Magic,
  settle_magic, add_mana_spent,
}

-- The skill that is trained: one with tries, the magic level, or the level, which is refused.
pub data TrainedSkill : Type 0 where
  fighting : ℕ → TrainedSkill
  maglevel : TrainedSkill
  level : TrainedSkill

pub record Trainee : Type 0 where
  pub skills : ℕ → Skill
  pub magic : Magic

-- The variables of the loops: the level with what is counted towards the next one and the percentage,
-- what is left of the gain, what the level and the next one require, and whether the client is told.
pub record Training : Type 0 where
  pub level : ℕ
  pub tries : ℕ
  pub percent : ℕ
  pub left : ℕ
  pub curr_req : ℕ
  pub next_req : ℕ
  pub send_update : Bool

-- One round of a loop, up to its test of the highest level. The level counts modulo `m`, and the loop
-- makes `reset` of the percentage.
unfoldable pub raise : (ℕ → ℕ) → ℕ → (ℕ → ℕ) → Training → Training
raise req m reset t =
    let level' = (t.level + 1) % m in
    record {
      level = level';
      tries = 0;
      percent = reset t.percent;
      left = sub64 t.left (sub64 t.next_req t.tries);
      curr_req = t.next_req;
      next_req = req ((level' + 1) % m);
      send_update = true;
    }

-- The loops of `addOfflineTrainingTries`, on fuel.
unfoldable pub train_loop : ℕ → (ℕ → ℕ) → ℕ → (ℕ → ℕ) → Training → Training
train_loop zero req m reset t = t
train_loop (suc fuel) req m reset t =
    let t' = raise req m reset t in
    let rest = train_loop fuel req m reset t' in
    if not (leb t.next_req (wrap64 (t.tries + t.left)))
    then t
    else if leb t'.next_req t'.curr_req
    then record t' { left = 0 }
    else rest

-- What follows a loop: what is left is counted, and the percentage is set.
unfoldable pub count_left : Training → Training
count_left t =
    let tries = wrap64 (t.tries + t.left) in
    let percent = if ltb t.curr_req t.next_req then get_percent_level tries t.next_req else 0 in
    record t {
      tries = tries;
      percent = percent;
      send_update = t.send_update || not (t.percent == percent);
    }

-- The part for a skill, which says whether the client is to be told.
unfoldable pub train_skill : (ℕ → ℕ) → (ℕ → ℕ) → Skill → ℕ → Bool × Skill
train_skill req on_gain s tries =
    let curr_req = req (wrap16 s.level) in
    let next_req = req (wrap16 (s.level + 1)) in
    let start : Training = record {
      level = s.level;
      tries = s.tries;
      percent = s.percent;
      left = on_gain tries;
      curr_req = curr_req;
      next_req = next_req;
      send_update = false;
    } in
    let t = count_left (train_loop (suc (on_gain tries)) req (2 ^ 16) (λ percent. 0) start) in
    if leb next_req curr_req
    then (false, s)
    else (t.send_update, record { tries = t.tries; level = t.level; percent = t.percent })

-- The part for the magic level.
unfoldable pub train_magic : (ℕ → ℕ) → (ℕ → ℕ) → Magic → ℕ → Bool × Magic
train_magic req on_gain s tries =
    let curr_req = req (wrap32 s.mag_level) in
    let next_req = req (wrap32 (s.mag_level + 1)) in
    let start : Training = record {
      level = s.mag_level;
      tries = s.mana_spent;
      percent = s.mag_level_percent;
      left = on_gain tries;
      curr_req = curr_req;
      next_req = next_req;
      send_update = false;
    } in
    let t = count_left (train_loop (suc (on_gain tries)) req (2 ^ 32) (λ percent. percent) start) in
    if leb next_req curr_req then (false, s) else (
      t.send_update,
      record { mana_spent = t.tries; mag_level = t.level; mag_level_percent = t.percent },
    )

-- What the vocation requires of each skill and of the magic level.
pub record Requirements : Type 0 where
  pub req_skill_tries : ℕ → ℕ → ℕ
  pub req_mana : ℕ → ℕ

unfoldable pub train : Requirements → (ℕ → ℕ) → Trainee → TrainedSkill → ℕ → Bool × Trainee
train r on_gain t level tries = (false, t)
train r on_gain t maglevel tries =
    let (sent, m) = train_magic r.req_mana on_gain t.magic tries in (sent, record t { magic = m })
train r on_gain t (fighting i) tries =
    let (sent, s) = train_skill (r.req_skill_tries i) on_gain (t.skills i) tries in
    (sent, record t { skills = λ j. if j == i then s else t.skills j })

unfoldable pub add_offline_training_tries :
    Requirements → (ℕ → ℕ) → Trainee → TrainedSkill → ℕ → Bool × Trainee
add_offline_training_tries r on_gain t skill tries =
    if tries == 0 then (false, t) else train r on_gain t skill tries

not_true : false ≡ true → ⊥
not_true h = cc

module _ (req : ℕ → ℕ) (m : ℕ) where
  -- A loop at a level.
  abbrev start : ℕ → ℕ → ℕ → ℕ → Bool → Training
  start lev tries percent left sent = record {
    level = lev;
    tries = tries;
    percent = percent;
    left = left;
    curr_req = req (lev % m);
    next_req = req ((lev + 1) % m);
    send_update = sent;
  }

  -- The loops, which the source writes apart, have come to the same level, with the same counted and the
  -- same left, which at the highest level is nothing.
  record IsLike (t : Training) (a : Advance) : Type 0 where
    same_level : t.level ≡ a.level
    same_tries : t.tries ≡ a.tries
    same_left : t.left ≡ (if a.is_max then 0 else a.left)
    same_curr : t.curr_req ≡ req (a.level % m)
    same_next : t.next_req ≡ req ((a.level + 1) % m)
    at_top : a.is_max ≡ true → (t.tries ≡ 0) × (leb t.next_req t.curr_req ≡ true)

  raise-start :
      (reset : ℕ → ℕ) (lev tries percent left : ℕ) (sent : Bool)
      → raise req m reset (start lev tries percent left sent)
        ≡ start
            ((lev + 1) % m)
            0
            (reset percent)
            (sub64 left (sub64 (req ((lev + 1) % m)) tries))
            true
  unfolding raise
  raise-start reset lev tries percent left sent = λ k. record {
    level = (lev + 1) % m;
    tries = 0;
    percent = reset percent;
    left = sub64 left (sub64 (req ((lev + 1) % m)) tries);
    curr_req = req (sym (mod-mod (lev + 1) m) k);
    next_req = req (((lev + 1) % m + 1) % m);
    send_update = true;
  }

  train_loop-IsLike :
      (fuel : ℕ) (reset : ℕ → ℕ) (lev tries percent left : ℕ) (sent : Bool)
      → IsLike
          (train_loop fuel req m reset (start lev tries percent left sent))
          (advance fuel req m lev tries left)
  unfolding train_loop advance
  train_loop-IsLike zero reset lev tries percent left sent = record {
    same_level = refl;
    same_tries = refl;
    same_left = refl;
    same_curr = refl;
    same_next = refl;
    at_top = λ h. absurd (not_true h);
  }
  train_loop-IsLike (suc fuel) reset lev tries percent left sent =
      let next = req ((lev + 1) % m) in
      let lev' = (lev + 1) % m in
      let left' = sub64 left (sub64 next tries) in
      rw (raise-start reset lev tries percent left sent)
        (elim (Bool-cases (leb next (wrap64 (tries + left)))) [
          | inl e ↦ elim (Bool-cases (leb (req ((lev' + 1) % m)) next)) [
            | inl f ↦
                rw (e, f, again lev' true f)
                  (record {
                    same_level = refl;
                    same_tries = refl;
                    same_left = refl;
                    same_curr = refl;
                    same_next = refl;
                    at_top = λ h. (refl, again lev' true f);
                  })
            | inr f ↦
                rw (e, f, again lev' false f)
                  (train_loop-IsLike fuel reset lev' 0 (reset percent) left' true)
          ]
          | inr e ↦ rw e (record {
            same_level = refl;
            same_tries = refl;
            same_left = refl;
            same_curr = refl;
            same_next = refl;
            at_top = λ h. absurd (not_true h);
          })
        ])
    where
      again :
          (k : ℕ) (b : Bool)
          → leb (req ((k + 1) % m)) (req ((lev + 1) % m)) ≡ b
          → leb (req ((k + 1) % m)) (req ((lev + 1) % m % m)) ≡ b
      again k b f = ap (λ j. leb (req ((k + 1) % m)) (req j)) (mod-mod (lev + 1) m) ∙ f

not_rising : (curr next : ℕ) → leb next curr ≡ true → ltb curr next ≡ false
not_rising curr next h = ground arith

-- The skill that a loop and what follows it leave.
settled :
    (req : ℕ → ℕ) (t : Training) (a : Advance)
    → IsLike req (2 ^ 16) t a
    → (let t' = count_left t in
        ◌≡◌ {A = Skill}
          (record { tries = t'.tries; level = t'.level; percent = t'.percent })
          (settle_skill req a))
unfolding count_left settle_skill
settled req t a w = elim (Bool-cases a.is_max) [
  | inl e ↦
      let (none_counted, top) = w.at_top e in
      let none_left = w.same_left ∙ ap (λ b. if b then 0 else a.left) e in
      rw (e, w.same_level, none_counted, none_left, not_rising t.curr_req t.next_req top) refl
  | inr e ↦
      let some_left = w.same_left ∙ ap (λ b. if b then 0 else a.left) e in
      rw (e, w.same_level, w.same_tries, some_left, w.same_curr, w.same_next) refl
]

train_skill-eq :
    (req on_gain : ℕ → ℕ) (s : Skill) (tries : ℕ)
    → (on_gain tries == 0) ≡ false
    → (train_skill req on_gain s tries).1 ≡ add_skill_advance req on_gain s tries
unfolding train_skill add_skill_advance
train_skill-eq req on_gain s tries b =
    elim (Bool-cases (leb (req (wrap16 (s.level + 1))) (req (wrap16 s.level)))) [
      | inl e ↦ rw e refl
      | inr e ↦
          rw (e, b)
            (settled req
              (train_loop (suc (on_gain tries)) req (2 ^ 16) (λ percent. 0)
                (start req (2 ^ 16) s.level s.tries s.percent (on_gain tries) false))
              (advance (suc (on_gain tries)) req (2 ^ 16) s.level s.tries (on_gain tries))
              (train_loop-IsLike req (2 ^ 16) (suc (on_gain tries)) (λ percent. 0) s.level s.tries
                s.percent (on_gain tries) false))
    ]

-- Training while away advances a skill exactly as using it does, for a number of tries of which the
-- scripts leave something; and it leaves the other skills and the magic level alone.
pub offline_skill-eq :
    (r : Requirements) (on_gain : ℕ → ℕ) (t : Trainee) (i j tries : ℕ)
    → tries ≢ 0
    → on_gain tries ≢ 0
    → let t' = (add_offline_training_tries r on_gain t (fighting i) tries).1 in
      (t'.skills j ≡ (
        if j == i
        then add_skill_advance (r.req_skill_tries i) on_gain (t.skills i) tries
        else t.skills j))
      × (t'.magic ≡ t.magic)
unfolding add_offline_training_tries train
offline_skill-eq r on_gain t i j tries some_tries some_left =
    let a : (tries == 0) ≡ false = ground arith in
    let b : (on_gain tries == 0) ≡ false = ground arith in
    rw a (elim (Bool-cases (j == i)) [
      | inl e ↦
          rw (==→eq j i e) (
            rw (==-refl i)
              (train_skill-eq (r.req_skill_tries i) on_gain (t.skills i) tries b, refl))
      | inr e ↦ rw e (refl, refl)
    ])

settled_magic :
    (req : ℕ → ℕ) (percent : ℕ) (t : Training) (a : Advance)
    → IsLike req (2 ^ 32) t a
    → ((count_left t).level ≡ (settle_magic req percent a).mag_level)
      × ((count_left t).tries ≡ (settle_magic req percent a).mana_spent)
unfolding count_left settle_magic
settled_magic req percent t a w = elim (Bool-cases a.is_max) [
  | inl e ↦
      let none_left = w.same_left ∙ ap (λ b. if b then 0 else a.left) e in
      rw (e, w.same_level, (w.at_top e).0, none_left) (refl, refl)
  | inr e ↦
      let some_left = w.same_left ∙ ap (λ b. if b then 0 else a.left) e in
      rw (e, w.same_level, w.same_tries, some_left) (refl, refl)
]

-- It advances the magic level as using mana does, but for the percentage, which using mana leaves as it
-- was when the highest level is reached.
pub offline_magic-eq :
    (r : Requirements) (on_gain : ℕ → ℕ) (t : Trainee) (tries : ℕ)
    → tries ≢ 0
    → on_gain tries ≢ 0
    → let t' = (add_offline_training_tries r on_gain t maglevel tries).1 in
      let m = add_mana_spent r.req_mana on_gain false t.magic tries in
      (t'.magic.mag_level ≡ m.mag_level)
      × (t'.magic.mana_spent ≡ m.mana_spent)
      × (t'.skills ≡ t.skills)
unfolding add_offline_training_tries train train_magic add_mana_spent
offline_magic-eq r on_gain t tries some_tries some_left =
    let a : (tries == 0) ≡ false = ground arith in
    let b : (on_gain tries == 0) ≡ false = ground arith in
    let s = t.magic in
    let (same_level, same_tries) =
      settled_magic r.req_mana s.mag_level_percent
        (train_loop (suc (on_gain tries)) r.req_mana (2 ^ 32) (λ percent. percent)
          (start r.req_mana (2 ^ 32) s.mag_level s.mana_spent s.mag_level_percent (on_gain tries)
            false))
        (advance (suc (on_gain tries)) r.req_mana (2 ^ 32) s.mag_level s.mana_spent (on_gain tries))
        (train_loop-IsLike r.req_mana (2 ^ 32) (suc (on_gain tries)) (λ percent. percent)
          s.mag_level s.mana_spent s.mag_level_percent (on_gain tries) false) in
    rw a
      (elim (Bool-cases
        (leb (r.req_mana (wrap32 (s.mag_level + 1))) (r.req_mana (wrap32 s.mag_level)))) [
          | inl e ↦ rw e (refl, refl, refl)
          | inr e ↦ rw (e, b) (same_level, same_tries, refl)
        ])
