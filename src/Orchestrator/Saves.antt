-- ===== src/Orchestrator/Saves.antt =====
-- Saves of one call's session by several turns, whose two halves come in any order.
use native.Mathlib.Nat.{le_refl, le_trans}
use vof_backend.Orchestrator.Session.{
  execute, save, CallSession, SessionKey, SaveError, cas_mismatch, save_failed, Watched,
  check_version,
}
use vof_backend.Prelude.{
  get_elem?, All, All-append, All-weaken, All-get, ◌==◌, Bool-cases, Option-cases, ℕ, ◌+◌, ◌≤◌, ◌<◌,
  ◌≡◌, refl, sym, subst, inl, inr, true, false, Option, none, some, List, [], ◌∷◌, ◌++◌, arith,
}

-- The key, and the saves that have checked their version and not yet written.
pub record Savers : Type 0 where
  pub key : SessionKey
  pub watched : List Watched

-- A save begins, or the one of a position writes.
pub data SaveCommand : Type 0 where
  checks : CallSession → SaveCommand
  executes : ℕ → SaveCommand

-- A save that passed its check waits to write.
abbrev watching : Option SaveError × Watched → Savers → Savers
watching (some x, w) v = v
watching (none, w) v = record v { watched = v.watched ++ (w ∷ []) }

unfoldable pub save_command : SaveCommand → Savers → Savers
save_command (checks s) v = watching (check_version s v.key) v
save_command (executes i) v = elim (get_elem? v.watched i) [
  | none ↦ v
  | some w ↦ record v { key = (execute w v.key).1 }
]

unfoldable pub save_commands : List SaveCommand → Savers → Savers
unfolding save_command
save_commands [] v = v
save_commands (c ∷ cs) v = save_commands cs (save_command c v)

-- What the check does at a key with a session.
check_version-eq :
    (s c : CallSession) (k : SessionKey)
    → k.value ≡ some c
    → (c.state_version == s.state_version) ≡ true
    → check_version s k ≡ (none, record { session = s; seen = k.writes })
unfolding check_version
check_version-eq s c k h e = ground arith

check_version-ne :
    (s c : CallSession) (k : SessionKey)
    → k.value ≡ some c
    → (c.state_version == s.state_version) ≡ false
    → check_version s k ≡ (some cas_mismatch, record { session = s; seen = k.writes })
unfolding check_version
check_version-ne s c k h e = ground arith

module _ (k : SessionKey) (cur : CallSession) where
  -- A save that began since has the version that goes with the writes that it saw.
  record Since (writes : ℕ) (w : Watched) : Type 0 where
    seen_after : k.writes ≤ w.seen
    seen_before : w.seen ≤ writes
    in_step : w.session.state_version + k.writes ≡ cur.state_version + w.seen

  -- Every write has made the version one higher.
  record IsSound (v : Savers) : Type 0 where
    now : CallSession
    stored : v.key.value ≡ some now
    later : k.writes ≤ v.key.writes
    counted : now.state_version + k.writes ≡ cur.state_version + v.key.writes
    all : All (Since v.key.writes) v.watched

  Since-weaken : (m n : ℕ) → m ≤ n → (w : Watched) → Since m w → Since n w
  Since-weaken m n h w s = record {
    seen_after = s.seen_after;
    seen_before = le_trans s.seen_before h;
    in_step = s.in_step;
  }

  executed-IsSound :
      (v : Savers) (w : Watched)
      → IsSound v
      → Since v.key.writes w
      → IsSound (record v { key = (execute w v.key).1 })
  unfolding execute
  executed-IsSound v w s h = elim (Bool-cases (v.key.writes == w.seen)) [
    | inl e ↦ rw e (record {
      now = record w.session { state_version = w.session.state_version + 1 };
      stored = refl;
      later = omega (arith, s.later);
      counted = ground arith;
      all =
          All-weaken (Since v.key.writes) (Since (v.key.writes + 1)) v.watched
            (Since-weaken v.key.writes (v.key.writes + 1) (omega arith)) s.all;
    })
    | inr e ↦ rw e s
  ]

  command-IsSound : (c : SaveCommand) (v : Savers) → IsSound v → IsSound (save_command c v)
  unfolding save_command
  command-IsSound (checks s) v h = elim (Bool-cases (h.now.state_version == s.state_version)) [
    | inl e ↦
        subst (λ x. IsSound (watching x v)) (sym (check_version-eq s h.now v.key h.stored e))
          (record {
            now = h.now;
            stored = h.stored;
            later = h.later;
            counted = h.counted;
            all = All-append (Since v.key.writes) v.watched _ h.all (
              record {
                seen_after = h.later;
                seen_before = le_refl v.key.writes;
                in_step = ground arith;
              },
              tt,
            );
          })
    | inr e ↦
        subst (λ x. IsSound (watching x v)) (sym (check_version-ne s h.now v.key h.stored e)) h
  ]
  command-IsSound (executes i) v h = elim (Option-cases (get_elem? v.watched i)) [
    | inl e ↦ rw (e, save_command) h
    | inr (w, e) ↦
        rw (e, save_command)
          (executed-IsSound v w h (All-get (Since v.key.writes) v.watched i w h.all e))
  ]

  commands-IsSound : (cs : List SaveCommand) (v : Savers) → IsSound v → IsSound (save_commands cs v)
  unfolding save_commands
  commands-IsSound [] v h = h
  commands-IsSound (c ∷ cs) v h = commands-IsSound cs (save_command c v) (command-IsSound c v h)

  save-stale :
      (s c : CallSession) (l : SessionKey)
      → l.value ≡ some c
      → (c.state_version == s.state_version) ≡ false
      → save s l ≡ (some cas_mismatch, l)
  unfolding save
  save-stale s c l h e = rw (check_version-ne s c l h e, save) refl

  execute-stale :
      (w : Watched) (l : SessionKey) → w.seen < l.writes → execute w l ≡ (some save_failed, l)
  unfolding execute
  execute-stale w l h = ground arith

  abbrev after : List SaveCommand → Savers
  after cs = save_commands cs (record { key = k; watched = [] })

  -- When the stored session has been written since it was loaded, by however many saves whose halves came
  -- in whatever order, then a save of a session of the loaded version is a mismatch, and a save of that
  -- version that has checked it before fails when it writes. Neither changes what is stored: no update
  -- of another turn is lost.
  pub save_commands-exclusive :
      (cs : List SaveCommand) (s : CallSession)
      → k.value ≡ some cur
      → k.writes < (after cs).key.writes
      → s.state_version ≡ cur.state_version
      → (save s (after cs).key ≡ (some cas_mismatch, (after cs).key))
        × All
            (λ w.
              w.session.state_version ≡ cur.state_version
              → execute w (after cs).key ≡ (some save_failed, (after cs).key))
            (after cs).watched
  save_commands-exclusive cs s h n e =
      let sound =
        commands-IsSound cs (record { key = k; watched = [] })
          (record { now = cur; stored = h; later = le_refl k.writes; counted = refl; all = tt }) in
      (
        save-stale s sound.now (after cs).key sound.stored (ground arith),
        All-weaken (Since (after cs).key.writes) _ (after cs).watched
            (λ w x v. execute-stale w (after cs).key (omega (arith, x.in_step))) sound.all,
      )
