-- ===== src/Hooks/Laws.antt =====
-- frontend/src/hooks: what a page shows, over every order in which its loads settle.
use enterprise_crm.Common.{
  false-true, ℕ, suc, ◌≤◌, String, true, false, none, some, ◌≡◌, refl, sym, subst, ◌∙◌, inl, inr,
  arith, eqb, Bool-cases,
}
use enterprise_crm.Hooks.{
  Loaded, content, api_failure, other_failure, get_error_message, Load, unused, waiting, settled,
  Hook, initial, clean_up, set_load, begin_load, show_content, finish_load, Step, began, unmounted,
  finished, Reachable, start, step,
}

-- What is on the page is what the load came to: its content, or the message of its error.
abbrev pub Shows : {C : Type 0} → String → Loaded C → Hook C → Type 0
Shows fallback (content c) hook = (hook.shown ≡ c) × (hook.error ≡ none) × (hook.is_loading ≡ false)
Shows fallback (api_failure message) hook = (hook.error ≡ some message) × (hook.is_loading ≡ false)
Shows fallback other_failure hook = (hook.error ≡ some fallback) × (hook.is_loading ≡ false)

-- How an active run stands: it waits, and the page says so, or it has settled, and is shown.
abbrev pub Stands : {C : Type 0} → String → Load C → Hook C → Type 0
Stands fallback unused hook = ⊥
Stands fallback waiting hook = hook.is_loading ≡ true
Stands fallback (settled loaded) hook = Shows fallback loaded hook

pub record IsCurrent {C : Type 0} (fallback : String) (s : Hook C) : Type 0 where
  pub newest : (k : ℕ) → s.is_active k ≡ true → suc k ≡ s.next
  pub stands : (k : ℕ) → s.is_active k ≡ true → Stands fallback (s.loads k) s
  pub fresh : (k : ℕ) → s.next ≤ k → s.loads k ≡ unused

module _ {C : Type 0} (fallback : String) where
  initial-IsCurrent : (empty_content : C) → IsCurrent fallback (initial empty_content)
  initial-IsCurrent empty_content = record {
    newest = λ k h. cc;
    stands = λ k h. absurd (false-true h);
    fresh = λ k h. refl;
  }

  clean_up-IsCurrent : (s : Hook C) → IsCurrent fallback s → IsCurrent fallback (clean_up s)
  unfolding clean_up
  clean_up-IsCurrent s c = record {
    newest = λ k h. cc;
    stands = λ k h. absurd (false-true h);
    fresh = c.fresh;
  }

  begin_load-IsCurrent : (s : Hook C) → IsCurrent fallback s → IsCurrent fallback (begin_load s)
  unfolding begin_load set_load
  begin_load-IsCurrent s c = record {
    newest = λ k h. ground arith;
    stands = λ k h. rw (h, set_load) refl;
    fresh = λ k h. ground (arith, c.fresh k);
  }

  Stands-set_load :
      (load : Load C) (s : Hook C) (loads : ℕ → Load C)
      → Stands fallback load s
      → Stands fallback load (record s { loads = loads })
  Stands-set_load unused s loads h = h
  Stands-set_load waiting s loads h = h
  Stands-set_load (settled (content c)) s loads h = h
  Stands-set_load (settled (api_failure message)) s loads h = h
  Stands-set_load (settled other_failure) s loads h = h

  -- The run that has settled is the active one: what it came to is shown.
  shown_Shows :
      (loaded : Loaded C) (s : Hook C) (loads : ℕ → Load C)
      → Shows fallback loaded (record s {
        shown = show_content loaded s.shown;
        error = get_error_message fallback loaded;
        is_loading = false;
        loads = loads;
      })
  unfolding get_error_message
  shown_Shows (content c) s loads = (refl, refl, refl)
  shown_Shows (api_failure message) s loads = (refl, refl)
  shown_Shows other_failure s loads = (refl, refl)

  unused_waiting : (load : Load C) → load ≡ unused → ¬ (load ≡ waiting)
  unused_waiting unused h k = cc
  unused_waiting waiting h k = cc
  unused_waiting (settled loaded) h k = cc

  active-IsCurrent :
      (k : ℕ) (loaded : Loaded C) (s : Hook C)
      → s.is_active k ≡ true
      → IsCurrent fallback s
      → IsCurrent fallback (finish_load fallback k loaded s)
  unfolding finish_load set_load
  active-IsCurrent k loaded s active c =
      rw (active, finish_load)
        (record {
          newest = c.newest;
          stands = λ j h.
              let same : eqb j k ≡ true = ground (arith, c.newest j h, c.newest k active) in
              rw (same, set_load) (shown_Shows loaded s _);
          fresh = λ j h. ground (arith, c.fresh j, c.newest k active);
        })

  inactive-IsCurrent :
      (k : ℕ) (loaded : Loaded C) (s : Hook C)
      → s.is_active k ≡ false
      → s.loads k ≡ waiting
      → IsCurrent fallback s
      → IsCurrent fallback (finish_load fallback k loaded s)
  unfolding finish_load set_load
  inactive-IsCurrent k loaded s inactive waits c =
      rw (inactive, finish_load)
        (record {
          newest = c.newest;
          stands = λ j h. elim (Bool-cases (eqb j k)) [
            | inl same ↦
                let at_k : j ≡ k = ground arith in
                absurd (false-true (sym inactive ∙ subst (λ n. s.is_active n ≡ true) at_k h))
            | inr other ↦ rw (other, set_load) (Stands-set_load (s.loads j) s _ (c.stands j h))
          ];
          fresh = λ j h. elim (Bool-cases (eqb j k)) [
            | inl same ↦ absurd (unused_waiting (s.loads k) (c.fresh k (ground arith)) waits)
            | inr other ↦ rw (other, set_load) (c.fresh j h)
          ];
        })

  Step-IsCurrent : (s t : Hook C) → Step fallback s t → IsCurrent fallback s → IsCurrent fallback t
  Step-IsCurrent s t began c = begin_load-IsCurrent (clean_up s) (clean_up-IsCurrent s c)
  Step-IsCurrent s t unmounted c = clean_up-IsCurrent s c
  Step-IsCurrent s t (finished k loaded waits) c = elim (Bool-cases (s.is_active k)) [
    | inl active ↦ active-IsCurrent k loaded s active c
    | inr inactive ↦ inactive-IsCurrent k loaded s inactive waits c
  ]

  pub Reachable-IsCurrent :
      (empty_content : C) (s : Hook C) → Reachable fallback empty_content s → IsCurrent fallback s
  Reachable-IsCurrent empty_content s start = initial-IsCurrent empty_content
  Reachable-IsCurrent empty_content t (step {s} r h) =
      Step-IsCurrent s t h (Reachable-IsCurrent empty_content s r)

-- In whatever order its loads settle, a mounted page stands as its newest load does: it says that it
-- is loading while this waits, and else it shows this load's content or the message of its error,
-- never what an earlier load came to.
pub Reachable-Stands :
    {C : Type 0} (fallback : String) (empty_content : C) (s : Hook C) (k : ℕ)
    → Reachable fallback empty_content s
    → s.is_active k ≡ true
    → (suc k ≡ s.next) × Stands fallback (s.loads k) s
Reachable-Stands fallback empty_content s k r active =
    let c = Reachable-IsCurrent fallback empty_content s r in (c.newest k active, c.stands k active)
