-- ===== src/Queue/Passed.antt =====
-- Which candidates `_round_robin_candidates` passes over.
use Prim.Native.Nat.{Ordering}
use stocks_agent.Common.{
  IsIn, IsIn-last, IsIn-snoc, IsIn-sorted, insert_sorted, is_after, length-sorted, sorted, ℕ, zero,
  suc, ◌≤◌, ◌<◌, ◌≡◌, true, Option, none, some, List, [], ◌∷◌, ◌++◌, String, arith, length,
  length-append, ltb, str_eq, contains, Bool-cases, inl, inr, ◌⊎◌, str_eq_self, ap, sym, subst,
}
use stocks_agent.Queue.Candidate.{EnrichmentCandidate, compare_candidates}
use stocks_agent.Queue.RoundRobin.{
  Themes, append_to_theme, group_by_theme, Selection, is_blocked, next_row, select, select_chosen,
  keep_theme, visit_themes, sorted_themes, rounds, round_robin, round_robin_candidates,
  nothing_selected,
}
use stocks_agent.Queue.Limits.{
  count, entities, IsSelection, rounds-IsSelection, nothing_selected-IsSelection,
}
use stocks_agent.Queue.Complete.{rounds-ends, group_by_theme-total}

module _ (maximum : ℕ) (c : EnrichmentCandidate) where
  abbrev InThemes : Themes → Type 0
  InThemes [] = ⊥
  InThemes ((theme, rows) ∷ themes) = IsIn c rows ⊎ InThemes themes

  -- Selected or not, `c` is decided: its entity or its event is used up, or there is no more room.
  abbrev IsSettled : Selection → Type 0
  IsSettled s = (is_blocked s c ≡ true) ⊎ (maximum ≤ length s.selected)

  append_to_theme-in :
      (value : EnrichmentCandidate) (themes : Themes)
      → (c ≡ value) ⊎ InThemes themes
      → InThemes (append_to_theme value themes)
  unfolding append_to_theme
  append_to_theme-in value [] (inl e) = inl (inl e)
  append_to_theme-in value [] (inr h) = absurd h
  append_to_theme-in value ((theme, rows) ∷ themes) h =
      elim (Bool-cases (str_eq theme value.hypothesis.theme_id)) [
        | inl same ↦ rw (same, append_to_theme) (joined h)
        | inr other ↦ rw (other, append_to_theme) (passed (append_to_theme-in value themes) h)
      ]
    where
      joined :
          (c ≡ value) ⊎ (IsIn c rows ⊎ InThemes themes)
          → IsIn c (rows ++ value ∷ []) ⊎ InThemes themes
      joined (inl e) = inl (IsIn-last c rows value e)
      joined (inr (inl here)) = inl (IsIn-snoc c rows here value)
      joined (inr (inr there)) = inr there

      passed :
          ((c ≡ value) ⊎ InThemes themes → InThemes (append_to_theme value themes))
          → (c ≡ value) ⊎ (IsIn c rows ⊎ InThemes themes)
          → IsIn c rows ⊎ InThemes (append_to_theme value themes)
      passed rest (inl e) = inr (rest (inl e))
      passed rest (inr (inl here)) = inl here
      passed rest (inr (inr there)) = inr (rest (inr there))

  group_by_theme-in :
      (themes : Themes) (values : List EnrichmentCandidate)
      → IsIn c values ⊎ InThemes themes
      → InThemes (group_by_theme themes values)
  unfolding group_by_theme
  group_by_theme-in themes [] (inl h) = absurd h
  group_by_theme-in themes [] (inr h) = h
  group_by_theme-in themes (value ∷ values) (inl (inl e)) =
      group_by_theme-in (append_to_theme value themes) values
        (inr (append_to_theme-in value themes (inl e)))
  group_by_theme-in themes (value ∷ values) (inl (inr later)) =
      group_by_theme-in (append_to_theme value themes) values (inl later)
  group_by_theme-in themes (value ∷ values) (inr h) =
      group_by_theme-in (append_to_theme value themes) values
        (inr (append_to_theme-in value themes (inr h)))

  insert_sorted-in :
      (order : String × List EnrichmentCandidate → String × List EnrichmentCandidate → Ordering)
      (t : String × List EnrichmentCandidate) (themes : Themes)
      → IsIn c t.1 ⊎ InThemes themes
      → InThemes (insert_sorted order t themes)
  unfolding insert_sorted
  insert_sorted-in order t [] h = h
  insert_sorted-in order t (u ∷ themes) h = elim (Bool-cases (is_after (order t u))) [
    | inr first ↦ rw (first, insert_sorted) h
    | inl later ↦ rw (later, insert_sorted) (past (insert_sorted-in order t themes) h)
  ]
    where
      past :
          (IsIn c t.1 ⊎ InThemes themes → InThemes (insert_sorted order t themes))
          → IsIn c t.1 ⊎ (IsIn c u.1 ⊎ InThemes themes)
          → IsIn c u.1 ⊎ InThemes (insert_sorted order t themes)
      past rest (inl e) = inr (rest (inl e))
      past rest (inr (inl here)) = inl here
      past rest (inr (inr there)) = inr (rest (inr there))

  sorted-in :
      (order : String × List EnrichmentCandidate → String × List EnrichmentCandidate → Ordering)
      (themes : Themes)
      → InThemes themes
      → InThemes (sorted order themes)
  unfolding sorted
  sorted-in order [] h = h
  sorted-in order (t ∷ themes) (inl here) =
      insert_sorted-in order t (sorted order themes) (inl here)
  sorted-in order (t ∷ themes) (inr there) =
      insert_sorted-in order t (sorted order themes) (inr (sorted-in order themes there))

  sorted_themes-in : (themes : Themes) → InThemes themes → InThemes (sorted_themes themes)
  unfolding sorted_themes
  sorted_themes-in themes h = sorted-in _ themes h

  -- The row is still there, or it was blocked, or it is the one that is chosen.
  next_row-IsIn :
      (s : Selection) (rows : List EnrichmentCandidate)
      → IsIn c rows
      → IsIn c (next_row s rows).1 ⊎ ((is_blocked s c ≡ true) ⊎ ((next_row s rows).0 ≡ some c))
  unfolding next_row
  next_row-IsIn s [] h = absurd h
  next_row-IsIn s (row ∷ rows) h = elim (Bool-cases (is_blocked s row)) [
    | inr free ↦ rw (free, next_row) (first h)
    | inl blocked ↦ rw (blocked, next_row) (later (next_row-IsIn s rows) blocked h)
  ]
    where
      first :
          (c ≡ row) ⊎ IsIn c rows → IsIn c rows ⊎ ((is_blocked s c ≡ true) ⊎ (some row ≡ some c))
      first (inl e) = inr (inr (ap some (sym e)))
      first (inr there) = inl there

      later :
          (IsIn c rows
            → IsIn c (next_row s rows).1
              ⊎ ((is_blocked s c ≡ true) ⊎ ((next_row s rows).0 ≡ some c)))
          → is_blocked s row ≡ true
          → (c ≡ row) ⊎ IsIn c rows
          → IsIn c (next_row s rows).1 ⊎ ((is_blocked s c ≡ true) ⊎ ((next_row s rows).0 ≡ some c))
      later rest blocked (inl e) = inr (inl (rw e blocked))
      later rest blocked (inr there) = rest there

  select_chosen-IsSettled :
      (s : Selection) (chosen : Option EnrichmentCandidate)
      → IsSettled s ⊎ (chosen ≡ some c)
      → IsSettled (select_chosen maximum s chosen)
  unfolding select_chosen
  select_chosen-IsSettled s none (inl h) = h
  select_chosen-IsSettled s none (inr h) = absurd (ground arith)
  select_chosen-IsSettled s (some row) h = elim (Bool-cases (ltb (length s.selected) maximum)) [
    | inr full ↦ rw full (inr (ground arith))
    | inl room ↦ rw room (chosen' room h)
  ]
    where
      chosen' :
          ltb (length s.selected) maximum ≡ true
          → IsSettled s ⊎ (some row ≡ some c)
          → IsSettled (select s row)
      chosen' room (inl (inl blocked)) = inl (ground arith)
      chosen' room (inl (inr full)) = inr (omega (arith, length-append s.selected (row ∷ [])))
      chosen' room (inr e) = inl (ground (arith, e, str_eq_self c.entity_id))

  keep_theme-in :
      (theme : String) (left : List EnrichmentCandidate) (next : Themes)
      → IsIn c left ⊎ InThemes next
      → InThemes (keep_theme theme left next)
  unfolding keep_theme
  keep_theme-in theme [] next (inl h) = absurd h
  keep_theme-in theme [] next (inr h) = h
  keep_theme-in theme (row ∷ rows) next h = h

  visit_themes-in :
      (s : Selection) (themes : Themes)
      → InThemes themes ⊎ IsSettled s
      → InThemes (visit_themes maximum s themes).1 ⊎ IsSettled (visit_themes maximum s themes).0
  unfolding visit_themes
  visit_themes-in s [] (inl h) = absurd h
  visit_themes-in s [] (inr h) = inr h
  visit_themes-in s ((theme, rows) ∷ themes) h =
      theme_in theme (next_row s rows).1
        (visit_themes maximum (select_chosen maximum s (next_row s rows).0) themes)
        (visited (visit_themes-in (select_chosen maximum s (next_row s rows).0) themes) h)
    where
      after : Selection
      after = select_chosen maximum s (next_row s rows).0

      theme_in :
          (t : String) (left : List EnrichmentCandidate) (v : Selection × Themes)
          → IsIn c left ⊎ (InThemes v.1 ⊎ IsSettled v.0)
          → InThemes (keep_theme t left v.1) ⊎ IsSettled v.0
      theme_in t left v (inl here) = inl (keep_theme-in t left v.1 (inl here))
      theme_in t left v (inr (inl there)) = inl (keep_theme-in t left v.1 (inr there))
      theme_in t left v (inr (inr settled)) = inr settled

      row_in :
          IsIn c (next_row s rows).1 ⊎ ((is_blocked s c ≡ true) ⊎ ((next_row s rows).0 ≡ some c))
          → IsIn c (next_row s rows).1 ⊎ IsSettled after
      row_in (inl left) = inl left
      row_in (inr (inl blocked)) =
          inr (select_chosen-IsSettled s (next_row s rows).0 (inl (inl blocked)))
      row_in (inr (inr chosen)) = inr (select_chosen-IsSettled s (next_row s rows).0 (inr chosen))

      visited :
          (InThemes themes ⊎ IsSettled after
            → InThemes (visit_themes maximum after themes).1
              ⊎ IsSettled (visit_themes maximum after themes).0)
          → (IsIn c rows ⊎ InThemes themes) ⊎ IsSettled s
          → IsIn c (next_row s rows).1
            ⊎ (InThemes (visit_themes maximum after themes).1
                ⊎ IsSettled (visit_themes maximum after themes).0)
      visited rest (inl (inl here)) = elim (row_in (next_row-IsIn s rows here)) [
        | inl left ↦ inl left
        | inr settled ↦ inr (rest (inr settled))
      ]
      visited rest (inl (inr there)) = inr (rest (inl there))
      visited rest (inr settled) =
          inr (rest (inr (select_chosen-IsSettled s (next_row s rows).0 (inl settled))))

  rounds-in :
      (fuel : ℕ) (s : Selection) (themes : Themes)
      → InThemes themes ⊎ IsSettled s
      → InThemes (rounds fuel maximum s themes).1 ⊎ IsSettled (rounds fuel maximum s themes).0
  unfolding rounds
  rounds-in zero s themes h = h
  rounds-in (suc fuel) s [] h = h
  rounds-in (suc fuel) s (theme ∷ themes) h = elim (Bool-cases (ltb (length s.selected) maximum)) [
    | inr full ↦ rw (full, rounds) h
    | inl room ↦
        rw (room, rounds)
          (rounds-in fuel _ _ (visit_themes-in s (sorted_themes (theme ∷ themes)) (ordered h)))
  ]
    where
      ordered :
          InThemes (theme ∷ themes) ⊎ IsSettled s
          → InThemes (sorted_themes (theme ∷ themes)) ⊎ IsSettled s
      ordered (inl there) = inl (sorted_themes-in (theme ∷ themes) there)
      ordered (inr settled) = inr settled

-- The loop ends by its own test, and nobody is passed over: if fewer than `maximum` candidates are
-- selected, the entity of every candidate is selected already, or its event is selected twice.
pub round_robin_complete :
    (values : List EnrichmentCandidate) (maximum : ℕ) (c : EnrichmentCandidate)
    → IsIn c values
    → length (round_robin_candidates values maximum) < maximum
    → (contains c.entity_id (entities (round_robin_candidates values maximum)) ≡ true)
      ⊎ (count c.hypothesis.event_id (round_robin_candidates values maximum) ≡ 2)
unfolding round_robin_candidates round_robin
round_robin_complete values maximum c here few =
    let ordered = sorted compare_candidates values in
    let (many, rows) = group_by_theme-total [] ordered tt in
    let themes = group_by_theme [] ordered in
    let ends =
      rounds-ends maximum (length values) nothing_selected themes rows
        (omega (arith, many, length-sorted compare_candidates values)) in
    let v =
      rounds-IsSelection maximum (length values) nothing_selected themes
        (nothing_selected-IsSelection maximum) in
    let final = rounds (length values) maximum nothing_selected themes in
    let decided = rounds-in maximum c (length values) nothing_selected themes (
      inl (
        group_by_theme-in maximum c [] ordered
          (inl (IsIn-sorted c compare_candidates values here)))) in
    blocked final v few ends decided
  where
    blocked :
        (final : Selection × Themes)
        → IsSelection maximum final.0
        → length final.0.selected < maximum
        → (final.1 ≡ []) ⊎ (maximum ≤ length final.0.selected)
        → InThemes maximum c final.1 ⊎ IsSettled maximum c final.0
        → (contains c.entity_id (entities final.0.selected) ≡ true)
          ⊎ (count c.hypothesis.event_id final.0.selected ≡ 2)
    blocked final v few (inr full) _ = absurd (omega arith)
    blocked final v few (inl empty) (inl left) = absurd (subst (InThemes maximum c) empty left)
    blocked final v few _ (inr (inr full)) = absurd (omega arith)
    blocked final v few _ (inr (inl used)) = ground (
      arith,
      v.listed c.entity_id,
      v.counted c.hypothesis.event_id,
      v.twice c.hypothesis.event_id,
    )
