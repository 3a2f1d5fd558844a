-- ===== src/Queue/Limits.antt =====
-- What `_round_robin_candidates` selects: few, distinct entities, and no event more than twice.
use stocks_agent.Common.{
  sorted, ℕ, zero, suc, ◌+◌, ◌≤◌, ◌<◌, ◌≡◌, refl, true, false, ◌||◌, Option, none, some, List, [],
  ◌∷◌, ◌++◌, map, String, arith, length, length-append, ltb, str_eq, eq_iff, contains, all_distinct,
  if◌then◌else◌, Bool-cases, inl, inr, ltb→lt,
}
use stocks_agent.Queue.Candidate.{EnrichmentCandidate, compare_candidates}
use stocks_agent.Queue.RoundRobin.{
  Themes, group_by_theme, Selection, is_blocked, next_row, select, select_chosen, visit_themes,
  sorted_themes, rounds, round_robin, round_robin_candidates, nothing_selected,
}

abbrev pub entities : List EnrichmentCandidate → List String
entities rows = map (λ row. row.entity_id) rows

-- How many of the candidates are about the event.
abbrev pub count : String → List EnrichmentCandidate → ℕ
count event [] = 0
count event (row ∷ rows) =
    if str_eq event row.hypothesis.event_id then count event rows + 1 else count event rows

pub record IsSelection (maximum : ℕ) (s : Selection) : Type 0 where
  pub bounded : length s.selected ≤ maximum
  pub listed : (e : String) → contains e s.used_entities ≡ contains e (entities s.selected)
  pub distinct : all_distinct (entities s.selected) ≡ true
  pub counted : (e : String) → s.used_events e ≡ count e s.selected
  pub twice : (e : String) → s.used_events e ≤ 2

contains-snoc :
    (e : String) (rows : List EnrichmentCandidate) (row : EnrichmentCandidate)
    → contains e (entities (rows ++ row ∷ []))
      ≡ (contains e (entities rows) || str_eq e row.entity_id)
contains-snoc e [] row = ground arith
contains-snoc e (r ∷ rows) row = ground (arith, contains-snoc e rows row)

all_distinct-snoc :
    (rows : List EnrichmentCandidate) (row : EnrichmentCandidate)
    → all_distinct (entities rows) ≡ true
    → contains row.entity_id (entities rows) ≡ false
    → all_distinct (entities (rows ++ row ∷ [])) ≡ true
all_distinct-snoc [] row d new = refl
all_distinct-snoc (r ∷ rows) row d new = ground (
  arith,
  all_distinct-snoc rows row,
  contains-snoc r.entity_id rows row,
  eq_iff r.entity_id row.entity_id,
  eq_iff row.entity_id r.entity_id,
)

count-snoc :
    (e : String) (rows : List EnrichmentCandidate) (row : EnrichmentCandidate)
    → count e (rows ++ row ∷ [])
      ≡ (if str_eq e row.hypothesis.event_id then count e rows + 1 else count e rows)
count-snoc e [] row = refl
count-snoc e (r ∷ rows) row = ground (arith, count-snoc e rows row)

module _ (maximum : ℕ) where
  select-IsSelection :
      (s : Selection) (row : EnrichmentCandidate)
      → is_blocked s row ≡ false
      → length s.selected < maximum
      → IsSelection maximum s
      → IsSelection maximum (select s row)
  select-IsSelection s row free room v = record {
    bounded = omega (arith, length-append s.selected (row ∷ []));
    listed = λ e. ground (arith, v.listed e, contains-snoc e s.selected row);
    distinct = all_distinct-snoc s.selected row v.distinct (ground (arith, v.listed row.entity_id));
    counted = λ e. ground (arith, v.counted e, count-snoc e s.selected row);
    twice = λ e. ground (arith, v.twice e, eq_iff e row.hypothesis.event_id);
  }

  next_row-free :
      (s : Selection) (rows : List EnrichmentCandidate) (row : EnrichmentCandidate)
      → (next_row s rows).0 ≡ some row
      → is_blocked s row ≡ false
  unfolding next_row
  next_row-free s [] row e = cc
  next_row-free s (r ∷ rows) row e = elim (Bool-cases (is_blocked s r)) [
    | inl blocked ↦ next_row-free s rows row (rw (blocked, next_row) at e)
    | inr free ↦ ground arith
  ]

  select_chosen-IsSelection :
      (s : Selection) (chosen : Option EnrichmentCandidate)
      → ((row : EnrichmentCandidate) → chosen ≡ some row → is_blocked s row ≡ false)
      → IsSelection maximum s
      → IsSelection maximum (select_chosen maximum s chosen)
  unfolding select_chosen
  select_chosen-IsSelection s none free v = v
  select_chosen-IsSelection s (some row) free v =
      elim (Bool-cases (ltb (length s.selected) maximum)) [
        | inl room ↦ rw room (select-IsSelection s row (free row refl) (ltb→lt _ _ room) v)
        | inr full ↦ rw full v
      ]

  visit_themes-IsSelection :
      (s : Selection) (themes : Themes)
      → IsSelection maximum s
      → IsSelection maximum (visit_themes maximum s themes).0
  unfolding visit_themes
  visit_themes-IsSelection s [] v = v
  visit_themes-IsSelection s ((theme, rows) ∷ themes) v =
      visit_themes-IsSelection (select_chosen maximum s (next_row s rows).0) themes
        (select_chosen-IsSelection s (next_row s rows).0 (next_row-free s rows) v)

  pub rounds-IsSelection :
      (fuel : ℕ) (s : Selection) (themes : Themes)
      → IsSelection maximum s
      → IsSelection maximum (rounds fuel maximum s themes).0
  unfolding rounds
  rounds-IsSelection zero s themes v = v
  rounds-IsSelection (suc fuel) s [] v = v
  rounds-IsSelection (suc fuel) s (theme ∷ themes) v =
      elim (Bool-cases (ltb (length s.selected) maximum)) [
        | inl room ↦
            rw (room, rounds)
              (rounds-IsSelection fuel (visit_themes maximum s (sorted_themes (theme ∷ themes))).0
                (visit_themes maximum s (sorted_themes (theme ∷ themes))).1
                (visit_themes-IsSelection s (sorted_themes (theme ∷ themes)) v))
        | inr full ↦ rw (full, rounds) v
      ]

  pub nothing_selected-IsSelection : IsSelection maximum nothing_selected
  nothing_selected-IsSelection = record {
    bounded = omega arith;
    listed = λ e. refl;
    distinct = refl;
    counted = λ e. refl;
    twice = λ e. omega arith;
  }

-- At most `maximum` candidates are selected, no two of one entity, and at most two of an event.
pub round_robin-limits :
    (values : List EnrichmentCandidate) (maximum : ℕ)
    → let chosen = round_robin_candidates values maximum in
      (length chosen ≤ maximum)
      × (all_distinct (entities chosen) ≡ true)
      × ((event : String) → count event chosen ≤ 2)
unfolding round_robin_candidates round_robin
round_robin-limits values maximum =
    let themes = group_by_theme [] (sorted compare_candidates values) in
    let v =
      rounds-IsSelection maximum (length values) nothing_selected themes
        (nothing_selected-IsSelection maximum) in
    (v.bounded, v.distinct, λ event. omega (arith, v.counted event, v.twice event))
