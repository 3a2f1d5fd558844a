-- ===== src/Queue/RoundRobin.antt =====
-- `_round_robin_candidates` of lib/intelligence/research_queue.py.
use Prim.Native.String.{compare as compare_texts}
use stocks_agent.Common.{
  sorted, ℕ, zero, suc, ◌+◌, Bool, true, false, ◌||◌, Option, none, some, List, [], ◌∷◌, ◌++◌,
  String, length, ltb, leb, str_eq, contains, if◌then◌else◌,
}
use stocks_agent.Queue.Candidate.{EnrichmentCandidate, compare_candidates}

-- Candidates by theme, in the order of the dict.
abbrev pub Themes : Type 0
Themes = List (String × List EnrichmentCandidate)

-- `themes[theme].append(value)`
unfoldable pub append_to_theme : EnrichmentCandidate → Themes → Themes
append_to_theme value [] = (value.hypothesis.theme_id, value ∷ []) ∷ []
append_to_theme value ((theme, rows) ∷ themes) =
    if str_eq theme value.hypothesis.theme_id
    then (theme, rows ++ value ∷ []) ∷ themes
    else (theme, rows) ∷ append_to_theme value themes

unfoldable pub group_by_theme : Themes → List EnrichmentCandidate → Themes
group_by_theme themes [] = themes
group_by_theme themes (value ∷ values) = group_by_theme (append_to_theme value themes) values

-- The local variables of the loop. `used_events` counts from zero.
pub record Selection : Type 0 where
  pub selected : List EnrichmentCandidate
  pub used_entities : List String
  pub used_events : String → ℕ

-- `row.entity_id in used_entities or used_events[row.hypothesis.event_id] >= 2`
abbrev pub is_blocked : Selection → EnrichmentCandidate → Bool
is_blocked s row =
    contains row.entity_id s.used_entities || leb 2 (s.used_events row.hypothesis.event_id)

-- The inner `while rows`: the first row that is not blocked, and the rows behind it.
unfoldable pub next_row :
    Selection → List EnrichmentCandidate → Option EnrichmentCandidate × List EnrichmentCandidate
next_row s [] = (none, [])
next_row s (row ∷ rows) = elim (is_blocked s row) [
  | true ↦ next_row s rows
  | false ↦ (some row, rows)
]

abbrev pub select : Selection → EnrichmentCandidate → Selection
select s row = record {
  selected = s.selected ++ row ∷ [];
  used_entities = row.entity_id ∷ s.used_entities;
  used_events = λ event.
      if str_eq event row.hypothesis.event_id then s.used_events event + 1 else s.used_events event;
}

-- `if chosen is not None and len(selected) < maximum`
unfoldable pub select_chosen : ℕ → Selection → Option EnrichmentCandidate → Selection
select_chosen maximum s none = s
select_chosen maximum s (some row) = if ltb (length s.selected) maximum then select s row else s

-- `if rows: next_themes[theme] = rows`
unfoldable pub keep_theme : String → List EnrichmentCandidate → Themes → Themes
keep_theme theme [] next = next
keep_theme theme (row ∷ rows) next = (theme, row ∷ rows) ∷ next

-- The `for` loop over the sorted themes: the selection and `next_themes`.
unfoldable pub visit_themes : ℕ → Selection → Themes → Selection × Themes
visit_themes maximum s [] = (s, [])
visit_themes maximum s ((theme, rows) ∷ themes) =
    let (chosen, left) = next_row s rows in
    let (s', next) = visit_themes maximum (select_chosen maximum s chosen) themes in
    (s', keep_theme theme left next)

-- `sorted(themes)` sorts the keys, which are distinct.
unfoldable pub sorted_themes : Themes → Themes
sorted_themes = sorted (λ a b. compare_texts a.0 b.0)

-- The outer `while`. Each round takes a row from every theme, so that the number of rows is fuel
-- enough (`RoundRobin.Complete`).
unfoldable pub rounds : (fuel maximum : ℕ) → Selection → Themes → Selection × Themes
rounds zero maximum s themes = (s, themes)
rounds (suc fuel) maximum s [] = (s, [])
rounds (suc fuel) maximum s (theme ∷ themes) = elim (ltb (length s.selected) maximum) [
  | true ↦
      let (s', next) = visit_themes maximum s (sorted_themes (theme ∷ themes)) in
      rounds fuel maximum s' next
  | false ↦ (s, theme ∷ themes)
]

abbrev pub nothing_selected : Selection
nothing_selected = record { selected = []; used_entities = []; used_events = λ _. 0 }

unfoldable pub round_robin : List EnrichmentCandidate → ℕ → Selection × Themes
round_robin values maximum =
    rounds (length values) maximum nothing_selected
      (group_by_theme [] (sorted compare_candidates values))

unfoldable pub round_robin_candidates : List EnrichmentCandidate → ℕ → List EnrichmentCandidate
round_robin_candidates values maximum = (round_robin values maximum).0.selected
