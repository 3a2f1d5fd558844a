-- ===== src/Queue/Complete.antt =====
-- The loops of `_round_robin_candidates` end by their own tests, and pass nobody over.
use Prim.Native.Nat.{Ordering}
use stocks_agent.Common.{
  length-sorted, insert_sorted, sorted, ℕ, zero, suc, ◌+◌, ◌≤◌, ◌<◌, ◌≡◌, refl, List, [], ◌∷◌,
  String, arith, length, length-append, ltb, Bool-cases, inl, inr, ◌⊎◌,
}
use stocks_agent.Queue.Candidate.{EnrichmentCandidate}
use stocks_agent.Queue.RoundRobin.{
  Themes, append_to_theme, group_by_theme, Selection, is_blocked, next_row, select_chosen,
  keep_theme, visit_themes, sorted_themes, rounds,
}

-- The number of rows left.
abbrev pub total : Themes → ℕ
total [] = 0
total ((theme, rows) ∷ themes) = length rows + total themes

abbrev pub HasRows : Themes → Type 0
HasRows [] = Unit
HasRows ((theme, rows) ∷ themes) = (0 < length rows) × HasRows themes

append_to_theme-total :
    (value : EnrichmentCandidate) (themes : Themes)
    → HasRows themes
    → (total (append_to_theme value themes) ≡ suc (total themes))
      × HasRows (append_to_theme value themes)
unfolding append_to_theme
append_to_theme-total value [] h = (refl, (omega arith, tt))
append_to_theme-total value ((theme, rows) ∷ themes) h =
    ground (arith, append_to_theme-total value themes h.1, length-append rows (value ∷ []))

pub group_by_theme-total :
    (themes : Themes) (values : List EnrichmentCandidate)
    → HasRows themes
    → (total (group_by_theme themes values) ≡ total themes + length values)
      × HasRows (group_by_theme themes values)
unfolding group_by_theme
group_by_theme-total themes [] h = (omega arith, h)
group_by_theme-total themes (value ∷ values) h =
    let one = append_to_theme-total value themes h in
    let rest = group_by_theme-total (append_to_theme value themes) values one.1 in
    (omega (arith, one.0, rest.0), rest.1)

insert_sorted-total :
    (order : String × List EnrichmentCandidate → String × List EnrichmentCandidate → Ordering)
    (t : String × List EnrichmentCandidate) (themes : Themes)
    → (0 < length t.1)
    → HasRows themes
    → (total (insert_sorted order t themes) ≡ length t.1 + total themes)
      × HasRows (insert_sorted order t themes)
unfolding insert_sorted
insert_sorted-total order t [] h hs = (refl, (h, tt))
insert_sorted-total order t (u ∷ themes) h hs =
    ground (arith, insert_sorted-total order t themes h hs.1)

sorted-total :
    (order : String × List EnrichmentCandidate → String × List EnrichmentCandidate → Ordering)
    (themes : Themes)
    → HasRows themes
    → (total (sorted order themes) ≡ total themes) × HasRows (sorted order themes)
unfolding sorted
sorted-total order [] h = (refl, tt)
sorted-total order (t ∷ themes) h =
    let rest = sorted-total order themes h.1 in
    let all' = insert_sorted-total order t (sorted order themes) h.0 rest.1 in
    (omega (arith, rest.0, all'.0), all'.1)

sorted_themes-total :
    (themes : Themes)
    → HasRows themes
    → (total (sorted_themes themes) ≡ total themes) × HasRows (sorted_themes themes)
unfolding sorted_themes
sorted_themes-total themes h = sorted-total _ themes h

sorted_themes-length : (themes : Themes) → length (sorted_themes themes) ≡ length themes
unfolding sorted_themes
sorted_themes-length themes = length-sorted _ themes

next_row-shorter :
    (s : Selection) (rows : List EnrichmentCandidate)
    → 0 < length rows
    → suc (length (next_row s rows).1) ≤ length rows
unfolding next_row
next_row-shorter s [] h = h
next_row-shorter s (row ∷ rows) h = elim (Bool-cases (is_blocked s row)) [
  | inr free ↦ rw (free, next_row) (omega arith)
  | inl blocked ↦ rw (blocked, next_row) (shorter rows)
]
  where
    shorter : (rs : List EnrichmentCandidate) → suc (length (next_row s rs).1) ≤ suc (length rs)
    shorter [] = omega arith
    shorter (r ∷ rs) = elim (Bool-cases (is_blocked s r)) [
      | inr free ↦ rw (free, next_row) (omega arith)
      | inl blocked ↦ rw (blocked, next_row) (omega (arith, shorter rs))
    ]

keep_theme-total :
    (theme : String) (left : List EnrichmentCandidate) (next : Themes)
    → HasRows next
    → (total (keep_theme theme left next) ≡ length left + total next)
      × HasRows (keep_theme theme left next)
unfolding keep_theme
keep_theme-total theme [] next h = (omega arith, h)
keep_theme-total theme (row ∷ rows) next h = (refl, (omega arith, h))

module _ (maximum : ℕ) where
  visit_themes-total :
      (s : Selection) (themes : Themes)
      → HasRows themes
      → (total (visit_themes maximum s themes).1 + length themes ≤ total themes)
        × HasRows (visit_themes maximum s themes).1
  unfolding visit_themes
  visit_themes-total s [] h = (omega arith, tt)
  visit_themes-total s ((theme, rows) ∷ themes) h =
      let (chosen, left) = next_row s rows in
      let s' = select_chosen maximum s chosen in
      let rest = visit_themes-total s' themes h.1 in
      let kept = keep_theme-total theme left (visit_themes maximum s' themes).1 rest.1 in
      (omega (arith, next_row-shorter s rows h.0, rest.0, kept.0), kept.1)

  -- With as much fuel as there are rows, the loop ends by its own test.
  pub rounds-ends :
      (fuel : ℕ) (s : Selection) (themes : Themes)
      → HasRows themes
      → total themes ≤ fuel
      → ((rounds fuel maximum s themes).1 ≡ [])
        ⊎ (maximum ≤ length (rounds fuel maximum s themes).0.selected)
  unfolding rounds
  rounds-ends zero s [] h enough = inl refl
  rounds-ends zero s (theme ∷ themes) h enough = absurd (omega arith)
  rounds-ends (suc fuel) s [] h enough = inl refl
  rounds-ends (suc fuel) s (theme ∷ themes) h enough =
      elim (Bool-cases (ltb (length s.selected) maximum)) [
        | inr full ↦ rw (full, rounds) (inr (ground arith))
        | inl room ↦
            let order = sorted_themes (theme ∷ themes) in
            let (same, h') = sorted_themes-total (theme ∷ themes) h in
            let fewer = visit_themes-total s order h' in
            let long = sorted_themes-length (theme ∷ themes) in
            rw (room, rounds)
              (rounds-ends fuel (visit_themes maximum s order).0 (visit_themes maximum s order).1
                fewer.1 (omega (arith, fewer.0, same, long)))
      ]
