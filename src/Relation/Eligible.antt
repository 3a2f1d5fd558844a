-- ===== src/Relation/Eligible.antt =====
-- When a relation that `propose_relation` proposes is eligible for ranking.
use stocks_agent.Common.{
  ◌≡◌, ◌↔◌, ◌∙◌, refl, sym, subst, Bool, true, false, not, ◌&&◌, Option, List, [], ◌∷◌, String,
  filter, take, if◌then◌else◌, ok,
}
use stocks_agent.Relation.Item.{SourceItem, is_exposure, qualifies_exposure}
use stocks_agent.Relation.Proposal.{
  EventRelationship, put_items, is_nonempty, missing_reasons_of, prioritized_evidence, relation_of,
  propose_relation,
}
use stocks_agent.Relation.Prioritized.{any-of_filter}
use stocks_agent.Relation.Retained.{prioritized_evidence-any, propose_relation-of}

-- If a relation is proposed, it is eligible for ranking exactly when an item of the evidence is an
-- official exposure (where a key stands twice, its last item counts), however much is dropped. Then
-- it is no hypothesis, is qualified, misses nothing, and lists an exposure; otherwise not.
pub propose_relation-eligible :
    (casefold upper name_hash : String → String) (event_id ticker : String)
    (security_id : Option String) (role : String) (evidence : List SourceItem)
    (r : EventRelationship)
    → propose_relation casefold upper name_hash event_id ticker security_id role evidence ≡ ok r
    → (r.eligible_for_ranking ≡ qualifies_exposure casefold (put_items name_hash [] evidence))
      × (r.hypothesis ≡ not r.eligible_for_ranking)
      × ((r.exposure_status ≡ "qualified") ↔ (r.eligible_for_ranking ≡ true))
      × ((r.missing_reasons ≡ []) ↔ (r.eligible_for_ranking ≡ true))
      × (is_nonempty r.exposure_evidence ≡ r.eligible_for_ranking)
unfolding relation_of
propose_relation-eligible casefold upper name_hash event_id ticker security_id role evidence r e =
    let (same, ticker_known, role_known, id_known) =
      propose_relation-of casefold upper name_hash event_id ticker security_id role evidence r e in
    subst
      (λ r.
        (r.eligible_for_ranking ≡ qualifies_exposure casefold (put_items name_hash [] evidence))
        × (r.hypothesis ≡ not r.eligible_for_ranking)
        × ((r.exposure_status ≡ "qualified") ↔ (r.eligible_for_ranking ≡ true))
        × ((r.missing_reasons ≡ []) ↔ (r.eligible_for_ranking ≡ true))
        × (is_nonempty r.exposure_evidence ≡ r.eligible_for_ranking))
      (sym same)
      (
        any-of_filter (is_exposure casefold) retained
            ∙ prioritized_evidence-any casefold name_hash evidence,
        refl,
        status (is_nonempty retained && is_nonempty (filter (is_exposure casefold) retained)),
        missing retained,
        listed_exposure retained,
      )
  where
    retained : List SourceItem
    retained = take 8 (prioritized_evidence casefold name_hash evidence)

    insufficient : String
    insufficient = "insufficient"

    qualified : String
    qualified = "qualified"

    status : (b : Bool) → ((if b then qualified else insufficient) ≡ qualified) ↔ (b ≡ true)
    status true = (λ h. refl, λ h. refl)
    status false = (λ h. absurd (not_qualified h), λ h. cc)
      where
        not_qualified : insufficient ≡ qualified → ⊥
        not_qualified h = cc

    missing :
        (items : List SourceItem)
        → (missing_reasons_of items (filter (is_exposure casefold) items) ≡ [])
          ↔ ((is_nonempty items && is_nonempty (filter (is_exposure casefold) items)) ≡ true)
    missing [] = (λ h. cc, λ h. cc)
    missing (x ∷ xs) = reasons x xs (filter (is_exposure casefold) (x ∷ xs))
      where
        reasons :
            (y : SourceItem) (ys zs : List SourceItem)
            → (missing_reasons_of (y ∷ ys) zs ≡ []) ↔ (is_nonempty zs ≡ true)
        reasons y ys [] = (λ h. cc, λ h. cc)
        reasons y ys (z ∷ zs) = (λ h. refl, λ h. refl)

    listed_exposure :
        (items : List SourceItem)
        → is_nonempty (filter (is_exposure casefold) items)
          ≡ (is_nonempty items && is_nonempty (filter (is_exposure casefold) items))
    listed_exposure [] = refl
    listed_exposure (x ∷ xs) = refl
