-- ===== src/Relation/Retained.antt =====
-- What `propose_relation` retains of the evidence, and when a relation is eligible for ranking.
use Prim.Native.String.{count}
use stocks_agent.Common.{
  sorted, ◌≤◌, ◌<◌, ◌≡◌, ◌∙◌, refl, sym, subst, true, false, not, ◌&&◌, ◌||◌, Option, List, [], ◌∷◌,
  ◌++◌, codes, String, arith, any, filter, find_first, take, drop, length, length-take, leb, str_eq,
  contains, all_distinct, Option-cases, inl, inr, ok, after_guard, passed_guard, ok_injective,
  leb→le,
}
use stocks_agent.Relation.Text.{
  strip, split, underscored, first_chars, count-first_chars, count_pos,
}
use stocks_agent.Relation.Item.{
  SourceItem, is_adverse, is_exposure, qualifies_exposure, compare_priority,
}
use stocks_agent.Relation.Proposal.{
  EventRelationship, ticker_not_canonical, role_required, security_id_unbounded, security_or_ticker,
  is_ticker, put_items, keep_new, listed, ordered_evidence, prioritized_evidence, relation_of,
  propose_relation,
}
use stocks_agent.Relation.Prioritized.{
  keys, any-sorted, any-append, any-filter, any-take, find_first-none, find_first-some,
  find_first-any, contains-keep_new, all_distinct-keep_new, any-keep_new, contains-sorted,
  contains-put_items, contains-filter, contains-find_first, contains_append, contains-take,
  all_distinct-take, contains-reversed,
}

module _ (casefold name_hash : String → String) where
  prioritized_evidence-keys :
      (k : String) (evidence : List SourceItem)
      → contains k (keys name_hash (prioritized_evidence casefold name_hash evidence))
        ≡ contains k (keys name_hash evidence)
  unfolding prioritized_evidence ordered_evidence
  prioritized_evidence-keys k evidence =
      let order = compare_priority name_hash in
      let unique = put_items name_hash [] evidence in
      let ordered = sorted order unique in
      let decisive = listed (find_first (is_exposure casefold) ordered) in
      let adverse = filter is_adverse ordered in
      ground (
        arith,
        contains-keep_new name_hash k [] (decisive ++ (adverse ++ ordered)),
        contains_append name_hash k decisive (adverse ++ ordered),
        contains_append name_hash k adverse ordered,
        contains-filter name_hash k is_adverse ordered,
        contains-find_first name_hash k (is_exposure casefold) ordered,
        contains-sorted name_hash k order unique,
        contains-put_items name_hash k [] evidence,
      )

  prioritized_evidence-distinct :
      (evidence : List SourceItem)
      → all_distinct (keys name_hash (prioritized_evidence casefold name_hash evidence)) ≡ true
  unfolding prioritized_evidence
  prioritized_evidence-distinct evidence = all_distinct-keep_new name_hash [] _

  pub prioritized_evidence-any :
      (evidence : List SourceItem)
      → any (is_exposure casefold) (take 8 (prioritized_evidence casefold name_hash evidence))
        ≡ qualifies_exposure casefold (put_items name_hash [] evidence)
  unfolding prioritized_evidence ordered_evidence qualifies_exposure keep_new
  prioritized_evidence-any evidence =
      let order = compare_priority name_hash in
      let p = is_exposure casefold in
      let unique = put_items name_hash [] evidence in
      let ordered = sorted order unique in
      let adverse = filter is_adverse ordered in
      let tail = keep_new name_hash [] (adverse ++ ordered) in
      elim (Option-cases (find_first p ordered)) [
        | inl none_found ↦ rw none_found (
            ground (
              arith,
              any-take p 8 tail,
              any-keep_new name_hash p [] (adverse ++ ordered),
              any-append p adverse ordered,
              any-filter p is_adverse ordered,
              find_first-none p ordered none_found,
              any-sorted p order unique,
            ))
        | inr (d, found) ↦ rw found (
            decisive_first d (adverse ++ ordered) (find_first-some p ordered d found)
            ∙ (sym (find_first-any p ordered d found) ∙ any-sorted p order unique))
      ]
    where
      decisive_first :
          (d : SourceItem) (rest : List SourceItem)
          → is_exposure casefold d ≡ true
          → any (is_exposure casefold) (take 8 (keep_new name_hash [] (d ∷ rest))) ≡ true
      decisive_first d rest h = ground arith

-- A relation that is proposed has a canonical ticker, a role of 1 to 80 characters and a security ID of
-- 1 to 160, and is `relation_of` of them and the evidence in the order of priority.
pub propose_relation-of :
    (casefold upper name_hash : String → String) (event_id ticker : String)
    (security_id : Option String) (role : String) (evidence : List SourceItem)
    (r : EventRelationship)
    → propose_relation casefold upper name_hash event_id ticker security_id role evidence ≡ ok r
    → (r
        ≡ relation_of casefold name_hash event_id r.ticker r.security_id r.role
            (prioritized_evidence casefold name_hash evidence))
      × (is_ticker (codes r.ticker) ≡ true)
      × ((count r.role ≤ 80) × (0 < count r.role))
      × ((count r.security_id ≤ 160) × (0 < count r.security_id))
unfolding propose_relation relation_of
propose_relation-of casefold upper name_hash event_id ticker security_id role evidence r e =
    let with_ticker = after_guard (is_ticker (codes t)) ticker_not_canonical _ e in
    let with_role = after_guard (not (str_eq ro "")) role_required _ with_ticker in
    let sized : (not (str_eq se "") && leb (count se) 160) ≡ true =
      passed_guard (not (str_eq se "") && leb (count se) 160) security_id_unbounded _ with_role in
    subst
      (λ r.
        (r
          ≡ relation_of casefold name_hash event_id r.ticker r.security_id r.role
              (prioritized_evidence casefold name_hash evidence))
        × (is_ticker (codes r.ticker) ≡ true)
        × ((count r.role ≤ 80) × (0 < count r.role))
        × ((count r.security_id ≤ 160) × (0 < count r.security_id)))
      (ok_injective
        (after_guard (not (str_eq se "") && leb (count se) 160) security_id_unbounded _ with_role))
      (
        refl,
        passed_guard (is_ticker (codes t)) ticker_not_canonical _ e,
        (
          count-first_chars 80 words,
          count_pos ro (passed_guard (not (str_eq ro "")) role_required _ with_ticker),
        ),
        (leb→le _ _ (ground arith), count_pos se (ground arith)),
      )
  where
    t : String
    t = upper (strip ticker)

    words : String
    words = underscored (split (casefold (strip role)))

    ro : String
    ro = first_chars 80 words

    se : String
    se = strip (security_or_ticker security_id t)

-- If a relation is proposed, it retains at most eight items, each evidence key is either retained or
-- listed as dropped, and none is both or retained twice.
pub propose_relation-evidence :
    (casefold upper name_hash : String → String) (event_id ticker : String)
    (security_id : Option String) (role : String) (evidence : List SourceItem)
    (r : EventRelationship)
    → propose_relation casefold upper name_hash event_id ticker security_id role evidence ≡ ok r
    → (length r.evidence ≤ 8)
      × (all_distinct (keys name_hash r.evidence) ≡ true)
      × ((k : String)
          → (contains k (keys name_hash evidence)
              ≡ (contains k (keys name_hash r.evidence) || contains k r.dropped_evidence_keys))
            × (contains k (keys name_hash r.evidence) ≡ true
                → contains k r.dropped_evidence_keys ≡ false))
unfolding relation_of
propose_relation-evidence casefold upper name_hash event_id ticker security_id role evidence r e =
    let prioritized = prioritized_evidence casefold name_hash evidence in
    let (same, ticker_known, role_known, id_known) =
      propose_relation-of casefold upper name_hash event_id ticker security_id role evidence r e in
    subst
      (λ r.
        (length r.evidence ≤ 8)
        × (all_distinct (keys name_hash r.evidence) ≡ true)
        × ((k : String)
            → (contains k (keys name_hash evidence)
                ≡ (contains k (keys name_hash r.evidence) || contains k r.dropped_evidence_keys))
              × (contains k (keys name_hash r.evidence) ≡ true
                  → contains k r.dropped_evidence_keys ≡ false)))
      (sym same)
      (
        omega (arith, length-take 8 prioritized),
        (all_distinct-take name_hash "" 8 prioritized
            (prioritized_evidence-distinct casefold name_hash evidence)).0,
        λ k. (
          ground (
            arith,
            prioritized_evidence-keys casefold name_hash k evidence,
            contains-take name_hash k 8 prioritized,
            contains-reversed name_hash k (keys name_hash (drop 8 prioritized)),
          ),
          λ h.
              contains-reversed name_hash k (keys name_hash (drop 8 prioritized))
              ∙ (all_distinct-take name_hash k 8 prioritized
                    (prioritized_evidence-distinct casefold name_hash evidence)).1
                  h,
        ),
      )
