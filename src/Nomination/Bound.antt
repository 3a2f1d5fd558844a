-- ===== src/Nomination/Bound.antt =====
-- What a nomination that lib/intelligence/research_queue.py accepts is bound to.
use stocks_agent.Common.{
  ℕ, suc, ◌≤◌, ◌≡◌, refl, ap, sym, subst, ◌∙◌, inl, inr, Bool, true, false, not, Option, none, some,
  List, [], ◌∷◌, String, length, all, filter, arith, leb, leb→le, ◌==◌, ==_iff, str_eq, str_eq→eq,
  str_eq_self, map, contains, all_distinct, Bool-cases, ok, ok_injective, after_call, after_test,
  All, IsIn,
}
use stocks_agent.Policy.Value.{
  Value, null, boolean, integer, real, text, sequence, mapping, Values, end, item, Fields, lookup,
}
use stocks_agent.Nomination.Request.{
  not_bound, duplicated, too_many, NominationRequest, count_values,
}
use stocks_agent.Nomination.Validate.{
  pending, ResearchNomination, Packet, mappings, list_of, packet_of, has_text, equals_optional,
  is_allowed, is_bound_to, is_bound, nomination_of, raw_request, nominate, few_values,
  validate_research_nominations,
}
use stocks_agent.Nomination.Reviewed.{IsReviewed, checked_request-IsReviewed}

-- The packet's candidate names the theme, the role and the two identities, and every piece of evidence is
-- one that its relationship rests on.
abbrev pub IsBound : NominationRequest → Fields → Type 0
IsBound r candidate =
    ((themes : Values) × (list_of (lookup "theme_ids" candidate) ≡ some themes)
      × (has_text r.theme_id themes ≡ true))
    × ((roles : Values) × (list_of (lookup "roles" candidate) ≡ some roles)
        × (has_text r.role roles ≡ true))
    × ((evidence : Values) × (list_of (lookup "evidence" candidate) ≡ some evidence)
        × (all (is_allowed (mappings evidence)) r.evidence_ids ≡ true))
    × (equals_optional r.entity_id (lookup "entity_id" candidate) ≡ true)
    × (equals_optional r.security_id (lookup "security_id" candidate) ≡ true)

is_bound_to-split :
    (r : NominationRequest) (themes roles evidence : Option Values) (entity security : Option Value)
    → is_bound_to r themes roles evidence entity security ≡ true
    → ((v : Values) × (themes ≡ some v) × (has_text r.theme_id v ≡ true))
      × ((v : Values) × (roles ≡ some v) × (has_text r.role v ≡ true))
      × ((v : Values) × (evidence ≡ some v) × (all (is_allowed (mappings v)) r.evidence_ids ≡ true))
      × (equals_optional r.entity_id entity ≡ true)
      × (equals_optional r.security_id security ≡ true)
is_bound_to-split r (some themes) (some roles) (some evidence) entity security h = (
  (themes, refl, ground arith),
  (roles, refl, ground arith),
  (evidence, refl, ground arith),
  ground arith,
  ground arith,
)
is_bound_to-split r none roles evidence entity security h = absurd (ground arith)
is_bound_to-split r (some themes) none evidence entity security h = absurd (ground arith)
is_bound_to-split r (some themes) (some roles) none entity security h = absurd (ground arith)

is_bound-IsBound :
    (r : NominationRequest) (candidate : Fields) → is_bound r candidate ≡ true → IsBound r candidate
unfolding is_bound
is_bound-IsBound r candidate h = is_bound_to-split r _ _ _ _ _ h

-- Where one candidate is bound, there is a candidate that is.
filter_one :
    (p : Fields → Bool) (candidates : List Fields)
    → length (filter p candidates) ≡ 1
    → (c : Fields) × IsIn c candidates × (p c ≡ true)
filter_one p [] h = absurd (ground (arith, h))
filter_one p (c ∷ candidates) h = elim (Bool-cases (p c)) [
  | inl here ↦ (c, inl refl, here)
  | inr apart ↦
      let (d, there, found) = filter_one p candidates (rw apart at h) in (d, inr there, found)
]

str_eq_apart : (a b : String) → str_eq a b ≡ false → str_eq b a ≡ false
str_eq_apart a b h = elim (Bool-cases (str_eq b a)) [
  | inr apart ↦ apart
  | inl same ↦ ground (arith, h, ap (λ t. str_eq t b) (sym (str_eq→eq b a same)) ∙ str_eq_self b)
]

module _ (is_word : ℕ → Bool) (folded : ℕ → ℕ) (hash_request : NominationRequest → String)
    (name : (packet_id request_hash : String) → String) where
  -- The request has been reviewed and is bound to a candidate of the packet.
  abbrev pub IsAcceptable : Packet → NominationRequest → Type 0
  IsAcceptable packet r =
      IsReviewed is_word folded r
      × ((candidate : Fields) × IsIn candidate packet.candidates × IsBound r candidate)

  -- It waits, and authorizes nothing.
  abbrev pub HasNoAuthority : ResearchNomination → Type 0
  HasNoAuthority n =
      (n.state ≡ pending)
      × (n.authorizes_action ≡ false)
      × (n.may_mutate_watchlist ≡ false)
      × (n.execution_allowed ≡ false)

  -- The nominations are those of acceptable requests, of which no two have the same hash.
  abbrev pub AreNominated :
      Packet → (now : ℕ) → List NominationRequest → List ResearchNomination → Type 0
  AreNominated packet now requests out =
      (out ≡ map (nomination_of is_word folded hash_request name packet now) requests)
      × (all_distinct (map hash_request requests) ≡ true)
      × All (IsAcceptable packet) requests
      × All HasNoAuthority out

  -- No request has one of these hashes.
  abbrev AreFresh : List String → List NominationRequest → Type 0
  AreFresh hashes requests = All (λ r. contains (hash_request r) hashes ≡ false) requests

  fresh_first :
      (r : NominationRequest) (hashes : List String) (requests : List NominationRequest)
      → AreFresh (hash_request r ∷ hashes) requests
      → (contains (hash_request r) (map hash_request requests) ≡ false) × AreFresh hashes requests
  fresh_first r hashes [] h = (refl, tt)
  fresh_first r hashes (s ∷ requests) h =
      let (first, rest) = fresh_first r hashes requests h.1 in
      (
        ground (arith, str_eq_apart (hash_request s) (hash_request r) (ground (arith, h.0))),
        (ground (arith, h.0), rest),
      )

  raw_request-IsReviewed :
      (packet_hash : String) (value : Value) (r : NominationRequest)
      → raw_request is_word folded hash_request name packet_hash value ≡ ok r
      → IsReviewed is_word folded r
  raw_request-IsReviewed packet_hash (mapping raw) r e =
      checked_request-IsReviewed is_word folded packet_hash raw r e
  raw_request-IsReviewed packet_hash null r e = absurd (ground (arith, e))
  raw_request-IsReviewed packet_hash (boolean _) r e = absurd (ground (arith, e))
  raw_request-IsReviewed packet_hash (integer _) r e = absurd (ground (arith, e))
  raw_request-IsReviewed packet_hash (real _) r e = absurd (ground (arith, e))
  raw_request-IsReviewed packet_hash (text _) r e = absurd (ground (arith, e))
  raw_request-IsReviewed packet_hash (sequence _) r e = absurd (ground (arith, e))

  nominate-AreNominated :
      (packet : Packet) (now : ℕ) (hashes : List String) (values : Values)
      (out : List ResearchNomination)
      → nominate is_word folded hash_request name packet now hashes values ≡ ok out
      → (requests : List NominationRequest) × (length requests ≡ count_values values)
        × AreFresh hashes requests
        × AreNominated packet now requests out
  unfolding nominate count_values
  nominate-AreNominated packet now hashes end out e =
      subst
        (λ out1.
          (requests : List NominationRequest) × (length requests ≡ 0)
          × AreFresh hashes requests
          × AreNominated packet now requests out1)
        (ok_injective e) ([], refl, tt, (refl, refl, tt, tt))
  nominate-AreNominated packet now hashes (item value values) out e =
      after_call (raw_request is_word folded hash_request name packet.packet_hash value) _ e
        (λ r f1 e1.
          after_test (length (filter (is_bound r) packet.candidates) == 1) not_bound _ e1 (λ one e2.
            after_test (not (contains (hash_request r) hashes)) duplicated _ e2 (λ new e3.
              after_call
                (nominate is_word folded hash_request name packet now (hash_request r ∷ hashes)
                  values)
                _ e3
                (λ rest f2 e4.
                  let (requests, counted, fresh, (same, distinct, acceptable, unauthorized)) =
                    nominate-AreNominated packet now (hash_request r ∷ hashes) values rest f2 in
                  let (unused, fresh_rest) = fresh_first r hashes requests fresh in
                  (
                    r ∷ requests,
                    ap suc counted,
                    (ground (arith, new), fresh_rest),
                    subst (AreNominated packet now (r ∷ requests)) (ok_injective e4) (
                      ap
                          (λ nominations.
                            nomination_of is_word folded hash_request name packet now r
                            ∷ nominations)
                          same,
                      ground (arith, unused, distinct),
                      (
                        (
                          raw_request-IsReviewed packet.packet_hash value r f1,
                          bound r packet.candidates one,
                        ),
                        acceptable,
                      ),
                      ((refl, refl, refl, refl), unauthorized),
                    ),
                  )))))
    where
      bound :
          (r : NominationRequest) (candidates : List Fields)
          → (length (filter (is_bound r) candidates) == 1) ≡ true
          → (candidate : Fields) × IsIn candidate candidates × IsBound r candidate
      bound r candidates one =
          let (c, at, found) = filter_one (is_bound r) candidates ((==_iff _ 1).0 one) in
          (c, at, is_bound-IsBound r c found)

  few_values_le :
      (nominations : Value) (values : Values)
      → few_values is_word folded hash_request name nominations ≡ ok values
      → count_values values ≤ 3
  few_values_le (sequence given) values e =
      after_test (leb (count_values given) 3) too_many _ e
        (λ few e1. subst (λ v. count_values v ≤ 3) (ok_injective e1) (leb→le _ 3 few))
  few_values_le null values e = absurd (ground (arith, e))
  few_values_le (boolean _) values e = absurd (ground (arith, e))
  few_values_le (integer _) values e = absurd (ground (arith, e))
  few_values_le (real _) values e = absurd (ground (arith, e))
  few_values_le (text _) values e = absurd (ground (arith, e))
  few_values_le (mapping _) values e = absurd (ground (arith, e))

  -- If nominations are accepted, the packet is read, and they are those of at most three requests, no two of
  -- the same hash. Each request has reviewed fields (a theme, a role, a kind of evidence and a priority that
  -- are known, one to eight pieces of evidence, and a bounded reason without an unsafe word), and a
  -- candidate of the packet has its theme, role and identities and every piece of its evidence as evidence
  -- of its relationship. No nomination authorizes an action, a change of the watchlist or an execution.
  pub validate_research_nominations-AreNominated :
      (nominations packet : Value) (now : ℕ) (out : List ResearchNomination)
      → validate_research_nominations is_word folded hash_request name nominations packet now
        ≡ ok out
      → (row : Packet) × (requests : List NominationRequest) × (packet_of packet ≡ ok row)
        × (length requests ≤ 3)
        × AreNominated row now requests out
  unfolding validate_research_nominations
  validate_research_nominations-AreNominated nominations packet now out e =
      after_call (few_values is_word folded hash_request name nominations) _ e (λ values f1 e1.
        after_call (packet_of packet) _ e1 (λ row f2 e2.
          let (requests, counted, fresh, nominated) =
            nominate-AreNominated row now [] values out e2 in
          (
            row,
            requests,
            f2,
            omega (arith, counted, few_values_le nominations values f1),
            nominated,
          )))
