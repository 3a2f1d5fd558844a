-- ===== src/Nomination/Reviewed.antt =====
-- What the checks of a nomination in lib/intelligence/research_queue.py establish of its fields.
use Prim.Native.String.{count, compare as compare_texts}
use stocks_agent.Common.{
  ℕ, suc, ◌≤◌, ◌≡◌, ap, sym, subst, ◌∙◌, Bool, true, false, not, ◌&&◌, Option, none, some, List,
  String, length, arith, leb, codes, contains, all_distinct, length-sorted, ok, ok_injective,
  after_call, after_test,
}
use stocks_agent.Relation.Text.{split}
use stocks_agent.Policy.Value.{Value, integer, text, Values, end, item, Fields, lookup, has_exactly}
use stocks_agent.Nomination.Pattern.{is_theme, is_identifier, is_snake_name, is_unsafe}
use stocks_agent.Nomination.Request.{
  NominationError, identity_invalid, not_reviewed_keys, theme_invalid, role_invalid, reason_invalid,
  reason_unsafe, kind_invalid, priority_invalid, evidence_invalid, evidence_duplicated,
  nomination_keys, evidence_kinds, NominationRequest, tested_text, optional_text, nomination_uuid,
  nomination_uuids, spaced, priority_of, evidence_values, count_values, checked_reason,
  checked_request,
}

tested_text_passed :
    (test : String → Bool) (exception : NominationError) (value : Option Value) (t : String)
    → tested_text test exception value ≡ ok t
    → test t ≡ true
tested_text_passed test exception (some (text s)) t e =
    after_test (test s) exception _ e (λ passed e1. ap test (sym (ok_injective e1)) ∙ passed)
tested_text_passed test exception none t e = absurd (ground (arith, e))
tested_text_passed test exception (some _) t e = absurd (ground (arith, e))

priority_of_range : (value : Option Value) (n : ℕ) → priority_of value ≡ ok n → (1 ≤ n) × (n ≤ 5)
priority_of_range (some (integer m)) n e =
    after_test (leb 1 m && leb m 5) priority_invalid _ e
      (λ passed e1. subst (λ k. (1 ≤ k) × (k ≤ 5)) (ok_injective e1) (ground arith))
priority_of_range none n e = absurd (ground (arith, e))
priority_of_range (some _) n e = absurd (ground (arith, e))

length-nomination_uuids :
    (values : Values) (ids : List String)
    → nomination_uuids values ≡ ok ids
    → length ids ≡ count_values values
unfolding nomination_uuids count_values
length-nomination_uuids end ids e = sym (ap length (ok_injective e))
length-nomination_uuids (item value values) ids e =
    after_call (nomination_uuid "evidence identity" (some value)) _ e (λ id f1 e1.
      after_call (nomination_uuids values) _ e1 (λ rest f2 e2.
        sym (ap length (ok_injective e2)) ∙ ap suc (length-nomination_uuids values rest f2)))

module _ (is_word : ℕ → Bool) (folded : ℕ → ℕ) where
  -- The fields of a request have been reviewed.
  abbrev pub IsReviewed : NominationRequest → Type 0
  IsReviewed r =
      (is_theme (codes r.theme_id) ≡ true)
      × (is_snake_name (codes r.role) ≡ true)
      × (contains r.required_evidence_kind evidence_kinds ≡ true)
      × (20 ≤ count r.reason)
      × (count r.reason ≤ 500)
      × (is_unsafe is_word folded none (codes r.reason) ≡ false)
      × (1 ≤ r.priority)
      × (r.priority ≤ 5)
      × (1 ≤ length r.evidence_ids)
      × (length r.evidence_ids ≤ 8)

  checked_reason_passed :
      (value : Option Value) (reason : String)
      → checked_reason is_word folded value ≡ ok reason
      → (20 ≤ count reason)
        × (count reason ≤ 500)
        × (is_unsafe is_word folded none (codes reason) ≡ false)
  unfolding checked_reason
  checked_reason_passed value reason e =
      after_call (tested_text (λ t. true) reason_invalid value) _ e (λ given f1 e1.
        let normalized = spaced (split given) in
        after_test
          (leb 20 (count normalized)
            && leb (count normalized) 500
            && not (is_unsafe is_word folded none (codes normalized)))
          reason_unsafe _ e1
          (λ passed e2.
            subst
              (λ t.
                (20 ≤ count t)
                × (count t ≤ 500)
                × (is_unsafe is_word folded none (codes t) ≡ false))
              (ok_injective e2) (ground arith, ground arith, ground arith)))

  pub checked_request-IsReviewed :
      (packet_hash : String) (raw : Fields) (r : NominationRequest)
      → checked_request is_word folded packet_hash raw ≡ ok r
      → IsReviewed r
  unfolding checked_request
  checked_request-IsReviewed packet_hash raw r e =
      after_test (has_exactly nomination_keys raw) not_reviewed_keys _ e (λ keys e0.
        after_call (tested_text (λ t. is_theme (codes t)) theme_invalid (lookup "theme_id" raw)) _
          e0
          (λ theme f1 e1.
            after_call
              (optional_text (λ t. is_identifier (codes t)) (identity_invalid "entity")
                (lookup "entity_id" raw))
              _ e1
              (λ entity f2 e2.
                after_call
                  (optional_text (λ t. is_identifier (codes t)) (identity_invalid "security")
                    (lookup "security_id" raw))
                  _ e2
                  (λ security f3 e3.
                    after_call
                      (tested_text (λ t. is_snake_name (codes t)) role_invalid (lookup "role" raw))
                      _ e3
                      (λ role f4 e4.
                        after_call (checked_reason is_word folded (lookup "reason" raw)) _ e4
                          (λ reason f5 e5.
                            after_call
                              (tested_text (λ t. contains t evidence_kinds) kind_invalid
                                (lookup "required_evidence_kind" raw))
                              _ e5
                              (λ kind f6 e6.
                                after_call (priority_of (lookup "priority" raw)) _ e6
                                  (λ priority f7 e7.
                                    after_call (evidence_values (lookup "evidence_ids" raw)) _ e7
                                      (λ values f8 e8.
                                        after_test
                                          (leb 1 (count_values values)
                                            && leb (count_values values) 8)
                                          evidence_invalid _ e8
                                          (λ few e9.
                                            after_call (nomination_uuids values) _ e9
                                              (λ ids f10 e10.
                                                after_test (all_distinct ids) evidence_duplicated _
                                                  e10
                                                  (λ distinct e11.
                                                    let (long, short, safe) =
                                                      checked_reason_passed (lookup "reason" raw)
                                                        reason f5 in
                                                    let (high, low) =
                                                      priority_of_range (lookup "priority" raw)
                                                        priority f7 in
                                                    let counted =
                                                      length-sorted compare_texts ids
                                                      ∙ length-nomination_uuids values ids f10 in
                                                    subst IsReviewed (ok_injective e11) (
                                                      tested_text_passed (λ t. is_theme (codes t))
                                                          theme_invalid (lookup "theme_id" raw)
                                                          theme f1,
                                                      tested_text_passed
                                                          (λ t. is_snake_name (codes t))
                                                          role_invalid (lookup "role" raw) role f4,
                                                      tested_text_passed
                                                          (λ t. contains t evidence_kinds)
                                                          kind_invalid
                                                          (lookup "required_evidence_kind" raw) kind
                                                          f6,
                                                      long,
                                                      short,
                                                      safe,
                                                      high,
                                                      low,
                                                      ground (arith, counted, few),
                                                      ground (arith, counted, few),
                                                    )))))))))))))
