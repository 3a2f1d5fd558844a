-- ===== src/Policy/Approved.antt =====
-- What a policy that is loaded allows.
use stocks_agent.Common.{
  ◌≤◌, ◌≡◌, refl, arith, true, false, List, String, leb, leb→le, if◌then◌else◌, str_eq, ok,
  ok_injective, after_call, after_test, Bool-cases, inl, inr, subst,
}
use stocks_agent.Policy.Value.{
  Fields, keys_not_approved, adaptive_too_large, ceiling_too_large, alpha_too_large,
  ceiling_too_small, budget_providers, budget_too_large, has_exactly, required, mapping_of,
  nonnegative_int,
}
use stocks_agent.Policy.Budget.{
  Budget, count_of, total, phase_budget, is_within, max_adaptive_enrichment_budget,
  max_provider_phase_budgets, budget_in, packet_limits,
}
use stocks_agent.Policy.Bounds.{
  phase_budget-unlisted, is_within-le, budgets_of-le, IsBoundedPacket,
  packet_limits-IsBoundedPacket, count_of-le_total,
}
use stocks_agent.Policy.Load.{
  budgeted_providers, IntelligencePolicy, budget_for, check_optional_identifiers,
  check_fixed_settings, check_flags, budgets_of, are_within, has_approved_keys, load_budgets,
  load_intelligence_policy,
}

-- Everything that a loaded policy allows is within the approved maxima, whatever provider or phase is asked.
pub record IsApproved (policy : IntelligencePolicy) : Type 0 where
  pub adaptive :
      (phase : String)
      → count_of phase policy.adaptive_enrichment_budget
        ≤ count_of phase max_adaptive_enrichment_budget
  pub daily : policy.alpha_vantage_daily_ceiling ≤ 20
  pub allocated : total policy.alpha_vantage_phase_budget ≤ policy.alpha_vantage_daily_ceiling
  pub reserved : total policy.alpha_vantage_phase_budget ≤ 18
  pub budgets :
      (provider phase : String)
      → count_of phase (budget_in provider policy.provider_phase_budgets)
        ≤ count_of phase (budget_in provider max_provider_phase_budgets)
  pub asked :
      (provider phase : String)
      → budget_for policy provider phase ≤ (
          if str_eq provider "alpha_vantage"
          then 18
          else count_of phase (budget_in provider max_provider_phase_budgets))
  pub packet : IsBoundedPacket policy.packet
  pub suggests : policy.suggestion_only ≡ true
  pub executes : policy.execution_allowed ≡ false

load_budgets-IsApproved :
    (intelligence guardrails : Fields) (policy : IntelligencePolicy)
    → load_budgets intelligence guardrails ≡ ok policy
    → IsApproved policy
unfolding load_budgets budget_for
load_budgets-IsApproved intelligence guardrails policy e0 =
    after_call (required intelligence "adaptive_enrichment_budget") _ e0 (λ adaptive_value f1 e1.
      after_call (phase_budget adaptive_value) _ e1 (λ adaptive parsed e2.
        after_test (is_within max_adaptive_enrichment_budget adaptive) adaptive_too_large _ e2
          (λ within e3. after_call (check_flags intelligence guardrails) _ e3 (λ flags f2 e4.
            after_call (required intelligence "alpha_vantage_daily_ceiling") _ e4
              (λ ceiling_value f3 e5.
                after_call (nonnegative_int "alpha_vantage_daily_ceiling" ceiling_value) _ e5
                  (λ ceiling f4 e6. after_test (leb ceiling 20) ceiling_too_large _ e6 (λ low e7.
                    after_call (required intelligence "alpha_vantage_phase_budget") _ e7
                      (λ alpha_value f5 e8.
                        after_call (phase_budget alpha_value) _ e8 (λ alpha f6 e9.
                          after_test (leb (total alpha) 18) alpha_too_large _ e9 (λ few e10.
                            after_test (leb (total alpha) ceiling) ceiling_too_small _ e10
                              (λ room e11.
                                after_call (mapping_of intelligence "provider_phase_budgets") _ e11
                                  (λ raw f7 e12.
                                    after_test (has_exactly budgeted_providers raw) budget_providers
                                      _ e12
                                      (λ exact e13.
                                        after_call (budgets_of raw budgeted_providers) _ e13
                                          (λ budgets listed e14.
                                            after_test (are_within budgets) budget_too_large _ e14
                                              (λ bounded e15.
                                                after_call (required intelligence "packet") _ e15
                                                  (λ packet_value f8 e16.
                                                    after_call (packet_limits packet_value) _ e16
                                                      (λ packet f9 e17.
                                                        subst IsApproved (ok_injective e17)
                                                          (record {
                                                            adaptive = λ phase.
                                                            is_within-le
                                                            max_adaptive_enrichment_budget adaptive
                                                            phase within
                                                            (phase_budget-unlisted adaptive_value
                                                            adaptive phase parsed);
                                                            daily = leb→le ceiling 20 low;
                                                            allocated =
                                                            leb→le (total alpha) ceiling room;
                                                            reserved = leb→le (total alpha) 18 few;
                                                            budgets = λ provider phase.
                                                            budgets_of-le raw budgeted_providers
                                                            budgets provider phase listed bounded;
                                                            asked = λ provider phase.
                                                            asked_le alpha budgets provider phase
                                                            few
                                                            (budgets_of-le raw budgeted_providers
                                                            budgets provider phase listed bounded);
                                                            packet =
                                                            packet_limits-IsBoundedPacket
                                                            packet_value packet f9;
                                                            suggests = refl;
                                                            executes = refl;
                                                          }))))))))))))))))))
  where
    asked_le :
        (alpha : Budget) (budgets : List (String × Budget)) (provider phase : String)
        → leb (total alpha) 18 ≡ true
        → count_of phase (budget_in provider budgets)
          ≤ count_of phase (budget_in provider max_provider_phase_budgets)
        → (if str_eq provider "alpha_vantage"
            then count_of phase alpha
            else count_of phase (budget_in provider budgets))
          ≤ (if str_eq provider "alpha_vantage"
              then 18
              else count_of phase (budget_in provider max_provider_phase_budgets))
    asked_le alpha budgets provider phase few le =
        elim (Bool-cases (str_eq provider "alpha_vantage")) [
          | inl paid ↦
              rw paid (omega (arith, count_of-le_total phase alpha, leb→le (total alpha) 18 few))
          | inr other ↦ rw other le
        ]

-- If a policy is loaded, it only suggests, and its budgets for every text of a provider and a phase, its
-- ceilings and the allocation of Alpha Vantage are within the approved maxima.
pub load_intelligence_policy-IsApproved :
    (settings : Fields) (policy : IntelligencePolicy)
    → load_intelligence_policy settings ≡ ok policy
    → IsApproved policy
unfolding load_intelligence_policy
load_intelligence_policy-IsApproved settings policy e0 =
    after_call (mapping_of settings "intelligence") _ e0 (λ intelligence f1 e1.
      after_call (mapping_of settings "guardrails") _ e1 (λ guardrails f2 e2.
        after_test (has_approved_keys intelligence) keys_not_approved _ e2 (λ keys e3.
          after_call (check_optional_identifiers intelligence) _ e3 (λ done f3 e4.
            after_call (check_fixed_settings intelligence) _ e4
              (λ done2 f4 e5. load_budgets-IsApproved intelligence guardrails policy e5)))))
