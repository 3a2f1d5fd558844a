-- ===== src/Queue/Candidate.antt =====
-- `EnrichmentCandidate` and `_candidate_key` of lib/intelligence/research_queue.py, with the fields
-- that the queue reads of `ValueChainHypothesis` (lib/intelligence/discovery.py), and Python's
-- stable `sorted`.
use Prim.Native.Nat.{compare, Ordering}
use Prim.Native.String.{compare as compare_texts}
use stocks_agent.Common.{or_then, ℕ, Bool, true, false, List, String}

pub record Hypothesis : Type 0 where
  pub hypothesis_id : String
  pub event_id : String
  pub theme_id : String
  pub role : String
  pub adverse_path : Bool

pub record EnrichmentCandidate : Type 0 where
  pub hypothesis : Hypothesis
  pub entity_id : String
  pub security_id : String
  pub security_revision_id : String
  pub reference_manifest_id : String
  pub cik : String
  pub ticker : String
  pub instrument_type : String
  pub source_item_ids : List String
  pub dependency_task_ids : List String
  pub official_support : Bool
  pub novelty : ℕ

-- `0 if flag else 1`
abbrev pub flag_rank : Bool → ℕ
flag_rank true = 0
flag_rank false = 1

-- Two candidates by `_candidate_key`. The key holds `-novelty`, so more novelty comes first.
unfoldable pub compare_candidates : EnrichmentCandidate → EnrichmentCandidate → Ordering
compare_candidates a b =
    or_then (compare (flag_rank a.official_support) (flag_rank b.official_support)) (
      or_then (compare (flag_rank a.hypothesis.adverse_path) (flag_rank b.hypothesis.adverse_path))
        (or_then (compare b.novelty a.novelty) (
          or_then (compare_texts a.hypothesis.event_id b.hypothesis.event_id) (
            or_then (compare_texts a.entity_id b.entity_id) (
              or_then (compare_texts a.security_id b.security_id)
                (compare_texts a.hypothesis.hypothesis_id b.hypothesis.hypothesis_id))))))
