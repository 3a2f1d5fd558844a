-- ===== src/Lib.antt =====
-- A verification library for the stocks agent, a suggestion-only research assistant. It models the
-- deterministic core of the evidence collector in lib/intelligence, which decides what is
-- collected, how often, and what may be ranked.
--
-- Cursor: lib/intelligence/cursors.py and limits.py, and the functions of
-- lib/intelligence/pipeline.py that apply them. `Cursor.Record` is `SourceCursor` (`check_cursor` is
-- `__post_init__`), `Cursor.Window` is `CollectionWindow` and `window_from_cursor`, `Cursor.Page` is
-- `CollectionPage` and `source_outcome`, `Cursor.Update` is `update_cursor`, and `Cursor.Collected`
-- is what the pipeline makes of a task and a collection result. A datetime is its UTC instant in
-- microseconds since `datetime.min`, and a timedelta a number of microseconds; both are natural
-- numbers, and a subtraction that Python refuses is an error of the model. SHA-256 is a parameter.
-- An exception is an error value, one for each message.
--
-- Quota: lib/intelligence/quota.py. `Quota.Session` is `QuotaSession`: `open_session` is `__init__`,
-- and each method returns the session that it leaves or raises before it changes anything.
-- `Quota.Exhaustion` runs sequences of calls. A dict of counters is a function.
--
-- Queue: `select_enrichment_queue` of lib/intelligence/research_queue.py. `Queue.Candidate` has the
-- candidates, their order and a stable sort, `Queue.RoundRobin` is `_round_robin_candidates`, and
-- `Queue.Request` the drafting of requests. The `while` loop of the selection runs on fuel, the
-- number of candidates, which is enough because a round takes a row from every theme. The UUID of a
-- request is a parameter. Integers are natural numbers, so a negative limit is not an input.
-- `Queue.Reservation` is `adaptive_provider_reservations`, compared with the budget of Policy.
-- `Queue.Manifest` is `build_selection_manifest` and `validate_selection_manifest`, and `Queue.Payload`
-- what is stored of a manifest; the UUIDs and the SHA-256 of a canonical JSON text are parameters.
--
-- Relation: lib/intelligence/relationships.py and `evidence_key` of themes.py. `Relation.Text` has the
-- string methods, `Relation.Item` the evidence and its tests, `Relation.Proposal` is
-- `propose_relation`. The Unicode case mappings and the UUID of a content hash are parameters.
--
-- Cache: lib/intelligence/cache.py. `Cache.State` is `ResumableCollectionCache` on checkpoints whose
-- fields are parsed; a dict is a function, and the items are of any type. The UUID of a hit and
-- `bounded_metadata` are parameters. `Cache.Entries` is `put`, `get`, `put_run` and `get_run`, and
-- `Cache.Terminal` runs sequences of calls.
--
-- Policy: lib/intelligence/policy.py and `IntelligencePolicy` of types.py. `Policy.Value` is a JSON
-- document with Python's equality of numbers, `Policy.Budget` the budgets by phase, and
-- `Policy.Load` is `load_intelligence_policy`.
--
-- Ranking: lib/intelligence/ranking.py. `Ranking.Decimal` is `_fixed`: a decimal of six places is its
-- number of millionths, and a result of more than the 28 digits of Python's context is an error.
-- `Ranking.Positions` has the holdings and plans by ticker, `Ranking.Evidence` is `_evidence_index`,
-- `Ranking.Score` the components of the score, `Ranking.Research` is `_assess_v2_candidate`, and
-- `Ranking.Rank` is `rank_candidates`. `str.upper` and the UUID of a content hash are parameters.
--
-- Learning: lib/intelligence/learning.py. `Learning.Observation` has `LearningObservation`,
-- `Learning.Outcome` the three observations of outcomes and failures, and `Learning.Missed` is
-- `evaluate_missed_event`. A rate is a number of ten-thousandths, and the parsing of a UUID is a
-- parameter.
--
-- Dedupe: lib/intelligence/dedupe.py. `Dedupe.Ratio` is the ratio of Python's `SequenceMatcher` on code
-- points, whose recursion runs on fuel, the length of the first text, which each longest block shortens;
-- `Dedupe.Disposition` is `deduplicate`. The Unicode case folding is a parameter.
--
-- Nomination: `validate_research_nominations` of lib/intelligence/research_queue.py on JSON values.
-- `Nomination.Pattern` has the regular expressions, for which the tables of word characters and of cases
-- are parameters, `Nomination.Request` the checks of one nomination, and `Nomination.Validate` the packet
-- and the loop. SHA-256 of the canonical JSON and UUIDs of names are parameters.
--
-- Comparison: lib/intelligence/comparison.py. `Comparison.Candidate` has the records and their checks, and
-- `Comparison.Compare` is `compare_candidate`.
--
-- Health: lib/intelligence/health.py. `Health.Probe` has the reviewed routes and `Health.Record` is
-- `build_capability_health`. The capabilities of `load_source_capabilities`, the configured values and the
-- probe are arguments; a probe that raises gives no url.
--
-- Not modelled: the parsing of ISO-8601 text (the model's times are parsed already), reading a
-- cursor or a checkpoint from JSON, network and database access, and rendering. The other modules of
-- lib/intelligence (planning, screening, themes, packets) are not modelled.
pub mod Common
pub mod Cursor
pub mod Quota
pub mod Queue
pub mod Relation
pub mod Cache
pub mod Policy
pub mod Ranking
pub mod Learning
pub mod Dedupe
pub mod Nomination
pub mod Comparison
pub mod Health
