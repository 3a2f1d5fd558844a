-- ===== src/Cache/Examples.antt =====
-- Checkpoints of one run, and the theorems at them.
use stocks_agent.Common.{
  ℕ, ◌≡◌, refl, false, Option, none, some, List, [], ◌∷◌, String, if◌then◌else◌, str_eq, ok,
}
use stocks_agent.Cache.State.{
  RequestReceipt, CollectionResult, receipt_row, item_rows, Checkpoint, Cache, is_expired,
  is_paid_failure, set_collection, restored, put_collection, hit_of, reuse, get_found,
  get_collection, hydrate_items, hydrate_receipt, hydrate_entry, hydrate_collections, empty_cache,
  collection_of_items, collection_from_checkpoint, hydrate_terminal_entries,
  hydrate_terminal_collections, get_terminal_collection,
}
use stocks_agent.Cache.Hits.{IsReuse, get_collection-IsReuse, put_collection-get_collection}
use stocks_agent.Cache.Hydration.{
  or_else, last_live, IsFresh, hydrate_collections-last_live, hydrate_collections-IsFresh,
}
use stocks_agent.Cache.Terminal.{put, get, run, last_checkpoint, get_terminal_collection-last}

abbrev receipt : (status : String) → Option ℕ → Option String → RequestReceipt
receipt status expires_at source_receipt_id = record {
  provider = "gdelt";
  reservation_id = "r1";
  status = status;
  cache_key = "k1";
  requested_window = [];
  requested_limit = 20;
  retrieved_at = 100;
  observed_at = none;
  expires_at = expires_at;
  request_cost = 1;
  upstream_remaining = none;
  returned_count = 2;
  accepted_count = 2;
  duplicate_count = 0;
  dropped_count = 0;
  response_hash = none;
  error_code = none;
  source_receipt_id = source_receipt_id;
  cache_predecessor_receipt_id = none;
  metadata = [];
}

abbrev fresh : CollectionResult String
fresh = restored (receipt "succeeded" (some 900) (some "s1")) ("i1" ∷ "i2" ∷ [])

abbrev stale : CollectionResult String
stale = restored (receipt "succeeded" (some 300) (some "s2")) ("i3" ∷ [])

abbrev named : String → CollectionResult String → Checkpoint String
named key result = record {
  cache_key = key;
  receipt = receipt_row result.receipt;
  items = item_rows result.items;
}

abbrev entries : List (Checkpoint String)
entries = named "k1" fresh ∷ named "k2" fresh ∷ named "k2" stale ∷ []

abbrev name_hit : (source_receipt_id predecessor : String) → String
name_hit source_receipt_id predecessor = predecessor

abbrev bound : List (String × String) → List (String × String)
bound metadata = metadata

abbrev no_results : Cache String
no_results = empty_cache

program : Unit {0}
unfolding is_expired put_collection reuse get_found get_collection hydrate_items hydrate_receipt
    hydrate_entry hydrate_collections collection_of_items collection_from_checkpoint
    hydrate_terminal_entries hydrate_terminal_collections IsFresh
program = tt

abbrev filled : Cache String
filled = set_collection no_results "k1" (some fresh)

reused :
    get_collection name_hit filled "k1" "r9" "s9" 500
    ≡ (filled, ok (some (hit_of name_hit fresh "r9" "s9" "s1")))
unfolding program
reused = refl

get_collection-IsReuse_example :
    (stored : CollectionResult String) × (filled.collections "k1" ≡ some stored)
    × (is_expired stored.receipt 500 ≡ false)
    × IsReuse name_hit stored "r9" (hit_of name_hit fresh "r9" "s9" "s1")
    × (filled ≡ filled)
get_collection-IsReuse_example =
    get_collection-IsReuse name_hit filled filled "k1" "r9" "s9" 500
      (hit_of name_hit fresh "r9" "s9" "s1") reused

expired : (get_collection name_hit filled "k1" "r9" "s9" 900).1 ≡ ok none
unfolding program
expired = refl

live_result : is_expired fresh.receipt 500 ≡ false
unfolding program
live_result = refl

put_collection-get_collection_example :
    let c' = put_collection filled "k2" fresh in
    (get_collection name_hit c' "k2" "r9" "s9" 500 ≡ (
      c',
      ok (
          some (
            if is_paid_failure fresh.receipt then fresh else hit_of name_hit fresh "r9" "s9" "s1")),
    ))
    × ((k : String) → str_eq k "k2" ≡ false → c'.collections k ≡ filled.collections k)
put_collection-get_collection_example =
    put_collection-get_collection name_hit filled "k2" "r9" "s9" "s1" 500 fresh refl refl refl
      live_result

hydrated : (hydrate_collections no_results 500 entries).1 ≡ ok tt
unfolding program
hydrated = refl

hydrate_collections-last_live_example :
    (hydrate_collections no_results 500 entries).0.collections "k2"
    ≡ or_else (last_live "k2" 500 entries) (no_results.collections "k2")
hydrate_collections-last_live_example =
    hydrate_collections-last_live no_results 500 entries "k2" hydrated

nothing_IsFresh : IsFresh 500 no_results
unfolding program
nothing_IsFresh = λ k r found. cc

hydrate_collections-IsFresh_example : IsFresh 500 (hydrate_collections no_results 500 entries).0
hydrate_collections-IsFresh_example =
    hydrate_collections-IsFresh no_results 500 entries nothing_IsFresh

restored_run : (hydrate_terminal_collections no_results "run1" entries).1 ≡ ok tt
unfolding program
restored_run = refl

get_terminal_collection-last_example :
    get_terminal_collection
      (run name_hit bound
        (hydrate_terminal_collections no_results "run1" entries).0
        (put "k2" fresh ∷ get "k2" "r9" "s9" 950 ∷ []))
      "run1"
      "k2"
    ≡ or_else
        (if str_eq "run1" "run1" then last_checkpoint "k2" entries else none)
        (get_terminal_collection no_results "run1" "k2")
get_terminal_collection-last_example =
    get_terminal_collection-last name_hit bound no_results "run1" entries
      (put "k2" fresh ∷ get "k2" "r9" "s9" 950 ∷ []) "run1" "k2" restored_run
