-- ===== src/Cache/Terminal.antt =====
-- The terminal outcomes of a run: `hydrate_terminal_collections` stores them as they are, and nothing else
-- touches them.
use stocks_agent.Common.{
  ℕ, ◌≡◌, ◌∙◌, refl, sym, ap, Option, none, some, List, [], ◌∷◌, String, if◌then◌else◌, str_eq,
  contains, Bool-cases, Result-cases, inl, inr, Result, ok, raise,
}
use stocks_agent.Cache.State.{
  CollectionResult, CacheError, Checkpoint, Cache, invalid_checkpoint, invalid_terminal_run,
  is_expired, kept_statuses, set_terminal, put_collection, get_found, get_collection, hydrate_items,
  hydrate_receipt, hydrate_entry, hydrate_collections, collection_from_checkpoint,
  hydrate_terminal_entries, hydrate_terminal_collections, attach_found, attach_collection_metadata,
  get_terminal_collection, ReceiptRow, no_mapping, refused, receipt_row, ItemRows, not_list,
  refused_item, item_rows,
}
use stocks_agent.Cache.Hydration.{or_else, or_else-or_else, not_done}

-- The other calls that change a cache.
pub data Call (Item : Type 0) : Type 0 where
  put : (key : String) → CollectionResult Item → Call Item
  get : (key reservation_id source_receipt_id : String) → (now : ℕ) → Call Item
  hydrate : (now : ℕ) → List (Checkpoint Item) → Call Item
  attach : (key : String) → List (String × String) → Call Item

module _ {Item : Type 0} where
  abbrev pub accepted : Result CacheError (CollectionResult Item) → Option (CollectionResult Item)
  accepted (raise exception) = none
  accepted (ok result) = some result

  -- The last checkpoint of the key, expired or not.
  abbrev pub last_checkpoint : String → List (Checkpoint Item) → Option (CollectionResult Item)
  last_checkpoint k [] = none
  last_checkpoint k (entry ∷ entries) = or_else (last_checkpoint k entries) (
      if str_eq k entry.cache_key
      then accepted (collection_from_checkpoint entry.receipt entry.items)
      else none)

module _ {Item : Type 0} (name_hit : (source_receipt_id predecessor : String) → String)
    (bound : List (String × String) → List (String × String)) where
  abbrev pub step : Cache Item → Call Item → Cache Item
  step c (put key result) = put_collection c key result
  step c (get key reservation_id source_receipt_id now) =
      (get_collection name_hit c key reservation_id source_receipt_id now).0
  step c (hydrate now entries) = (hydrate_collections c now entries).0
  step c (attach key metadata) = attach_collection_metadata bound c key metadata

  abbrev pub run : Cache Item → List (Call Item) → Cache Item
  run c [] = c
  run c (call ∷ calls) = run (step c call) calls

  put_collection-terminal :
      (c : Cache Item) (key : String) (result : CollectionResult Item)
      → (put_collection c key result).terminal_collections ≡ c.terminal_collections
  unfolding put_collection
  put_collection-terminal c key result =
      elim (Bool-cases (contains result.receipt.status kept_statuses)) [
        | inl kept ↦ rw kept refl
        | inr other ↦ rw other refl
      ]

  get_found-terminal :
      (c : Cache Item) (key reservation_id source_receipt_id : String) (now : ℕ)
      (o : Option (CollectionResult Item))
      → (get_found name_hit c key reservation_id source_receipt_id now o).0.terminal_collections
        ≡ c.terminal_collections
  unfolding get_found
  get_found-terminal c key reservation_id source_receipt_id now none = refl
  get_found-terminal c key reservation_id source_receipt_id now (some stored) =
      elim (Bool-cases (is_expired stored.receipt now)) [
        | inl expired ↦ rw expired refl
        | inr live ↦ rw live refl
      ]

  hydrate_receipt-terminal :
      (c : Cache Item) (now : ℕ) (key : String) (row : ReceiptRow) (items : ItemRows Item)
      → (hydrate_receipt c now key row items).0.terminal_collections ≡ c.terminal_collections
  unfolding hydrate_receipt hydrate_items
  hydrate_receipt-terminal c now key no_mapping items = refl
  hydrate_receipt-terminal c now key refused (not_list iterated) = refl
  hydrate_receipt-terminal c now key refused refused_item = refl
  hydrate_receipt-terminal c now key refused (item_rows items) = refl
  hydrate_receipt-terminal c now key (receipt_row receipt) (not_list iterated) = refl
  hydrate_receipt-terminal c now key (receipt_row receipt) refused_item =
      elim (Bool-cases (is_expired receipt now)) [
        | inl expired ↦ rw expired refl
        | inr live ↦ rw live refl
      ]
  hydrate_receipt-terminal c now key (receipt_row receipt) (item_rows items) =
      elim (Bool-cases (is_expired receipt now)) [
        | inl expired ↦ rw expired refl
        | inr live ↦ rw live refl
      ]

  hydrate_entry-terminal :
      (c : Cache Item) (now : ℕ) (entry : Checkpoint Item)
      → (hydrate_entry c now entry).0.terminal_collections ≡ c.terminal_collections
  unfolding hydrate_entry
  hydrate_entry-terminal c now entry = elim (Bool-cases (str_eq entry.cache_key "")) [
    | inl empty ↦ rw empty refl
    | inr named ↦
        rw named (hydrate_receipt-terminal c now entry.cache_key entry.receipt entry.items)
  ]

  hydrate_collections-terminal :
      (c : Cache Item) (now : ℕ) (entries : List (Checkpoint Item))
      → (hydrate_collections c now entries).0.terminal_collections ≡ c.terminal_collections
  unfolding hydrate_collections
  hydrate_collections-terminal c now [] = refl
  hydrate_collections-terminal c now (entry ∷ entries) =
      elim (Result-cases ((hydrate_entry c now entry).1)) [
        | inr (exception, raised) ↦
            rw (raised, hydrate_collections) (hydrate_entry-terminal c now entry)
        | inl (done, hydrated) ↦
            rw (hydrated, hydrate_collections)
              (hydrate_collections-terminal (hydrate_entry c now entry).0 now entries
                ∙ hydrate_entry-terminal c now entry)
      ]

  attach_found-terminal :
      (c : Cache Item) (key : String) (metadata : List (String × String))
      (o : Option (CollectionResult Item))
      → (attach_found bound c key metadata o).terminal_collections ≡ c.terminal_collections
  unfolding attach_found
  attach_found-terminal c key metadata none = refl
  attach_found-terminal c key metadata (some result) = refl

  step-terminal :
      (c : Cache Item) (call : Call Item)
      → (step c call).terminal_collections ≡ c.terminal_collections
  unfolding get_collection attach_collection_metadata
  step-terminal c (put key result) = put_collection-terminal c key result
  step-terminal c (get key reservation_id source_receipt_id now) =
      get_found-terminal c key reservation_id source_receipt_id now (c.collections key)
  step-terminal c (hydrate now entries) = hydrate_collections-terminal c now entries
  step-terminal c (attach key metadata) = attach_found-terminal c key metadata (c.collections key)

  run-terminal :
      (c : Cache Item) (calls : List (Call Item))
      → (run c calls).terminal_collections ≡ c.terminal_collections
  run-terminal c [] = refl
  run-terminal c (call ∷ calls) = run-terminal (step c call) calls ∙ step-terminal c call

  hydrate_terminal_entries-last :
      (c : Cache Item) (run_id k r : String) (entries : List (Checkpoint Item))
      → (hydrate_terminal_entries c run_id entries).1 ≡ ok tt
      → (hydrate_terminal_entries c run_id entries).0.terminal_collections r k
        ≡ or_else
            (if str_eq r run_id then last_checkpoint k entries else none)
            (c.terminal_collections r k)
  unfolding hydrate_terminal_entries
  hydrate_terminal_entries-last c run_id k r [] e = elim (Bool-cases (str_eq r run_id)) [
    | inl same ↦ rw same refl
    | inr other ↦ rw other refl
  ]
  hydrate_terminal_entries-last c run_id k r (entry ∷ entries) e =
      elim (Bool-cases (str_eq entry.cache_key "")) [
        | inl empty ↦
            absurd (not_done invalid_checkpoint (rw (empty, hydrate_terminal_entries) at e))
        | inr named ↦ elim (Result-cases (collection_from_checkpoint entry.receipt entry.items)) [
          | inr (exception, raised) ↦
              absurd (not_done exception (rw (named, raised, hydrate_terminal_entries) at e))
          | inl (result, restored) ↦
              rw (named, restored, hydrate_terminal_entries)
                (hydrate_terminal_entries-last (set_terminal c run_id entry.cache_key result) run_id
                    k r entries (rw (named, restored, hydrate_terminal_entries) at e)
                  ∙ merged result)
        ]
      ]
    where
      merged :
          (result : CollectionResult Item)
          → or_else
              (if str_eq r run_id then last_checkpoint k entries else none)
              ((set_terminal c run_id entry.cache_key result).terminal_collections r k)
            ≡ or_else
                (if str_eq r run_id
                  then or_else
                      (last_checkpoint k entries)
                      (if str_eq k entry.cache_key then some result else none)
                  else none)
                (c.terminal_collections r k)
      merged result = elim (Bool-cases (str_eq r run_id)) [
        | inr other ↦ rw other refl
        | inl same ↦ elim (Bool-cases (str_eq k entry.cache_key)) [
          | inl here ↦
              rw (same, here) (sym (or_else-or_else (last_checkpoint k entries) (some result) _))
          | inr there ↦ rw (same, there) (sym (or_else-or_else (last_checkpoint k entries) none _))
        ]
      ]

  -- If `hydrate_terminal_collections` accepts all the checkpoints of a run, then whatever other calls follow,
  -- `get_terminal_collection` returns the last checkpoint of a key as it is, expired or not, or what was
  -- there before where the run has none; other runs keep theirs.
  pub get_terminal_collection-last :
      (c : Cache Item) (run_id : String) (entries : List (Checkpoint Item))
      (calls : List (Call Item)) (r k : String)
      → (hydrate_terminal_collections c run_id entries).1 ≡ ok tt
      → get_terminal_collection (run (hydrate_terminal_collections c run_id entries).0 calls) r k
        ≡ or_else
            (if str_eq r run_id then last_checkpoint k entries else none)
            (get_terminal_collection c r k)
  unfolding hydrate_terminal_collections
  get_terminal_collection-last c run_id entries calls r k e =
      ap (λ t. t r k) (run-terminal (hydrate_terminal_collections c run_id entries).0 calls)
      ∙ hydrated
    where
      hydrated :
          (hydrate_terminal_collections c run_id entries).0.terminal_collections r k
          ≡ or_else
              (if str_eq r run_id then last_checkpoint k entries else none)
              (c.terminal_collections r k)
      hydrated = elim (Bool-cases (str_eq run_id "")) [
        | inl empty ↦ absurd (not_done invalid_terminal_run (rw empty at e))
        | inr named ↦ rw named (hydrate_terminal_entries-last c run_id k r entries (rw named at e))
      ]
