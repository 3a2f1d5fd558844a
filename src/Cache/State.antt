-- ===== src/Cache/State.antt =====
-- `ResumableCollectionCache` of lib/intelligence/cache.py, on checkpoints whose fields are parsed. A
-- dict is a function from its keys. A method returns the cache that it leaves with its result or
-- exception. A datetime is its UTC instant in microseconds. The items are not looked into.
use stocks_agent.Common.{
  ℕ, Bool, true, false, ◌&&◌, ◌||◌, Option, none, some, List, [], ◌∷◌, String, leb, if◌then◌else◌,
  str_eq, contains, Result, ok, raise,
}
use stocks_agent.Policy.Value.{Value, Fields}

-- `RequestReceipt` of lib/intelligence/providers/__init__.py
pub record RequestReceipt : Type 0 where
  pub provider : String
  pub reservation_id : String
  pub status : String
  pub cache_key : String
  pub requested_window : List (String × String)
  pub requested_limit : ℕ
  pub retrieved_at : ℕ
  pub observed_at : Option ℕ
  pub expires_at : Option ℕ
  pub request_cost : ℕ
  pub upstream_remaining : Option ℕ
  pub returned_count : ℕ
  pub accepted_count : ℕ
  pub duplicate_count : ℕ
  pub dropped_count : ℕ
  pub response_hash : Option String
  pub error_code : Option String
  pub source_receipt_id : Option String
  pub cache_predecessor_receipt_id : Option String
  pub metadata : List (String × String)

pub record CollectionResult (Item : Type 0) : Type 0 where
  pub items : List Item
  pub receipt : RequestReceipt
  pub requested_limit : ℕ

pub data CacheError : Type 0 where
  invalid_checkpoint invalid_receipt invalid_item invalid_terminal_run missing_source_receipt :
      CacheError
  invalid_entry entry_without_receipt invalid_run_key : CacheError

-- `entry.get("receipt")`: no mapping, a mapping that `_receipt_from_checkpoint` refuses, or a receipt.
pub data ReceiptRow : Type 0 where
  no_mapping refused : ReceiptRow
  receipt_row : RequestReceipt → ReceiptRow

-- `entry.get("items")`: no list, with the items that iterating over it gives, if it gives any; a list with
-- an item that `_item_from_checkpoint` refuses; or a list of items.
pub data ItemRows (Item : Type 0) : Type 0 where
  not_list : Option (List Item) → ItemRows Item
  refused_item : ItemRows Item
  item_rows : List Item → ItemRows Item

-- A checkpoint. A key that is not a text is given as an empty one, which is refused as well.
pub record Checkpoint (Item : Type 0) : Type 0 where
  pub cache_key : String
  pub receipt : ReceiptRow
  pub items : ItemRows Item

-- `status == "succeeded" and (expires_at is None or expires_at <= now)`
abbrev pub is_due : Option ℕ → ℕ → Bool
is_due none now = true
is_due (some expires_at) now = leb expires_at now

unfoldable pub is_expired : RequestReceipt → ℕ → Bool
is_expired receipt now = str_eq receipt.status "succeeded" && is_due receipt.expires_at now

abbrev pub kept_statuses : List String
kept_statuses = "succeeded" ∷ "cache_hit" ∷ "failed" ∷ "quota_blocked" ∷ []

-- `status in {"failed", "quota_blocked"}`
abbrev pub is_paid_failure : RequestReceipt → Bool
is_paid_failure receipt = str_eq receipt.status "failed" || str_eq receipt.status "quota_blocked"

-- `_entries` and `_runs` hold JSON values.
pub record Cache (Item : Type 0) : Type 0 where
  pub entries : String → Option Fields
  pub collections : String → Option (CollectionResult Item)
  pub terminal_collections : (run_id key : String) → Option (CollectionResult Item)
  pub runs : String → Option Value

module _ {Item : Type 0} where
  abbrev pub empty_cache : Cache Item
  empty_cache = record {
    entries = λ _. none;
    collections = λ _. none;
    terminal_collections = λ _ _. none;
    runs = λ _. none;
  }

  -- `self._collections[key] = result`, and `pop` where it is none.
  abbrev pub set_collection : Cache Item → String → Option (CollectionResult Item) → Cache Item
  set_collection c key result = record c {
    collections = λ k. if str_eq k key then result else c.collections k;
  }

  abbrev pub set_terminal : Cache Item → (run_id key : String) → CollectionResult Item → Cache Item
  set_terminal c run_id key result = record c {
    terminal_collections =
        λ r k. if str_eq r run_id && str_eq k key then some result else c.terminal_collections r k;
  }

  unfoldable pub put_collection : Cache Item → String → CollectionResult Item → Cache Item
  put_collection c key result =
      if contains result.receipt.status kept_statuses then set_collection c key (some result) else c

  abbrev pub get_terminal_collection :
      Cache Item → (run_id key : String) → Option (CollectionResult Item)
  get_terminal_collection c run_id key = c.terminal_collections run_id key

  abbrev pub collection_for_lineage : Cache Item → String → Option (CollectionResult Item)
  collection_for_lineage c key = c.collections key

  -- `CollectionResult(items, receipt, receipt.requested_limit)`
  abbrev pub restored : RequestReceipt → List Item → CollectionResult Item
  restored receipt items = record {
    items = items;
    receipt = receipt;
    requested_limit = receipt.requested_limit;
  }

  -- One round of the loop of `hydrate_collections`.
  unfoldable pub hydrate_items :
      Cache Item
      → String
      → RequestReceipt
      → ItemRows Item
      → Cache Item × Result CacheError (Unit {0})
  hydrate_items c key receipt (not_list iterated) = (c, raise invalid_checkpoint)
  hydrate_items c key receipt refused_item = (c, raise invalid_item)
  hydrate_items c key receipt (item_rows items) =
      (set_collection c key (some (restored receipt items)), ok tt)

  unfoldable pub hydrate_receipt :
      Cache Item
      → ℕ
      → String
      → ReceiptRow
      → ItemRows Item
      → Cache Item × Result CacheError (Unit {0})
  hydrate_receipt c now key no_mapping items = (c, raise invalid_checkpoint)
  hydrate_receipt c now key row (not_list iterated) = (c, raise invalid_checkpoint)
  hydrate_receipt c now key refused items = (c, raise invalid_receipt)
  hydrate_receipt c now key (receipt_row receipt) items =
      if is_expired receipt now then (c, ok tt) else hydrate_items c key receipt items

  unfoldable pub hydrate_entry :
      Cache Item → ℕ → Checkpoint Item → Cache Item × Result CacheError (Unit {0})
  hydrate_entry c now entry =
      if str_eq entry.cache_key ""
      then (c, raise invalid_checkpoint)
      else hydrate_receipt c now entry.cache_key entry.receipt entry.items

  -- The loop ends at the first exception, with what is stored by then.
  unfoldable pub hydrate_collections :
      Cache Item → ℕ → List (Checkpoint Item) → Cache Item × Result CacheError (Unit {0})
  hydrate_collections c now [] = (c, ok tt)
  hydrate_collections c now (entry ∷ entries) = elim ((hydrate_entry c now entry).1) [
    | raise exception ↦ ((hydrate_entry c now entry).0, raise exception)
    | ok done ↦ hydrate_collections (hydrate_entry c now entry).0 now entries
  ]

  -- `collection_from_checkpoint`
  unfoldable pub collection_of_items :
      RequestReceipt → ItemRows Item → Result CacheError (CollectionResult Item)
  collection_of_items receipt (not_list none) = raise invalid_item
  collection_of_items receipt (not_list (some items)) = ok (restored receipt items)
  collection_of_items receipt refused_item = raise invalid_item
  collection_of_items receipt (item_rows items) = ok (restored receipt items)

  unfoldable pub collection_from_checkpoint :
      ReceiptRow → ItemRows Item → Result CacheError (CollectionResult Item)
  collection_from_checkpoint no_mapping items = raise invalid_receipt
  collection_from_checkpoint refused items = raise invalid_receipt
  collection_from_checkpoint (receipt_row receipt) items = collection_of_items receipt items

  unfoldable pub hydrate_terminal_entries :
      Cache Item → String → List (Checkpoint Item) → Cache Item × Result CacheError (Unit {0})
  hydrate_terminal_entries c run_id [] = (c, ok tt)
  hydrate_terminal_entries c run_id (entry ∷ entries) = elim (str_eq entry.cache_key "") [
    | true ↦ (c, raise invalid_checkpoint)
    | false ↦ elim (collection_from_checkpoint entry.receipt entry.items) [
      | raise exception ↦ (c, raise exception)
      | ok result ↦
          hydrate_terminal_entries (set_terminal c run_id entry.cache_key result) run_id entries
    ]
  ]

  unfoldable pub hydrate_terminal_collections :
      Cache Item → String → List (Checkpoint Item) → Cache Item × Result CacheError (Unit {0})
  hydrate_terminal_collections c run_id entries =
      if str_eq run_id ""
      then (c, raise invalid_terminal_run)
      else hydrate_terminal_entries c run_id entries

  -- `name_hit` is the UUID of the receipt of a hit, by the receipts of the request and of the result.
  module _ (name_hit : (source_receipt_id predecessor : String) → String) where
    abbrev pub hit_of :
        CollectionResult Item
        → (reservation_id source_receipt_id predecessor : String) → CollectionResult Item
    hit_of result reservation_id source_receipt_id predecessor = record result {
      receipt = record result.receipt {
        reservation_id = reservation_id;
        status = "cache_hit";
        request_cost = 0;
        source_receipt_id = some (name_hit source_receipt_id predecessor);
        cache_predecessor_receipt_id = some predecessor;
      };
    }

    -- A cached result with its predecessor receipt, which must have a name.
    unfoldable pub reuse :
        CollectionResult Item
        → (reservation_id source_receipt_id : String) → Option String
        → Result CacheError (CollectionResult Item)
    reuse result reservation_id source_receipt_id none = raise missing_source_receipt
    reuse result reservation_id source_receipt_id (some predecessor) =
        if str_eq predecessor ""
        then raise missing_source_receipt
        else if is_paid_failure result.receipt
        then ok result
        else ok (hit_of result reservation_id source_receipt_id predecessor)

    abbrev pub some_result :
        Result CacheError (CollectionResult Item)
        → Result CacheError (Option (CollectionResult Item))
    some_result (raise exception) = raise exception
    some_result (ok result) = ok (some result)

    unfoldable pub get_found :
        Cache Item
        → (key reservation_id source_receipt_id : String) → ℕ
        → Option (CollectionResult Item)
        → Cache Item × Result CacheError (Option (CollectionResult Item))
    get_found c key reservation_id source_receipt_id now none = (c, ok none)
    get_found c key reservation_id source_receipt_id now (some result) =
        if is_expired result.receipt now then (set_collection c key none, ok none) else (
          c,
          some_result
              (reuse result reservation_id source_receipt_id result.receipt.source_receipt_id),
        )

    unfoldable pub get_collection :
        Cache Item
        → (key reservation_id source_receipt_id : String) → ℕ
        → Cache Item × Result CacheError (Option (CollectionResult Item))
    get_collection c key reservation_id source_receipt_id now =
        get_found c key reservation_id source_receipt_id now (c.collections key)

  -- `bound` is `bounded_metadata`.
  unfoldable pub attach_found :
      (bound : List (String × String) → List (String × String))
      → Cache Item
      → String
      → List (String × String)
      → Option (CollectionResult Item)
      → Cache Item
  attach_found bound c key metadata none = c
  attach_found bound c key metadata (some result) =
      set_collection c key
        (some (record result { receipt = record result.receipt { metadata = bound metadata } }))

  unfoldable pub attach_collection_metadata :
      (bound : List (String × String) → List (String × String))
      → Cache Item
      → String
      → List (String × String)
      → Cache Item
  attach_collection_metadata bound c key metadata =
      attach_found bound c key metadata (c.collections key)
