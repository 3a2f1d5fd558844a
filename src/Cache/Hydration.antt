-- ===== src/Cache/Hydration.antt =====
-- What the persisted checkpoints put into the cache.
use stocks_agent.Common.{
  ℕ, ◌≡◌, ◌∙◌, refl, sym, ap, false, Option, none, some, List, [], ◌∷◌, String, arith,
  if◌then◌else◌, str_eq, Bool-cases, or_default, Result-cases, inl, inr, Result, ok, raise,
}
use stocks_agent.Cache.State.{
  invalid_checkpoint, RequestReceipt, CollectionResult, CacheError, ReceiptRow, no_mapping, refused,
  receipt_row, ItemRows, not_list, refused_item, item_rows, Checkpoint, Cache, is_expired,
  set_collection, restored, hydrate_items, hydrate_receipt, hydrate_entry, hydrate_collections,
}

-- The first, if there is one, and else the second.
abbrev pub or_else {ℓ} : {A : Type ℓ} → Option A → Option A → Option A
or_else none second = second
or_else (some a) second = some a

pub or_else-or_else {ℓ} :
    {A : Type ℓ} (a b c : Option A) → or_else (or_else a b) c ≡ or_else a (or_else b c)
or_else-or_else none b c = refl
or_else-or_else (some a) b c = refl

abbrev pub raised_error : CacheError → Result CacheError (Unit {0})
raised_error exception = raise exception

pub not_done : (exception : CacheError) → raised_error exception ≡ ok tt → ⊥
not_done exception h = cc

module _ {Item : Type 0} where
  -- What a checkpoint holds, if it is well formed and has not expired.
  abbrev live_items : RequestReceipt → ItemRows Item → Option (CollectionResult Item)
  live_items receipt (not_list iterated) = none
  live_items receipt refused_item = none
  live_items receipt (item_rows items) = some (restored receipt items)

  abbrev live : ℕ → ReceiptRow → ItemRows Item → Option (CollectionResult Item)
  live now no_mapping items = none
  live now refused items = none
  live now (receipt_row receipt) items =
      if is_expired receipt now then none else live_items receipt items

  -- The last live checkpoint of the key.
  abbrev pub last_live : String → ℕ → List (Checkpoint Item) → Option (CollectionResult Item)
  last_live k now [] = none
  last_live k now (entry ∷ entries) =
      or_else (last_live k now entries)
        (if str_eq k entry.cache_key then live now entry.receipt entry.items else none)

  set_collection-some :
      (c : Cache Item) (key k : String) (r : CollectionResult Item)
      → (set_collection c key (some r)).collections k
        ≡ or_else (if str_eq k key then some r else none) (c.collections k)
  set_collection-some c key k r = elim (Bool-cases (str_eq k key)) [
    | inl same ↦ rw same refl
    | inr other ↦ rw other refl
  ]

  hydrate_items-collections :
      (c : Cache Item) (key k : String) (receipt : RequestReceipt) (items : ItemRows Item)
      → (hydrate_items c key receipt items).1 ≡ ok tt
      → (hydrate_items c key receipt items).0.collections k
        ≡ or_else (if str_eq k key then live_items receipt items else none) (c.collections k)
  unfolding hydrate_items
  hydrate_items-collections c key k receipt (not_list iterated) e = cc
  hydrate_items-collections c key k receipt refused_item e = cc
  hydrate_items-collections c key k receipt (item_rows items) e =
      set_collection-some c key k (restored receipt items)

  nothing_live :
      (k key : String) (o : Option (CollectionResult Item))
      → o ≡ or_else (if str_eq k key then none else none) o
  nothing_live k key o = elim (Bool-cases (str_eq k key)) [
    | inl same ↦ rw same refl
    | inr other ↦ rw other refl
  ]

  hydrate_receipt-collections :
      (c : Cache Item) (now : ℕ) (key k : String) (row : ReceiptRow) (items : ItemRows Item)
      → (hydrate_receipt c now key row items).1 ≡ ok tt
      → (hydrate_receipt c now key row items).0.collections k
        ≡ or_else (if str_eq k key then live now row items else none) (c.collections k)
  unfolding hydrate_receipt
  hydrate_receipt-collections c now key k no_mapping items e = cc
  hydrate_receipt-collections c now key k refused (not_list iterated) e = cc
  hydrate_receipt-collections c now key k refused refused_item e = cc
  hydrate_receipt-collections c now key k refused (item_rows items) e = cc
  hydrate_receipt-collections c now key k (receipt_row receipt) (not_list iterated) e = cc
  hydrate_receipt-collections c now key k (receipt_row receipt) refused_item e =
      elim (Bool-cases (is_expired receipt now)) [
        | inl expired ↦ rw expired (nothing_live k key (c.collections k))
        | inr fresh ↦
            rw fresh (hydrate_items-collections c key k receipt refused_item (rw fresh at e))
      ]
  hydrate_receipt-collections c now key k (receipt_row receipt) (item_rows items) e =
      elim (Bool-cases (is_expired receipt now)) [
        | inl expired ↦ rw expired (nothing_live k key (c.collections k))
        | inr fresh ↦
            rw fresh (hydrate_items-collections c key k receipt (item_rows items) (rw fresh at e))
      ]

  hydrate_entry-collections :
      (c : Cache Item) (now : ℕ) (k : String) (entry : Checkpoint Item)
      → (hydrate_entry c now entry).1 ≡ ok tt
      → (hydrate_entry c now entry).0.collections k
        ≡ or_else
            (if str_eq k entry.cache_key then live now entry.receipt entry.items else none)
            (c.collections k)
  unfolding hydrate_entry
  hydrate_entry-collections c now k entry e = elim (Bool-cases (str_eq entry.cache_key "")) [
    | inl empty ↦ absurd (not_done invalid_checkpoint (rw empty at e))
    | inr named ↦ rw named (
        hydrate_receipt-collections c now entry.cache_key k entry.receipt entry.items
          (rw named at e))
  ]

  -- If `hydrate_collections` accepts all the checkpoints, each key stands for its last checkpoint that has not
  -- expired, and for what it stood for before where there is none.
  pub hydrate_collections-last_live :
      (c : Cache Item) (now : ℕ) (entries : List (Checkpoint Item)) (k : String)
      → (hydrate_collections c now entries).1 ≡ ok tt
      → (hydrate_collections c now entries).0.collections k
        ≡ or_else (last_live k now entries) (c.collections k)
  unfolding hydrate_collections
  hydrate_collections-last_live c now [] k e = refl
  hydrate_collections-last_live c now (entry ∷ entries) k e =
      elim (Result-cases ((hydrate_entry c now entry).1)) [
        | inr (exception, raised) ↦
            absurd (not_done exception (rw (raised, hydrate_collections) at e))
        | inl (done, hydrated) ↦
            rw (hydrated, hydrate_collections)
              (hydrate_collections-last_live (hydrate_entry c now entry).0 now entries k
                  (rw (hydrated, hydrate_collections) at e)
                ∙ (ap (or_else (last_live k now entries))
                      (hydrate_entry-collections c now k entry hydrated)
                    ∙ sym (or_else-or_else (last_live k now entries) _ (c.collections k))))
      ]

  -- No collection that the cache holds has expired by then.
  unfoldable pub IsFresh : ℕ → Cache Item → Type 0
  IsFresh now c =
      (k : String) (r : CollectionResult Item)
      → c.collections k ≡ some r
      → is_expired r.receipt now ≡ false

  hydrate_entry-IsFresh :
      (c : Cache Item) (now : ℕ) (entry : Checkpoint Item)
      → IsFresh now c
      → IsFresh now (hydrate_entry c now entry).0
  unfolding hydrate_entry hydrate_receipt hydrate_items IsFresh
  hydrate_entry-IsFresh c now entry fresh = elim (Bool-cases (str_eq entry.cache_key "")) [
    | inl empty ↦ rw empty fresh
    | inr named ↦ rw named (row_IsFresh entry.receipt entry.items)
  ]
    where
      stored :
          (receipt : RequestReceipt) (items : List Item) (r : CollectionResult Item)
          → is_expired receipt now ≡ false
          → some (restored receipt items) ≡ some r
          → is_expired r.receipt now ≡ false
      stored receipt items r live_now found =
          ground (arith, ap (λ o. or_default o (restored receipt items)) found)

      item_IsFresh :
          (receipt : RequestReceipt) (items : ItemRows Item)
          → is_expired receipt now ≡ false
          → IsFresh now (hydrate_items c entry.cache_key receipt items).0
      item_IsFresh receipt (not_list iterated) live_now = fresh
      item_IsFresh receipt refused_item live_now = fresh
      item_IsFresh receipt (item_rows items) live_now = λ k r found.
          elim (Bool-cases (str_eq k entry.cache_key)) [
            | inl same ↦ stored receipt items r live_now (rw same at found)
            | inr other ↦ fresh k r (rw other at found)
          ]

      row_IsFresh :
          (row : ReceiptRow) (items : ItemRows Item)
          → IsFresh now (hydrate_receipt c now entry.cache_key row items).0
      row_IsFresh no_mapping items = fresh
      row_IsFresh refused (not_list iterated) = fresh
      row_IsFresh refused refused_item = fresh
      row_IsFresh refused (item_rows items) = fresh
      row_IsFresh (receipt_row receipt) (not_list iterated) = fresh
      row_IsFresh (receipt_row receipt) refused_item = elim (Bool-cases (is_expired receipt now)) [
        | inl expired ↦ rw expired fresh
        | inr live_now ↦ rw live_now fresh
      ]
      row_IsFresh (receipt_row receipt) (item_rows items) =
          elim (Bool-cases (is_expired receipt now)) [
            | inl expired ↦ rw expired fresh
            | inr live_now ↦ rw live_now (item_IsFresh receipt (item_rows items) live_now)
          ]

  -- If nothing in the cache has expired, nothing has when `hydrate_collections` is done, whether or not it raises.
  pub hydrate_collections-IsFresh :
      (c : Cache Item) (now : ℕ) (entries : List (Checkpoint Item))
      → IsFresh now c
      → IsFresh now (hydrate_collections c now entries).0
  unfolding hydrate_collections
  hydrate_collections-IsFresh c now [] fresh = fresh
  hydrate_collections-IsFresh c now (entry ∷ entries) fresh =
      elim (Result-cases ((hydrate_entry c now entry).1)) [
        | inr (exception, raised) ↦
            rw (raised, hydrate_collections) (hydrate_entry-IsFresh c now entry fresh)
        | inl (done, hydrated) ↦
            rw (hydrated, hydrate_collections)
              (hydrate_collections-IsFresh (hydrate_entry c now entry).0 now entries
                (hydrate_entry-IsFresh c now entry fresh))
      ]
