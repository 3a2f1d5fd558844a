-- ===== src/Cache/Hits.antt =====
-- What `get_collection` returns, and that terminal outcomes are left alone.
use stocks_agent.Common.{
  ℕ, ◌≡◌, ◌⊎◌, refl, sym, ap, subst, ok_injective, true, false, Option, none, some, String, arith,
  if◌then◌else◌, str_eq, str_eq_self, contains, Bool-cases, Option-cases, inl, inr, Result, ok,
  raise,
}
use stocks_agent.Cache.State.{
  CollectionResult, CacheError, Cache, is_expired, kept_statuses, is_paid_failure, put_collection,
  hit_of, reuse, some_result, get_found, get_collection,
}

module _ {Item : Type 0} (name_hit : (source_receipt_id predecessor : String) → String) where
  -- A result that is reused: the stored one where it is a paid failure, and else a hit without cost.
  abbrev pub IsReuse : CollectionResult Item → String → CollectionResult Item → Type 0
  IsReuse stored reservation_id r =
      (is_paid_failure stored.receipt ≡ true) × (r ≡ stored)
      ⊎ (is_paid_failure stored.receipt ≡ false)
        × (r.items ≡ stored.items)
        × (r.receipt.status ≡ "cache_hit")
        × (r.receipt.request_cost ≡ 0)
        × (r.receipt.reservation_id ≡ reservation_id)
        × (r.receipt.cache_predecessor_receipt_id ≡ stored.receipt.source_receipt_id)

  reuse-IsReuse :
      (stored : CollectionResult Item) (reservation_id source_receipt_id : String)
      (id : Option String) (r : CollectionResult Item)
      → stored.receipt.source_receipt_id ≡ id
      → reuse name_hit stored reservation_id source_receipt_id id ≡ ok r
      → IsReuse stored reservation_id r
  unfolding reuse
  reuse-IsReuse stored reservation_id source_receipt_id none r named e = cc
  reuse-IsReuse stored reservation_id source_receipt_id (some p) r named e =
      elim (Bool-cases (str_eq p "")) [
        | inl empty ↦ cc
        | inr named_p ↦ elim (Bool-cases (is_paid_failure stored.receipt)) [
          | inl paid ↦ inl (paid, cc)
          | inr free ↦
              subst (λ x. IsReuse stored reservation_id x) (ok_injective (rw (named_p, free) at e))
                (inr (free, refl, refl, refl, refl, sym named))
        ]
      ]

  some_result-eq_ok :
      (result : Result CacheError (CollectionResult Item)) (r : CollectionResult Item)
      → some_result name_hit result ≡ ok (some r)
      → result ≡ ok r
  some_result-eq_ok (raise exception) r h = cc
  some_result-eq_ok (ok r') r h = cc

  abbrev nothing : Result CacheError (Option (CollectionResult Item))
  nothing = ok none

  -- If `get_collection` returns a result, it was stored, has not expired and is reused: a paid failure as it is,
  -- anything else as a hit that costs nothing and names its predecessor. The cache is left as it was.
  pub get_collection-IsReuse :
      (c c' : Cache Item) (key reservation_id source_receipt_id : String) (now : ℕ)
      (r : CollectionResult Item)
      → get_collection name_hit c key reservation_id source_receipt_id now ≡ (c', ok (some r))
      → (stored : CollectionResult Item) × (c.collections key ≡ some stored)
        × (is_expired stored.receipt now ≡ false)
        × IsReuse stored reservation_id r
        × (c' ≡ c)
  unfolding get_collection get_found
  get_collection-IsReuse c c' key reservation_id source_receipt_id now r e =
      elim (Option-cases (c.collections key)) [
        | inl absent ↦ cc
        | inr (stored, found) ↦ elim (Bool-cases (is_expired stored.receipt now)) [
          | inl expired ↦ absurd (not_reused (ap (λ t. t.1) (rw (found, expired) at e)))
          | inr live ↦
              let same = rw (found, live) at e in
              (
                stored,
                found,
                live,
                reuse-IsReuse stored reservation_id source_receipt_id
                    stored.receipt.source_receipt_id r refl
                    (some_result-eq_ok _ r (ap (λ t. t.1) same)),
                sym (ap (λ t. t.0) same),
              )
        ]
      ]
    where
      not_reused : nothing ≡ ok (some r) → ⊥
      not_reused h = cc

  -- If `get_collection` finds nothing to reuse, the key stays empty: asked again, whenever, it finds nothing.
  pub get_collection-none :
      (c : Cache Item)
      (key reservation_id source_receipt_id reservation_id' source_receipt_id' : String)
      (now later : ℕ)
      → (get_collection name_hit c key reservation_id source_receipt_id now).1 ≡ ok none
      → let c' = (get_collection name_hit c key reservation_id source_receipt_id now).0 in
        get_collection name_hit c' key reservation_id' source_receipt_id' later ≡ (c', ok none)
  unfolding get_collection get_found
  get_collection-none c key reservation_id source_receipt_id reservation_id' source_receipt_id' now
        later e =
      elim (Option-cases (c.collections key)) [
        | inl absent ↦ ground (arith, absent)
        | inr (stored, found) ↦ elim (Bool-cases (is_expired stored.receipt now)) [
          | inl expired ↦ rw (found, expired) (ground (arith, str_eq_self key))
          | inr live ↦ absurd (
              not_none
                (reuse name_hit stored reservation_id source_receipt_id
                  stored.receipt.source_receipt_id)
                (rw (found, live) at e))
        ]
      ]
    where
      not_none :
          (result : Result CacheError (CollectionResult Item))
          → some_result name_hit result ≡ ok none
          → ⊥
      not_none (raise exception) h = cc
      not_none (ok r) h = cc

  -- If a result has one of the statuses that are kept, a named receipt and has not expired, it is
  -- reused once it is put, and what other keys stand for is not changed.
  pub put_collection-get_collection :
      (c : Cache Item) (key reservation_id source_receipt_id id : String) (now : ℕ)
      (result : CollectionResult Item)
      → contains result.receipt.status kept_statuses ≡ true
      → result.receipt.source_receipt_id ≡ some id
      → str_eq id "" ≡ false
      → is_expired result.receipt now ≡ false
      → let c' = put_collection c key result in
        (get_collection name_hit c' key reservation_id source_receipt_id now ≡ (
          c',
          ok (
              some (
                if is_paid_failure result.receipt
                then result
                else hit_of name_hit result reservation_id source_receipt_id id)),
        ))
        × ((k : String) → str_eq k key ≡ false → c'.collections k ≡ c.collections k)
  unfolding put_collection get_collection get_found reuse
  put_collection-get_collection c key reservation_id source_receipt_id id now result kept named
        nonempty live =
      (
        elim (Bool-cases (is_paid_failure result.receipt)) [
          | inl paid ↦ rw (kept, str_eq_self key, live, named, nonempty, paid) refl
          | inr free ↦ rw (kept, str_eq_self key, live, named, nonempty, free) refl
        ],
        λ k other. rw (kept, other) refl,
      )
