-- ===== src/Cache/Entries.antt =====
-- `put`, `get`, `put_run` and `get_run` of lib/intelligence/cache.py. A value is a JSON value, which nothing
-- changes, so the copies of the code are left out.
use stocks_agent.Common.{
  ◌≡◌, refl, inl, inr, Bool, true, false, Option, none, some, String, if◌then◌else◌, str_eq,
  Bool-cases, Result, ok, raise,
}
use stocks_agent.Policy.Value.{Value, boolean, mapping, Fields, lookup, set_field}
use stocks_agent.Cache.State.{
  CacheError, invalid_entry, entry_without_receipt, invalid_run_key, Cache,
}

abbrev pub is_mapping : Option Value → Bool
is_mapping (some (mapping fields)) = true
is_mapping _ = false

abbrev pub as_hit : Option Fields → Option Fields
as_hit none = none
as_hit (some fields) = some (set_field "cache_hit" (boolean true) fields)

module _ {Item : Type 0} where
  abbrev pub set_entry : Cache Item → String → Fields → Cache Item
  set_entry c key fields = record c {
    entries = λ k. if str_eq k key then some fields else c.entries k;
  }

  unfoldable pub put : Cache Item → String → Value → Cache Item × Result CacheError (Unit {0})
  put c key (mapping fields) =
      if str_eq key ""
      then (c, raise invalid_entry)
      else if is_mapping (lookup "receipt" fields)
      then (set_entry c key fields, ok tt)
      else (c, raise entry_without_receipt)
  put c key _ = (c, raise invalid_entry)

  unfoldable pub get : Cache Item → String → Option Fields
  get c key = as_hit (c.entries key)

  unfoldable pub put_run : Cache Item → String → Value → Cache Item × Result CacheError (Unit {0})
  put_run c run_id receipt =
      if str_eq run_id ""
      then (c, raise invalid_run_key)
      else (record c { runs = λ k. if str_eq k run_id then some receipt else c.runs k }, ok tt)

  abbrev pub get_run : Cache Item → String → Option Value
  get_run c run_id = c.runs run_id

  -- A mapping with a receipt that is put under a key is got from there, marked as a hit; every other key
  -- gives what it gave.
  pub put-get :
      (c : Cache Item) (key other : String) (fields : Fields)
      → str_eq key "" ≡ false
      → is_mapping (lookup "receipt" fields) ≡ true
      → get (put c key (mapping fields)).0 other ≡ (
          if str_eq other key
          then some (set_field "cache_hit" (boolean true) fields)
          else get c other)
  unfolding put get
  put-get c key other fields named received = elim (Bool-cases (str_eq other key)) [
    | inl same ↦ rw (named, received, same) refl
    | inr differs ↦ rw (named, received, differs) refl
  ]
