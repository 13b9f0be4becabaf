-- ===== src/Ledger/Writes.antt =====
-- web/src/hooks/useTransactions.ts: the writes to many transactions at once. The outcomes of the request
-- and of the refetch after it are arguments; a message is what `err.message` or `String(err)` gives.
use spen_drop.Base.{ℕ, Bool, true, false, String, List, [], ◌∷◌, Option, none, some, ◌≡◌, refl}
use spen_drop.Ledger.Query.{Params, TransactionFilters, build_filter_query}

pub data Posted {ℓ} (R : Type ℓ) : Type ℓ where
  posted : (result : R) → Posted R
  post_failed : (message : String) → Posted R

-- a refetch: the ids of the rows on the page, no data at all, or an error
pub data Refetched : Type 0 where
  page_of : (ids : List ℕ) → Refetched
  no_data : Refetched
  refetch_failed : (message : String) → Refetched

pub data Written {ℓ} (R : Type ℓ) : Type ℓ where
  written : (result : R) → Written R
  not_written : (message : String) → Written R
  -- `RefetchAfterMutationError`
  refetch_after_mutation_error : (message : String) → Written R

-- `refetchAsync`
unfoldable pub refetch_async : Refetched → Posted (List ℕ)
refetch_async (page_of ids) = posted ids
refetch_async no_data = post_failed "Failed to load transactions"
refetch_async (refetch_failed message) = post_failed message

module _ {ℓ} {R : Type ℓ} where
  abbrev with_visible : R → Posted (List ℕ) → Written (R × List ℕ)
  with_visible result (posted ids) = written (result, ids)
  with_visible result (post_failed message) = refetch_after_mutation_error message

  unfoldable pub bulk_update : Posted R → Refetched → Written (R × List ℕ)
  unfolding refetch_async
  bulk_update (posted result) refetched = with_visible result (refetch_async refetched)
  bulk_update (post_failed message) refetched = not_written message

  abbrev without_visible : R → Posted (List ℕ) → Written R
  without_visible result (posted ids) = written result
  without_visible result (post_failed message) = refetch_after_mutation_error message

  unfoldable pub bulk_update_by_filter : Posted R → Refetched → Written R
  unfolding refetch_async
  bulk_update_by_filter (posted result) refetched = without_visible result (refetch_async refetched)
  bulk_update_by_filter (post_failed message) refetched = not_written message

  -- Whether the server carried the write out.
  abbrev pub landed : Posted R → Bool
  landed (posted result) = true
  landed (post_failed message) = false

-- Whether the page may tell the user that the change is in the data.
abbrev pub admits_change {ℓ} : {R : Type ℓ} → Written R → Bool
admits_change (written result) = true
admits_change (not_written message) = false
admits_change (refetch_after_mutation_error message) = true

abbrev pub is_fresh {ℓ} : {R : Type ℓ} → Written R → Bool
is_fresh (written result) = true
is_fresh (not_written message) = false
is_fresh (refetch_after_mutation_error message) = false

-- Both bulk edits tell the same of every outcome: the change is admitted exactly where the server
-- carried it out, a failed refetch included, and the view is fresh exactly where the rows on the page
-- came back as well.
pub bulk_update-admits_change :
    {R : Type 0} (p : Posted R) (r : Refetched)
    → (admits_change (bulk_update p r) ≡ landed p)
      × (admits_change (bulk_update_by_filter p r) ≡ landed p)
      × (is_fresh (bulk_update p r) ≡ is_fresh (bulk_update_by_filter p r))
unfolding bulk_update bulk_update_by_filter refetch_async
bulk_update-admits_change (posted result) (page_of ids) = (refl, refl, refl)
bulk_update-admits_change (posted result) no_data = (refl, refl, refl)
bulk_update-admits_change (posted result) (refetch_failed message) = (refl, refl, refl)
bulk_update-admits_change (post_failed message) r = (refl, refl, refl)

-- the path of `deleteByFilter`: its query, if there is one
unfoldable pub delete_by_filter_path : TransactionFilters → Option Params
unfolding build_filter_query
delete_by_filter_path f = elim (build_filter_query f) [ [] ↦ none | p ∷ ps ↦ some (p ∷ ps) ]
