-- ===== src/OfflineQueue/Store.antt =====
-- web/src/lib/offline-queue.ts: the rows of one user's object store, and the requests made of it.
-- IndexedDB keeps the rows in the order of their keys and makes the keys of `add` itself. The wire
-- payload is never looked into, so its type is a parameter.
use Prim.Native.Nat.{max}
use spen_drop.Base.{
  ℕ, ◌+◌, Bool, ◌&&◌, ◌||◌, List, [], ◌∷◌, ◌++◌, Option, none, some, ltb, leb, ◌==◌, if◌then◌else◌,
  keep, not,
}

pub record Row {ℓ} (P : Type ℓ) : Type ℓ where
  pub id : ℕ
  pub payload : P
  pub queued_at : ℕ
  pub attempts : ℕ

pub record Store {ℓ} (P : Type ℓ) : Type ℓ where
  pub rows : List (Row P)
  pub next_key : ℕ

module _ {ℓ} {P : Type ℓ} where
  -- A database that was just created; key generators start at 1.
  abbrev pub fresh : Store P
  fresh = record { rows = []; next_key = 1 }

  -- `{ payload, queuedAt, attempts: 0 }` under the next key
  abbrev pub new_row : P → ℕ → Store P → Row P
  new_row payload now s = record {
    id = s.next_key;
    payload = payload;
    queued_at = now;
    attempts = 0;
  }

  -- `objectStore.add(…)`
  unfoldable pub add : P → ℕ → Store P → Store P
  add payload now s = record {
    rows = s.rows ++ new_row payload now s ∷ [];
    next_key = s.next_key + 1;
  }

  -- `put(row)`, in the order of the keys
  unfoldable pub put_row : Row P → List (Row P) → List (Row P)
  put_row r [] = r ∷ []
  put_row r (x ∷ xs) =
      if r.id == x.id then r ∷ xs else (if ltb r.id x.id then r ∷ x ∷ xs else x ∷ put_row r xs)

  -- `objectStore.put(row)`: an explicit key moves the key generator past it
  unfoldable pub put : Row P → Store P → Store P
  unfolding put_row
  put r s = record { rows = put_row r s.rows; next_key = max s.next_key (r.id + 1) }

  -- `delete(id)`
  unfoldable pub delete_row : ℕ → List (Row P) → List (Row P)
  delete_row k xs = keep (λ x. not (x.id == k)) xs

  -- `get(id)`, by which statements read a store
  unfoldable pub find_row : ℕ → List (Row P) → Option (Row P)
  find_row k [] = none
  find_row k (x ∷ xs) = if x.id == k then some x else find_row k xs

  -- the comparison of `all.sort`, as a test: `a` stands before `b`, or ties
  abbrev pub is_before : Row P → Row P → Bool
  is_before a b = ltb a.queued_at b.queued_at || ((a.queued_at == b.queued_at) && leb a.id b.id)

  unfoldable pub insert_sorted : Row P → List (Row P) → List (Row P)
  insert_sorted r [] = r ∷ []
  insert_sorted r (x ∷ xs) = if is_before r x then r ∷ x ∷ xs else x ∷ insert_sorted r xs

  -- the rows that `getAllQueued` hands out: oldest capture first, the key breaks ties
  unfoldable pub sort_rows : List (Row P) → List (Row P)
  unfolding insert_sorted
  sort_rows [] = []
  sort_rows (x ∷ xs) = insert_sorted x (sort_rows xs)
