-- ===== src/OfflineQueue/Device.antt =====
-- web/src/lib/offline-queue.ts: what one device keeps for its users, and the operations on it. Each
-- operation on IndexedDB takes a flag that says whether the browser carried it out (a transaction
-- that fails changes nothing); `storage` says whether localStorage works.
use spen_drop.Base.{
  ℕ, ◌+◌, Bool, true, false, ◌&&◌, Option, none, some, ◌==◌, if◌then◌else◌, length, List, ◌≡◌,
  arith,
}
use spen_drop.OfflineQueue.Store.{Row, Store, fresh, add, put, delete_row, sort_rows}

pub record Device {ℓ} (P : Type ℓ) : Type ℓ where
  -- the database `spendrop-offline-<userId>` of each user
  pub stores : ℕ → Store P
  -- the localStorage keys of `holdKey`
  pub holds : ℕ → Bool
  pub storage : Bool
  pub draining : ℕ → Bool
  pub rerun_requested : ℕ → Bool
  -- how often the subscribers were called
  pub notified : ℕ

abbrev pub set_at {ℓ} : {A : Type ℓ} → (ℕ → A) → ℕ → A → ℕ → A
set_at f u a v = if u == v then a else f v

pub set_at_self {ℓ} : {A : Type ℓ} (f : ℕ → A) (u : ℕ) (a : A) → set_at f u a u ≡ a
set_at_self f u a = ground arith

module _ {ℓ} {P : Type ℓ} where
  abbrev pub notify : Device P → Device P
  notify d = record d { notified = d.notified + 1 }

  abbrev pub with_store : ℕ → Store P → Device P → Device P
  with_store u s d = record d { stores = set_at d.stores u s }

  unfoldable pub needs_sign_in : ℕ → Device P → Bool
  needs_sign_in u d = d.storage && d.holds u

  unfoldable pub mark_needs_sign_in : ℕ → Device P → Device P
  unfolding needs_sign_in
  mark_needs_sign_in u d =
      if needs_sign_in u d
      then d
      else (if d.storage then notify (record d { holds = set_at d.holds u true }) else d)

  unfoldable pub clear_needs_sign_in : ℕ → Device P → Device P
  unfolding needs_sign_in
  clear_needs_sign_in u d =
      if needs_sign_in u d
      then (if d.storage then notify (record d { holds = set_at d.holds u false }) else d)
      else d

  -- `none` is a rejected promise.
  unfoldable pub enqueue : ℕ → P → ℕ → Bool → Device P → Device P × Option ℕ
  unfolding add
  enqueue u payload now stored d =
      if stored
      then (notify (with_store u (add payload now (d.stores u)) d), some (d.stores u).next_key)
      else (d, none)

  unfoldable pub get_all_queued : ℕ → Device P → List (Row P)
  unfolding sort_rows
  get_all_queued u d = sort_rows (d.stores u).rows

  unfoldable pub remove_queued : ℕ → ℕ → Bool → Device P → Device P × Bool
  unfolding delete_row
  remove_queued u id stored d =
      let s = d.stores u in
      if stored
      then (notify (with_store u (record s { rows = delete_row id s.rows }) d), true)
      else (d, false)

  unfoldable pub safe_count : ℕ → Bool → Device P → ℕ
  safe_count u counted d = if counted then length (d.stores u).rows else 0

  -- `deleted` is `onsuccess`; a failed or blocked delete resolves too, with the rows still there.
  unfoldable pub purge_queue : ℕ → Bool → Device P → Device P
  unfolding clear_needs_sign_in
  purge_queue u deleted d =
      notify (clear_needs_sign_in u (if deleted then with_store u fresh d else d))

  abbrev pub bumped_row : Row P → Row P
  bumped_row item = record item { attempts = item.attempts + 1 }

  unfoldable pub bump_attempts : ℕ → Row P → Bool → Device P → Device P × Bool
  unfolding put
  bump_attempts u item stored d =
      if stored then (with_store u (put (bumped_row item) (d.stores u)) d, true) else (d, false)
