-- ===== src/OfflineQueue/QuickAdd.antt =====
-- web/src/hooks/useQuickAdd.ts: a create that is posted or captured, and its undo. What the server
-- answers to the POST or the DELETE, and whether IndexedDB carries a request out, are arguments.
use spen_drop.Base.{
  ℕ, suc, Bool, true, false, Option, none, some, List, [], ◌∷◌, ◌++◌, ◌==◌, if◌then◌else◌, ◌≡◌,
  refl, ap, ◌∙◌, Bool-cases, inl, inr, arith,
}
use spen_drop.OfflineQueue.Store.{Row, new_row, add, delete_row}
use spen_drop.OfflineQueue.Keys.{Keyed, Keyed-le}
use spen_drop.OfflineQueue.Device.{Device, enqueue, remove_queued}
use spen_drop.OfflineQueue.Safety.{IsSafe}

-- what the POST comes to: the row that was made, or an error
pub data CreateAnswer {ℓ} (T : Type ℓ) : Type ℓ where
  created : (transaction : T) → CreateAnswer T
  rejected : CreateAnswer T

pub data QuickAddOutcome {ℓ} (T : Type ℓ) : Type ℓ where
  saved : (transaction : T) → QuickAddOutcome T
  queued : (queued_id : ℕ) → QuickAddOutcome T

abbrev pub queued_as {ℓ} : {T : Type ℓ} → Option ℕ → Option (QuickAddOutcome T)
queued_as none = none
queued_as (some id) = some (queued id)

abbrev pub saved_as {ℓ} : {T : Type ℓ} → CreateAnswer T → Option (QuickAddOutcome T)
saved_as (created transaction) = some (saved transaction)
saved_as rejected = none

delete_row-fresh {ℓ} :
    {P : Type ℓ} (k lo : ℕ) (r : Row P) (xs : List (Row P))
    → r.id ≡ k
    → Keyed lo k xs
    → delete_row k (xs ++ r ∷ []) ≡ xs
unfolding delete_row
delete_row-fresh k lo r [] e h = ground arith
delete_row-fresh k lo r (x ∷ xs) e h =
    let below = Keyed-le (suc x.id) k xs h.1 in
    let kept : (x.id == k) ≡ false = ground arith in
    rw kept (ap (λ ys. x ∷ ys) (delete_row-fresh k (suc x.id) r xs e h.1))

module _ {ℓ} {P T : Type ℓ} where
  -- `none` is a rejected promise.
  unfoldable pub create :
      Option ℕ
      → Bool
      → P
      → ℕ
      → Bool
      → CreateAnswer T
      → Device P
      → Device P × Option (QuickAddOutcome T)
  create none offline input now stored answer d = (d, none)
  create (some u) offline input now stored answer d =
      if offline
      then (let (d', id) = enqueue u input now stored d in (d', queued_as id))
      else (d, saved_as answer)

  unfoldable pub undo_create : Option ℕ → QuickAddOutcome T → Bool → Device P → Device P
  undo_create u (saved transaction) removed d = d
  undo_create none (queued id) removed d = d
  undo_create (some u) (queued id) removed d = (remove_queued u id removed d).0

  -- On a device whose stores are sound, a capture that IndexedDB carries out is undone by its own id:
  -- every user's rows are then what they were.
  pub undo_create-create :
      (u v now : ℕ) (input : P) (answer : CreateAnswer T) (d : Device P)
      → IsSafe d
      → let key = (d.stores u).next_key in
        let captured = create (some u) true input now true answer d in
        let undone = undo_create (some u) (queued key) true captured.0 in
        (captured.1 ≡ some (queued key)) × ((undone.stores v).rows ≡ (d.stores v).rows)
  unfolding create undo_create enqueue remove_queued add
  undo_create-create u v now input answer d safe =
      let s = d.stores u in
      let row = new_row input now s in
      let self : (u == u) ≡ true = ground arith in
      (
        refl,
        elim (Bool-cases (u == v)) [
          | inr other ↦ rw other refl
          | inl e ↦
              let same : u ≡ v = ground arith in
              rw (e, self)
                (delete_row-fresh s.next_key 1 row s.rows refl (safe u).keyed
                  ∙ ap (λ w. (d.stores w).rows) same)
        ],
      )
