-- ===== src/Capture/Keys.antt =====
-- web/src/pages/QuickAdd.tsx: what the sends of one key carry.
use mathlib.Core.Path.{subst}
use spen_drop.Base.{
  ℕ, zero, suc, Bool, true, false, String, str_eq, str_eq_self, Option, none, some, List, [], ◌∷◌,
  ◌++◌, get_elem?, any, All, All-append, All-imp, ◌≡◌, ◌≢◌, refl, sym, ap, ◌∙◌, ◌⊎◌, inl, inr,
  Bool-cases, arith,
}
use spen_drop.Money.Convert.{Converted, payload, no_rate}
use spen_drop.Capture.Form.{
  Form, Household, Effective, effective, can_submit, Snapshot, snapshot_of,
}
use spen_drop.Capture.Send.{
  Entry, Submission, Flight, Screen, CaptureEvent, edited, added, retried, dismissed, sent, failed,
  remove_at, send, submit_as, submit_with, submit, retry, send_returned, send_failed, step, run,
  opened,
}

abbrev pub Has : Entry → List Entry → Type 0
Has e [] = ⊥
Has e (p ∷ ps) = (p ≡ e) ⊎ Has e ps

-- A new key is none of those sent so far.
abbrev pub FreshAt : CaptureEvent → Screen → Type 0
FreshAt (added (some key) date) s = any (λ p. str_eq p.client_key key) s.posts ≡ false
FreshAt _ s = Unit

abbrev Agreeing : List Entry → Type 0
Agreeing ps = (p q : Entry) → Has p ps → Has q ps → (p ≡ q) ⊎ (p.client_key ≢ q.client_key)

Has-append : (e p : Entry) (ps : List Entry) → Has e (ps ++ p ∷ []) → Has e ps ⊎ (p ≡ e)
Has-append e p [] (inl same) = inr same
Has-append e p [] (inr h) = absurd h
Has-append e p (x ∷ ps) (inl same) = inl (inl same)
Has-append e p (x ∷ ps) (inr h) = elim (Has-append e p ps h) [
  | inl old ↦ inl (inr old)
  | inr new ↦ inr new
]

append-Has : (e p : Entry) (ps : List Entry) → Has e ps → Has e (ps ++ p ∷ [])
append-Has e p [] h = absurd h
append-Has e p (x ∷ ps) (inl same) = inl same
append-Has e p (x ∷ ps) (inr h) = inr (append-Has e p ps h)

last-Has : (e : Entry) (ps : List Entry) → Has e (ps ++ e ∷ [])
last-Has e [] = inl refl
last-Has e (x ∷ ps) = inr (last-Has e ps)

-- a key that is none of those of a list is not that of an entry in it
new_key :
    (key : String) (p : Entry) (ps : List Entry)
    → any (λ p. str_eq p.client_key key) ps ≡ false
    → Has p ps
    → p.client_key ≢ key
new_key key p [] fresh h = absurd h
new_key key p (x ∷ ps) fresh (inl same) = λ e.
    let here : str_eq x.client_key key ≡ false = ground (arith, fresh) in
    cc (here, ap (λ k. str_eq k key) (ap (λ q. q.client_key) same ∙ e), str_eq_self key)
new_key key p (x ∷ ps) fresh (inr h) = new_key key p ps (ground (arith, fresh)) h

Agreeing-append :
    (e : Entry) (ps : List Entry)
    → Agreeing ps
    → Has e ps ⊎ (any (λ p. str_eq p.client_key e.client_key) ps ≡ false)
    → Agreeing (ps ++ e ∷ [])
Agreeing-append e ps h (inl old) p q hp hq = h p q (kept_in p hp) (kept_in q hq)
  where
    kept_in : (r : Entry) → Has r (ps ++ e ∷ []) → Has r ps
    kept_in r hr = elim (Has-append r e ps hr) [
      | inl there ↦ there
      | inr same ↦ subst (λ x. Has x ps) same old
    ]
Agreeing-append e ps h (inr fresh) p q hp hq = elim (Has-append p e ps hp) [
  | inl old ↦ elim (Has-append q e ps hq) [
    | inl old' ↦ h p q old old'
    | inr same ↦
        inr (λ k. new_key e.client_key p ps fresh old (k ∙ sym (ap (λ x. x.client_key) same)))
  ]
  | inr same ↦ elim (Has-append q e ps hq) [
    | inl old' ↦
        inr (λ k. new_key e.client_key q ps fresh old' (sym k ∙ sym (ap (λ x. x.client_key) same)))
    | inr same' ↦ inl (sym same ∙ same')
  ]
]

-- Whatever can be sent again has been sent.
record IsSent (s : Screen) : Type 0 where
  agree : Agreeing s.posts
  flying : All (λ f. Has f.submission.entry s.posts) s.flights
  on_offer : All (λ o. Has o.entry s.posts) s.offers

All-remove_at {ℓ} :
    {A : Type ℓ} (P : A → Type 0) (i : ℕ) (xs : List A) → All P xs → All P (remove_at i xs)
All-remove_at P i [] h = h
All-remove_at P zero (x ∷ xs) (p, h) = h
All-remove_at P (suc i) (x ∷ xs) (p, h) = (p, All-remove_at P i xs h)

All-get_elem {ℓ} :
    {A : Type ℓ} (P : A → Type 0) (i : ℕ) (xs : List A) (x : A)
    → get_elem? xs i ≡ some x
    → All P xs
    → P x
All-get_elem P i [] x e h = cc
All-get_elem P zero (y ∷ ys) x e (p, h) = let same : y ≡ x = cc e in subst P same p
All-get_elem P (suc i) (y ∷ ys) x e (p, h) = All-get_elem P i ys x e h

send-IsSent :
    (sub : Submission) (is_retry : Bool) (s : Screen)
    → IsSent s
    → Has sub.entry s.posts ⊎ (any (λ p. str_eq p.client_key sub.entry.client_key) s.posts ≡ false)
    → IsSent (send sub is_retry s)
unfolding send
send-IsSent sub is_retry s h known = record {
  agree = Agreeing-append sub.entry s.posts h.agree known;
  flying =
      All-append _ s.flights _
        (All-imp _ _ (λ f. append-Has f.submission.entry sub.entry s.posts) s.flights h.flying)
        (last-Has sub.entry s.posts, tt);
  on_offer = All-imp _ _ (λ o. append-Has o.entry sub.entry s.posts) s.offers h.on_offer;
}

module _ (h : Household) (same : Snapshot → Snapshot → Bool) where
  -- The key of every new entry is new.
  unfoldable pub IsFresh : List CaptureEvent → Screen → Type 0
  IsFresh [] s = Unit
  IsFresh (e ∷ es) s = FreshAt e s × IsFresh es (step h same e s)

  submit_as-IsSent :
      (key date : String) (e : Effective) (category : ℕ) (snapshot : Snapshot) (c : Converted)
      (s : Screen)
      → IsSent s
      → any (λ p. str_eq p.client_key key) s.posts ≡ false
      → IsSent (submit_as h same key date e category snapshot c s)
  submit_as-IsSent key date e category snapshot (no_rate currency) s i fresh = i
  submit_as-IsSent key date e category snapshot (payload money) s i fresh =
      send-IsSent _ false s i (inr fresh)

  submit_with-IsSent :
      (key : Option String) (date : String) (e : Effective) (category : Option ℕ)
      (snapshot : Snapshot) (s : Screen)
      → IsSent s
      → FreshAt (added key date) s
      → IsSent (submit_with h same key date e category snapshot s)
  submit_with-IsSent none date e category snapshot s i fresh = i
  submit_with-IsSent (some key) date e none snapshot s i fresh = i
  submit_with-IsSent (some key) date e (some category) snapshot s i fresh =
      submit_as-IsSent key date e category snapshot _ s i fresh

  submit-IsSent :
      (key : Option String) (date : String) (s : Screen)
      → IsSent s
      → FreshAt (added key date) s
      → IsSent (submit h same key date s)
  unfolding submit
  submit-IsSent key date s i fresh =
      let e = effective h s.form in
      elim (Bool-cases (can_submit h s.saving e)) [
        | inl can ↦
            rw can (submit_with-IsSent key date e e.category_id (snapshot_of h s.form) s i fresh)
        | inr not_yet ↦ rw not_yet i
      ]

  -- the screen with what is left of its flights and offers
  left-IsSent :
      (s s' : Screen)
      → s'.posts ≡ s.posts
      → IsSent s
      → All (λ f. Has f.submission.entry s.posts) s'.flights
      → All (λ o. Has o.entry s.posts) s'.offers
      → IsSent s'
  left-IsSent s s' e i fs os = record { agree = rw e i.agree; flying = rw e fs; on_offer = rw e os }

  retry-IsSent :
      (o : Option Submission) (i : ℕ) (s : Screen)
      → get_elem? s.offers i ≡ o
      → IsSent s
      → IsSent (retry h same o i s)
  unfolding retry
  retry-IsSent none i s e k = k
  retry-IsSent (some sub) i s e k =
      send-IsSent sub true (record s { offers = remove_at i s.offers })
        (left-IsSent s _ refl k k.flying (All-remove_at _ i s.offers k.on_offer))
        (inl (All-get_elem (λ o. Has o.entry s.posts) i s.offers sub e k.on_offer))

  send_returned-IsSent :
      (o : Option Flight) (i : ℕ) (s : Screen) → IsSent s → IsSent (send_returned h same o i s)
  unfolding send_returned
  send_returned-IsSent none i s k = k
  send_returned-IsSent (some f) i s k =
      left-IsSent s _ refl k (All-remove_at _ i s.flights k.flying) k.on_offer

  send_failed-IsSent :
      (o : Option Flight) (i : ℕ) (retryable : Bool) (s : Screen)
      → get_elem? s.flights i ≡ o
      → IsSent s
      → IsSent (send_failed h same o i retryable s)
  unfolding send_failed
  send_failed-IsSent none i retryable s e k = k
  send_failed-IsSent (some f) i true s e k =
      left-IsSent s _ refl k (All-remove_at _ i s.flights k.flying) (
        All-append _ s.offers (f.submission ∷ []) k.on_offer
          (All-get_elem (λ f. Has f.submission.entry s.posts) i s.flights f e k.flying, tt))
  send_failed-IsSent (some f) i false s e k =
      left-IsSent s _ refl k (All-remove_at _ i s.flights k.flying) k.on_offer

  step-IsSent : (e : CaptureEvent) (s : Screen) → IsSent s → FreshAt e s → IsSent (step h same e s)
  unfolding step
  step-IsSent (edited form) s k fresh = left-IsSent s _ refl k k.flying k.on_offer
  step-IsSent (added key date) s k fresh = submit-IsSent key date s k fresh
  step-IsSent (retried i) s k fresh = retry-IsSent (get_elem? s.offers i) i s refl k
  step-IsSent (dismissed i) s k fresh =
      left-IsSent s _ refl k k.flying (All-remove_at _ i s.offers k.on_offer)
  step-IsSent (sent i) s k fresh = send_returned-IsSent (get_elem? s.flights i) i s k
  step-IsSent (failed i retryable) s k fresh =
      send_failed-IsSent (get_elem? s.flights i) i retryable s refl k

  run-IsSent :
      (es : List CaptureEvent) (s : Screen) → IsSent s → IsFresh es s → IsSent (run h same es s)
  unfolding run IsFresh
  run-IsSent [] s k fresh = k
  run-IsSent (e ∷ es) s k (fresh, rest) =
      run-IsSent es (step h same e s) (step-IsSent e s k fresh) rest

  -- Where the key of every new entry is new, no history of the screen, with any edits, failures and
  -- retries, sends two different entries under one key.
  pub run-one_entry :
      (es : List CaptureEvent) (form : Form) (p q : Entry)
      → IsFresh es (opened form)
      → Has p (run h same es (opened form)).posts
      → Has q (run h same es (opened form)).posts
      → p.client_key ≡ q.client_key
      → p ≡ q
  run-one_entry es form p q fresh hp hq key =
      elim ((run-IsSent es (opened form) start fresh).agree p q hp hq) [
        | inl same_entry ↦ same_entry
        | inr different ↦ absurd (different key)
      ]
    where
      start : IsSent (opened form)
      start = record { agree = λ p q hp hq. absurd hp; flying = tt; on_offer = tt }
