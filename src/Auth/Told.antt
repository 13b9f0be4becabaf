-- ===== src/Auth/Told.antt =====
-- web/src/hooks/useAuth.tsx and web/src/components/ProtectedRoute.tsx: every user on the screen that is
-- not unverified was named by the server.
use spen_drop.Base.{
  ℕ, Bool, true, false, Option, none, some, List, [], ◌∷◌, All, All-imp, ◌≡◌, refl, ◌⊎◌, inl, inr,
  arith,
}
use spen_drop.LastUser.Remembered.{User}
use spen_drop.Auth.Session.{Provider, is_some}
use spen_drop.Auth.Events.{Event, run, content, route}
use spen_drop.Auth.Trust.{names, Standing, Vouched, Trusted, run-Trusted}

Standing-verified :
    (K : User ℕ → Type 0) (o : Option (User ℕ)) (b : Bool)
    → Standing K o b
    → (is_some o ≡ true)
    → b ≡ false
    → (user : User ℕ) × (o ≡ some user) × (b ≡ false) × K user
Standing-verified K none b h some_user verified = cc some_user
Standing-verified K (some user) true h some_user verified = cc verified
Standing-verified K (some user) false h some_user verified = (user, refl, refl, h)

module _ {ℓ} {P : Type ℓ} where
  -- Some event of the history is an answer in which the server names the user.
  abbrev pub IsTold : List (Event P) → User ℕ → Type 0
  IsTold [] user = ⊥
  IsTold (e ∷ es) user = (names e ≡ some user) ⊎ IsTold es user

  Vouched-IsTold :
      (es : List (Event P)) (o : Option (User ℕ)) (e : Event P)
      → names e ≡ o
      → Vouched (IsTold (e ∷ es)) o
  Vouched-IsTold es none e h = tt
  Vouched-IsTold es (some user) e h = inl h

  Vouched-later :
      (es : List (Event P)) (e : Event P) (o : Option (User ℕ))
      → Vouched (IsTold es) o
      → Vouched (IsTold (e ∷ es)) o
  Vouched-later es e none h = tt
  Vouched-later es e (some user) h = inr h

  all-IsTold : (es : List (Event P)) → All (λ e. Vouched (IsTold es) (names e)) es
  all-IsTold [] = tt
  all-IsTold (e ∷ es) = (
    Vouched-IsTold es (names e) e refl,
    All-imp (λ e'. Vouched (IsTold es) (names e')) (λ e'. Vouched (IsTold (e ∷ es)) (names e'))
        (λ e'. Vouched-later es e (names e')) es (all-IsTold es),
  )

  start-Trusted :
      (K : User ℕ → Type 0) (s : Provider P) → s.user ≡ none → s.unverified ≡ false → Trusted K s
  start-Trusted K s nobody verified = rw (nobody, verified) tt

  -- After any events, from a provider without a user, an unverified user is a plain member with an id
  -- that can be one, any other user is one that the server named in an answer of that history, and
  -- where there is no user nothing is unverified.
  pub run-Standing :
      (es : List (Event P)) (s : Provider P)
      → s.user ≡ none
      → s.unverified ≡ false
      → Standing (IsTold es) (run es s).user (run es s).unverified
  run-Standing es s nobody verified =
      run-Trusted (IsTold es) es s (all-IsTold es) (start-Trusted (IsTold es) s nobody verified)

  shown-IsTold :
      (K : User ℕ → Type 0) (s : Provider P)
      → Trusted K s
      → route false s ≡ content
      → (user : User ℕ) × (s.user ≡ some user) × (s.unverified ≡ false) × K user
  unfolding route
  shown-IsTold K s h shown = Standing-verified K s.user s.unverified h (ground arith) (ground arith)

  -- From a provider without a user, a page that is not open to unverified users is shown only to a
  -- user that the server named in an answer of that history, and who is not unverified.
  pub run-route-IsTold :
      (es : List (Event P)) (s : Provider P)
      → s.user ≡ none
      → s.unverified ≡ false
      → route false (run es s) ≡ content
      → (user : User ℕ) × ((run es s).user ≡ some user)
        × ((run es s).unverified ≡ false)
        × IsTold es user
  run-route-IsTold es s nobody verified shown =
      shown-IsTold (IsTold es) (run es s) (run-Standing es s nobody verified) shown
