-- ===== src/RequestGuard/Cache.antt =====
-- `pruneExpired` of security/financialRequestGuard.ts, on both caches.
use orbi_pay_gateway_v.Prelude.{
  ℕ, ◌≤◌, ◌<◌, ◌≡◌, refl, false, String, none, some, [], ◌∷◌, if◌then◌else◌, ltb, leb, length,
  arith, eq_iff,
}
use orbi_pay_gateway_v.Prelude.Dict
use orbi_pay_gateway_v.Prelude.Dict.{Dict}
use orbi_pay_gateway_v.Prelude.Text.{is_empty}

module _ {ℓ} {V : Type ℓ} (expiry : V → ℕ) where
  -- The first loop: what has expired is deleted.
  unfoldable pub live : ℕ → Dict V → Dict V
  live now [] = []
  live now ((k, v) ∷ m) = if leb (expiry v) now then live now m else (k, v) ∷ live now m

-- The second loop: while there are too many entries the oldest is deleted; it stops at a key that is
-- the empty text.
unfoldable pub evict {ℓ} : {V : Type ℓ} → ℕ → Dict V → Dict V
evict bound [] = []
evict bound ((k, v) ∷ m) =
    let rest = evict bound m in
    if ltb bound (length ((k, v) ∷ m))
    then (if is_empty k then (k, v) ∷ m else rest)
    else (k, v) ∷ m

module _ {ℓ} {V : Type ℓ} (expiry : V → ℕ) where
  unfoldable pub prune : ℕ → ℕ → Dict V → Dict V
  unfolding evict live
  prune now bound m = evict bound (live expiry now m)

  length-live-le : (now : ℕ) (m : Dict V) → length (live expiry now m) ≤ length m
  unfolding live
  length-live-le now [] = omega arith
  length-live-le now ((k, v) ∷ m) = ground (arith, length-live-le now m)

  get-live :
      (now : ℕ) (key : String) (m : Dict V) {v : V}
      → Dict.get key m ≡ some v
      → now < expiry v
      → Dict.get key (live expiry now m) ≡ some v
  unfolding live Dict.get
  get-live now key [] e h = absurd (cc)
  get-live now key ((k, w) ∷ m) {v} e h = ground (arith, get-live now key m {v = v}, eq_iff k key)

evict_small {ℓ} : {V : Type ℓ} (bound : ℕ) (m : Dict V) → length m ≤ bound → evict bound m ≡ m
unfolding evict
evict_small bound [] h = refl
evict_small bound ((k, v) ∷ m) h = ground arith

-- Within the bound an entry that has not expired stays.
pub get-prune {ℓ} :
    {V : Type ℓ} (expiry : V → ℕ) (now bound : ℕ) (key : String) (m : Dict V) {v : V}
    → Dict.get key m ≡ some v
    → now < expiry v
    → length m ≤ bound
    → Dict.get key (prune expiry now bound m) ≡ some v
unfolding prune
get-prune expiry now bound key m e h small =
    rw (evict_small bound (live expiry now m) (omega (arith, length-live-le expiry now m)))
      (get-live expiry now key m e h)

length-evict-le {ℓ} : {V : Type ℓ} (bound : ℕ) (m : Dict V) → length (evict bound m) ≤ length m
unfolding evict
length-evict-le bound [] = omega arith
length-evict-le bound ((k, v) ∷ m) = ground (arith, length-evict-le bound m)

pub length-prune-le {ℓ} :
    {V : Type ℓ} (expiry : V → ℕ) (now bound : ℕ) (m : Dict V)
    → length (prune expiry now bound m) ≤ length m
unfolding prune
length-prune-le expiry now bound m =
    omega (arith, length-evict-le bound (live expiry now m), length-live-le expiry now m)

-- No key is the empty text.
abbrev pub HasKeys {ℓ} : {V : Type ℓ} → Dict V → Type 0
HasKeys [] = Unit
HasKeys ((k, v) ∷ m) = (is_empty k ≡ false) × HasKeys m

length-evict-le_bound {ℓ} :
    {V : Type ℓ} (bound : ℕ) (m : Dict V) → HasKeys m → length (evict bound m) ≤ bound
unfolding evict
length-evict-le_bound bound [] h = omega arith
length-evict-le_bound bound ((k, v) ∷ m) h = ground (arith, length-evict-le_bound bound m)

live-HasKeys {ℓ} :
    {V : Type ℓ} (expiry : V → ℕ) (now : ℕ) (m : Dict V) → HasKeys m → HasKeys (live expiry now m)
unfolding live
live-HasKeys expiry now [] h = tt
live-HasKeys expiry now ((k, v) ∷ m) h = ground (arith, live-HasKeys expiry now m)

evict-HasKeys {ℓ} : {V : Type ℓ} (bound : ℕ) (m : Dict V) → HasKeys m → HasKeys (evict bound m)
unfolding evict
evict-HasKeys bound [] h = tt
evict-HasKeys bound ((k, v) ∷ m) h = ground (arith, evict-HasKeys bound m)

pub set-HasKeys {ℓ} :
    {V : Type ℓ} (key : String) (v : V) (m : Dict V)
    → is_empty key ≡ false
    → HasKeys m
    → HasKeys (Dict.set key v m)
unfolding Dict.set
set-HasKeys key v [] k h = (k, tt)
set-HasKeys key v ((j, w) ∷ m) k h = ground (arith, set-HasKeys key v m)

pub prune-HasKeys {ℓ} :
    {V : Type ℓ} (expiry : V → ℕ) (now bound : ℕ) (m : Dict V)
    → HasKeys m
    → HasKeys (prune expiry now bound m) × (length (prune expiry now bound m) ≤ bound)
unfolding prune
prune-HasKeys expiry now bound m h =
    let alive = live-HasKeys expiry now m h in
    (evict-HasKeys bound _ alive, length-evict-le_bound bound _ alive)

live_absent {ℓ} :
    {V : Type ℓ} (expiry : V → ℕ) (now : ℕ) (key : String) (m : Dict V)
    → Dict.get key m ≡ none
    → Dict.get key (live expiry now m) ≡ none
unfolding live Dict.get
live_absent expiry now key [] e = refl
live_absent expiry now key ((k, v) ∷ m) e = ground (arith, live_absent expiry now key m)

evict_absent {ℓ} :
    {V : Type ℓ} (bound : ℕ) (key : String) (m : Dict V)
    → Dict.get key m ≡ none
    → Dict.get key (evict bound m) ≡ none
unfolding evict Dict.get
evict_absent bound key [] e = refl
evict_absent bound key ((k, v) ∷ m) e = ground (arith, evict_absent bound key m)

-- Pruning adds nothing.
pub prune_absent {ℓ} :
    {V : Type ℓ} (expiry : V → ℕ) (now bound : ℕ) (key : String) (m : Dict V)
    → Dict.get key m ≡ none
    → Dict.get key (prune expiry now bound m) ≡ none
unfolding prune
prune_absent expiry now bound key m e =
    evict_absent bound key (live expiry now m) (live_absent expiry now key m e)
