-- ===== src/PushedRequests/Stores.antt =====
-- services/pushedAuthorizationRequestStore.ts: the two stores, and the use of a request.
use mathlib.Core.Path.{subst}
use orbi_pay_gateway_v.Prelude.{
  ℕ, ◌≡◌, refl, sym, ap, ◌∙◌, inl, inr, Bool, true, String, none, some, List, [], ◌∷◌,
  if◌then◌else◌, Result, ok, err, find, Option-cases, Bool-cases, eq-cases,
}
use orbi_pay_gateway_v.Prelude.Dict
use orbi_pay_gateway_v.Prelude.Dict.{Dict, get-set_self, get-set_other, get-set_cases}
use orbi_pay_gateway_v.Sql.{update_where}
use orbi_pay_gateway_v.PushedRequests.{
  PushedRequest, Entry, Row, PushInput, Error, request_uri_invalid, is_used, is_refused, row_of,
  request_of, has_hash, new_request, create_in_memory, consume_in_memory, consume_in_table,
}

-- The table that holds what the memory holds.
abbrev pub table : Dict Entry → List Row
table [] = []
table ((h, e) ∷ m) = row_of h e ∷ table m

-- No key stands twice.
abbrev pub IsDistinct : Dict Entry → Type 0
IsDistinct [] = Unit
IsDistinct ((h, e) ∷ m) = (Dict.get h m ≡ none) × IsDistinct m

-- The answer, with the address that was asked for.
abbrev pub asked : String → Result Error PushedRequest → Result Error PushedRequest
asked request_uri (err e) = err e
asked request_uri (ok r) = ok (record r { request_uri = request_uri })

abbrev spend : ℕ → Entry → Entry
spend now e = record e { consumed_at = some now }

abbrev spend_row : ℕ → Row → Row
spend_row now r = record r { consumed_at = some now }

find-table :
    (h : String) (s : Dict Entry)
    → find (has_hash h) (table s)
      ≡ (elim (Dict.get h s) [ none ↦ none | some e ↦ some (row_of h e) ])
unfolding find Dict.get
find-table h [] = refl
find-table h ((k, e) ∷ s) = elim (eq-cases k h) [
  | inl (p, q) ↦ rw (q) (ap (λ z. some (row_of z e)) p)
  | inr (_, q) ↦ rw (q) (find-table h s)
]

update-absent :
    (now : ℕ) (h : String) (s : Dict Entry)
    → Dict.get h s ≡ none
    → update_where (has_hash h) (spend_row now) (table s) ≡ table s
unfolding update_where Dict.get
update-absent now h [] e = refl
update-absent now h ((k, x) ∷ s) e = elim (eq-cases k h) [
  | inl (p, q) ↦ absurd (cc (rw (q) at e))
  | inr (_, q) ↦ rw (q) (ap (λ z. row_of k x ∷ z) (update-absent now h s (rw (q) at e)))
]

some-eq : {A : Type 0} {a b : A} → some a ≡ some b → a ≡ b
some-eq h = cc

set-update :
    (now : ℕ) (h : String) (s : Dict Entry) {e : Entry}
    → IsDistinct s
    → Dict.get h s ≡ some e
    → table (Dict.set h (spend now e) s) ≡ update_where (has_hash h) (spend_row now) (table s)
unfolding update_where Dict.get Dict.set
set-update now h [] d f = absurd (cc)
set-update now h ((k, x) ∷ s) {e} (free, d) f = elim (eq-cases k h) [
  | inl (p, q) ↦
      let same : x ≡ e = some-eq (rw (q) at f) in
      rw (q) (
        ap (λ z. row_of k (spend now z) ∷ table s) (sym same)
        ∙ ap (λ z. row_of k (spend now x) ∷ z)
            (sym (update-absent now h s (ap (λ z. Dict.get z s) (sym p) ∙ free))))
  | inr (_, q) ↦ rw (q) (ap (λ z. row_of k x ∷ z) (set-update now h s d (rw (q) at f)))
]

module _ (hash : String → String) where
  abbrev refused : ℕ → String → Entry → Bool
  refused now service_code e =
      is_refused now service_code e.consumed_at e.request.service_code e.request.expires_at

  memory-missing :
      (now : ℕ) (request_uri service_code : String) (s : Dict Entry)
      → Dict.get (hash request_uri) s ≡ none
      → consume_in_memory hash now request_uri service_code s ≡ (s, err request_uri_invalid)
  unfolding consume_in_memory
  memory-missing now request_uri service_code s e = rw (e, consume_in_memory)

  memory-found :
      (now : ℕ) (request_uri service_code : String) (s : Dict Entry) {e : Entry}
      → Dict.get (hash request_uri) s ≡ some e
      → consume_in_memory hash now request_uri service_code s ≡ (
          if refused now service_code e
          then (s, err request_uri_invalid)
          else (Dict.set (hash request_uri) (spend now e) s, ok e.request))
  unfolding consume_in_memory
  memory-found now request_uri service_code s e = rw (e, consume_in_memory)

  table-missing :
      (now : ℕ) (request_uri service_code : String) (rows : List Row)
      → find (has_hash (hash request_uri)) rows ≡ none
      → consume_in_table hash now request_uri service_code rows ≡ (rows, err request_uri_invalid)
  unfolding consume_in_table
  table-missing now request_uri service_code rows e = rw (e, consume_in_table)

  table-found :
      (now : ℕ) (request_uri service_code : String) (rows : List Row) {r : Row}
      → find (has_hash (hash request_uri)) rows ≡ some r
      → consume_in_table hash now request_uri service_code rows ≡ (
          if is_refused now service_code r.consumed_at r.service_code r.expires_at
          then (rows, err request_uri_invalid)
          else (
            update_where (has_hash (hash request_uri)) (spend_row now) rows,
            ok (request_of request_uri r),
          ))
  unfolding consume_in_table
  table-found now request_uri service_code rows e = rw (e, consume_in_table)

  -- On a store without double keys, consuming a request in the table does what consuming it in memory
  -- does, errors included: the tables agree afterwards, and so do the answers but for the address of
  -- the request, for which the table gives the one that was asked for.
  pub consume_in_table-consume_in_memory :
      (now : ℕ) (request_uri service_code : String) (s : Dict Entry)
      → IsDistinct s
      → consume_in_table hash now request_uri service_code (table s) ≡ (
        table (consume_in_memory hash now request_uri service_code s).0,
        asked request_uri (consume_in_memory hash now request_uri service_code s).1,
      )
  consume_in_table-consume_in_memory now request_uri service_code s d =
      let search = find-table (hash request_uri) s in
      elim (Option-cases (Dict.get (hash request_uri) s)) [
        | inl missing ↦
            table-missing now request_uri service_code (table s) (rw (missing) at search)
            ∙ ap (λ p. (table p.0, asked request_uri p.1))
                (sym (memory-missing now request_uri service_code s missing))
        | inr (e, found) ↦ elim (Bool-cases (refused now service_code e)) [
          | inl h ↦ rw (
            table-found now request_uri service_code (table s) (rw (found) at search),
            h,
            memory-found now request_uri service_code s found,
            h,
          )
          | inr h ↦
              rw
                (
                  table-found now request_uri service_code (table s) (rw (found) at search),
                  h,
                  memory-found now request_uri service_code s found,
                  h,
                )
                (ap (λ z. (z, ok (request_of request_uri (row_of (hash request_uri) e))))
                  (sym (set-update now (hash request_uri) s d found)))
        ]
      ]

  -- One call that changes the memory; the random bytes of a new request are new.
  pub data Step (s : Dict Entry) : Dict Entry → Type 0 where
    creates :
        (now : ℕ) (random : String) (input : PushInput) (ttl_seconds : ℕ)
        → Dict.get (hash (new_request now random input ttl_seconds).request_uri) s ≡ none
        → Step s (create_in_memory hash now random input ttl_seconds s).0
    consumes :
        (now : ℕ) (request_uri service_code : String)
        → Step s (consume_in_memory hash now request_uri service_code s).0

  pub data Reach (s : Dict Entry) : Dict Entry → Type 0 where
    here : Reach s s
    next : {t u : Dict Entry} → Reach s t → Step t u → Reach s u

  -- The entry under a key is used.
  abbrev Used : String → Dict Entry → Type 0
  Used h s = (e : Entry) × (Dict.get h s ≡ some e) × (is_used e.consumed_at ≡ true)

  set-Used :
      (now : ℕ) (h k : String) (e : Entry) (s : Dict Entry)
      → Used h s
      → Used h (Dict.set k (spend now e) s)
  set-Used now h k e s (x, found, used) = elim (eq-cases k h) [
    | inl (p, _) ↦ (
      spend now e,
      subst (λ z. Dict.get z (Dict.set k (spend now e) s) ≡ some (spend now e)) p
          (get-set_self k (spend now e) s),
      refl,
    )
    | inr (p, _) ↦ (x, get-set_other k h (spend now e) s p ∙ found, used)
  ]

  consume-Used :
      (now : ℕ) (request_uri service_code h : String) (s : Dict Entry)
      → Used h s
      → Used h (consume_in_memory hash now request_uri service_code s).0
  consume-Used now request_uri service_code h s used =
      elim (Option-cases (Dict.get (hash request_uri) s)) [
        | inl missing ↦ rw (memory-missing now request_uri service_code s missing) used
        | inr (e, found) ↦ elim (Bool-cases (refused now service_code e)) [
          | inl bad ↦ rw (memory-found now request_uri service_code s found, bad) used
          | inr good ↦
              rw (memory-found now request_uri service_code s found, good)
                (set-Used now h (hash request_uri) e s used)
        ]
      ]

  create-Used :
      (now : ℕ) (random : String) (input : PushInput) (ttl_seconds : ℕ) (h : String)
      (s : Dict Entry)
      → Dict.get (hash (new_request now random input ttl_seconds).request_uri) s ≡ none
      → Used h s
      → Used h (create_in_memory hash now random input ttl_seconds s).0
  unfolding create_in_memory
  create-Used now random input ttl_seconds h s free (x, found, used) = (
    x,
    get-set_other (hash (new_request now random input ttl_seconds).request_uri) h
          (record { request = new_request now random input ttl_seconds; consumed_at = none }) s
          (λ p. absurd (cc (ap (λ z. Dict.get z s) p)))
        ∙ found,
    used,
  )

  Reach-Used : {s t : Dict Entry} (h : String) → Reach s t → Used h s → Used h t
  Reach-Used h here used = used
  Reach-Used h (next {t} reach (creates now random input ttl_seconds free)) used =
      create-Used now random input ttl_seconds h t free (Reach-Used h reach used)
  Reach-Used h (next {t} reach (consumes now request_uri service_code)) used =
      consume-Used now request_uri service_code h t (Reach-Used h reach used)

  Used-refused :
      (now : ℕ) (request_uri service_code : String) (s : Dict Entry)
      → Used (hash request_uri) s
      → consume_in_memory hash now request_uri service_code s ≡ (s, err request_uri_invalid)
  Used-refused now request_uri service_code s (e, found, used) =
      rw (memory-found now request_uri service_code s found, used)

  -- After a request was consumed from memory, no call at any later time consumes it again, whatever
  -- requests are pushed, at addresses whose hashes are not in use, and consumed between.
  pub consume_in_memory_once :
      (now later : ℕ) (request_uri service_code service_code' : String) (s t u : Dict Entry)
      (r : PushedRequest)
      → consume_in_memory hash now request_uri service_code s ≡ (t, ok r)
      → Reach t u
      → consume_in_memory hash later request_uri service_code' u ≡ (u, err request_uri_invalid)
  consume_in_memory_once now later request_uri service_code service_code' s t u r e reach =
      Used-refused later request_uri service_code' u (Reach-Used (hash request_uri) reach first)
    where
      first : Used (hash request_uri) t
      first = elim (Option-cases (Dict.get (hash request_uri) s)) [
        | inl missing ↦
            absurd (cc (sym (memory-missing now request_uri service_code s missing) ∙ e))
        | inr (x, found) ↦ elim (Bool-cases (refused now service_code x)) [
          | inl bad ↦ absurd (cc (rw (memory-found now request_uri service_code s found, bad) at e))
          | inr good ↦ (
            spend now x,
            subst (λ z. Dict.get (hash request_uri) z ≡ some (spend now x))
                (ap (λ p. p.0) (rw (memory-found now request_uri service_code s found, good) at e))
                (get-set_self (hash request_uri) (spend now x) s),
            refl,
          )
        ]
      ]
