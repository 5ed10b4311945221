-- ===== src/Idempotency/Replay.antt =====
-- One execution per key: what the requests that follow an accepted one are answered, by
-- backend/src/middleware/idempotency.js.
use stellar_edu_pay.Common.{
  ℕ, ◌+◌, ◌<◌, Bool, leb, true, false, ◌≡◌, ◌≢◌, refl, ap, ◌∙◌, List, [], ◌∷◌, Option, none, some,
  arith, ◌==◌, if◌then◌else◌, Bool-cases, inl, inr, ◌⊎◌, All,
}
use stellar_edu_pay.Idempotency.Collection.{Collection}
use stellar_edu_pay.Idempotency.Store.{
  completion, created_or, completed, Body, Doc, Settings, is_stale, is_outdated, complete, expire,
}
use stellar_edu_pay.Idempotency.Middleware.{
  Converter, Options, Answer, replay, idempotency_key_reuse, refresh_volatile_fields,
  resolve_existing, Request, at_lookup, Ending, finished, handle, is_cached, settle, on_events,
}
use stellar_edu_pay.Idempotency.Answers.{handle-current, handle-find}

same_key : (k : Option ℕ) (key : ℕ) → (k ≡ some key) ⊎ (k ≢ some key)
same_key none key = inr (λ e. ground arith)
same_key (some j) key = elim (Bool-cases (j == key)) [
  | inl e ↦ inl (ground arith)
  | inr e ↦ inr (λ f. ground arith)
]

-- What happens to the store behind a response: a request, or a pass of the TTL monitor over the
-- record of a key.
pub data Turn : Type 0 where
  asked : Request → Turn
  expired : ℕ → ℕ → Turn

module _ (m : Collection Doc) (c : Settings) (convert : Converter) (o : Options) where
  -- Every request of a sequence and its answer are in a relation.
  abbrev pub AllAnswered : (Request → Answer → Type 0) → List Request → m.Docs → Type 0
  AllAnswered P [] s = Unit
  AllAnswered P (q ∷ qs) s =
      P q (handle m c convert o q s).0 × AllAnswered P qs (handle m c convert o q s).1

  -- The store does not throw at the first lookup of a request, and the document is not stale then.
  abbrev Meets : Doc → Request → Type 0
  Meets d q = (q.fault ≢ at_lookup) × (is_stale c q.now d ≡ false)

  held_answers :
      (target : ℕ → Answer) (key : ℕ) (d : Doc) (qs : List Request) (s : m.Docs)
      → m.find key s ≡ some d
      → is_outdated c.version d.schema_version ≡ false
      → All (Meets d) qs
      → ((fp : ℕ) → resolve_existing convert fp (some d) ≡ target fp)
      → AllAnswered (λ r a. r.key ≡ some key → a ≡ target r.fingerprint) qs s
  held_answers target key d [] s found current h k = tt
  held_answers target key d (q ∷ qs) s found current h k = (
    λ its.
        ap (λ r. r.0) (handle-current m c convert o q key d s its h.0.0 found current h.0.1)
        ∙ k q.fingerprint,
    held_answers target key d qs _ kept current h.1 k,
  )
    where
      kept : m.find key (handle m c convert o q s).1 ≡ some d
      kept = elim (same_key q.key key) [
        | inl its ↦ rw (handle-current m c convert o q key d s its h.0.0 found current h.0.1) found
        | inr other ↦ handle-find m c convert o q key s other ∙ found
      ]

  on_events-settled :
      (key scope fp status : ℕ) (body : Option Body) (now : ℕ) (succeeds : Bool) (es : List Ending)
      (s : m.Docs)
      → on_events m c convert o key scope fp status body now succeeds true es s ≡ s
  unfolding on_events
  on_events-settled key scope fp status body now succeeds [] s = refl
  on_events-settled key scope fp status body now succeeds (e ∷ es) s =
      on_events-settled key scope fp status body now succeeds es s

  -- Of the events that end a response only the first one acts.
  pub on_events-first :
      (key scope fp status : ℕ) (body : Option Body) (now : ℕ) (succeeds : Bool) (e : Ending)
      (es : List Ending) (s : m.Docs)
      → on_events m c convert o key scope fp status body now succeeds false (e ∷ es) s
        ≡ settle m c convert o key scope fp status body now succeeds e s
  unfolding on_events
  on_events-first key scope fp status body now succeeds e es s =
      on_events-settled key scope fp status body now succeeds es _

  abbrev pub AllReplied : (Request → Answer → Type 0) → List Turn → m.Docs → Type 0
  AllReplied P [] s = Unit
  AllReplied P (asked q ∷ ts) s =
      P q (handle m c convert o q s).0 × AllReplied P ts (handle m c convert o q s).1
  AllReplied P (expired key now ∷ ts) s = AllReplied P ts (expire m c key now s)

  -- The store does not throw at the first lookup of a request, and the monitor's passes over the
  -- record of the key come before a time.
  abbrev pub InTime : ℕ → ℕ → Turn → Type 0
  InTime key end (asked q) = q.fault ≢ at_lookup
  InTime key end (expired k now) = k ≡ key → now < end

  expire-find :
      (key k now : ℕ) (d : Doc) (s : m.Docs)
      → m.find key s ≡ some d
      → (k ≡ key → now < d.created_at + c.record_ttl_ms)
      → m.find key (expire m c k now s) ≡ some d
  unfolding expire
  expire-find key k now d s found early = elim (Bool-cases (k == key)) [
    | inl own ↦
        let equal : k ≡ key = ground (arith, own) in
        let kept : leb (d.created_at + c.record_ttl_ms) now ≡ false = ground (arith, early equal) in
        let at_k : m.find k s ≡ some d = ap (λ (j : ℕ). m.find j s) equal ∙ found in
        m.find-delete k key (λ d. leb (d.created_at + c.record_ttl_ms) now) s
        ∙ rw (own, at_k, kept) refl
    | inr other ↦
        m.find-delete k key (λ d. leb (d.created_at + c.record_ttl_ms) now) s ∙ rw other found
  ]

  held_replies :
      (target : ℕ → Answer) (key : ℕ) (d : Doc) (ts : List Turn) (s : m.Docs)
      → m.find key s ≡ some d
      → is_outdated c.version d.schema_version ≡ false
      → ((now : ℕ) → is_stale c now d ≡ false)
      → All (InTime key (d.created_at + c.record_ttl_ms)) ts
      → ((fp : ℕ) → resolve_existing convert fp (some d) ≡ target fp)
      → AllReplied (λ r a. r.key ≡ some key → a ≡ target r.fingerprint) ts s
  held_replies target key d [] s found current fresh h k = tt
  held_replies target key d (expired j now ∷ ts) s found current fresh h k =
      held_replies target key d ts _ (expire-find key j now d s found h.0) current fresh h.1 k
  held_replies target key d (asked q ∷ ts) s found current fresh h k =
      let (one, _) =
        held_answers target key d (q ∷ []) s found current ((h.0, fresh q.now), tt) k in
      (one, held_replies target key d ts _ kept current fresh h.1 k)
    where
      kept : m.find key (handle m c convert o q s).1 ≡ some d
      kept = elim (same_key q.key key) [
        | inl its ↦
            rw (handle-current m c convert o q key d s its h.0 found current (fresh q.now)) found
        | inr other ↦ handle-find m c convert o q key s other ∙ found
      ]

  abbrev pub replayed : ℕ → ℕ → Option Body → ℕ → Answer
  replayed fp status body fp' =
      if fp == fp'
      then replay (some status) (refresh_volatile_fields convert body)
      else idempotency_key_reuse

  abbrev stored : ℕ → ℕ → ℕ → Option Body → ℕ → Doc
  stored scope fp status body at = record {
    scope = scope;
    state = completed;
    request_fingerprint = some fp;
    response_status = some status;
    response_body = body;
    schema_version = some c.version;
    created_at = at;
  }

  settle-stored :
      (key scope fp status : ℕ) (body : Option Body) (now : ℕ) (s : m.Docs)
      → is_cached status ≡ true
      → m.find key (settle m c convert o key scope fp status body now true finished s)
        ≡ some (stored scope fp status body (created_or now (m.find key s)))
  unfolding settle complete
  settle-stored key scope fp status body now s cached =
      rw cached
        (ground (arith, m.find-upsert key key (completion c scope status body (some fp) now) s))

  resolve-stored :
      (scope fp status : ℕ) (body : Option Body) (at fp' : ℕ)
      → resolve_existing convert fp' (some (stored scope fp status body at))
        ≡ replayed fp status body fp'
  unfolding resolve_existing
  resolve-stored scope fp status body at fp' = ground arith

  -- Once a response below 500 that is not a 404 has been flushed and the write of its record has
  -- succeeded, every later request with the same key is answered the stored status and body, with
  -- a fresh currency rate, if its own body has the same fingerprint, and is refused as a reuse of
  -- the key if not; none runs the handler. The store throws at none of their first lookups, and
  -- MongoDB's TTL monitor passes over the record only before the record's time to live, from the
  -- reservation's creation, is over.
  pub replay_exact :
      (key scope fp status : ℕ) (body : Option Body) (now : ℕ) (es : List Ending) (ts : List Turn)
      (s : m.Docs)
      → is_cached status ≡ true
      → All (InTime key (created_or now (m.find key s) + c.record_ttl_ms)) ts
      → AllReplied
          (λ r a. r.key ≡ some key → a ≡ replayed fp status body r.fingerprint)
          ts
          (on_events m c convert o key scope fp status body now true false (finished ∷ es) s)
  replay_exact key scope fp status body now es ts s cached h =
      let at = created_or now (m.find key s) in
      rw (on_events-first key scope fp status body now true finished es s) (
        held_replies (replayed fp status body) key (stored scope fp status body at) ts _
          (settle-stored key scope fp status body now s cached) (ground arith) (λ n. refl) h
          (resolve-stored scope fp status body at))
