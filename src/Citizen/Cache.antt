-- ===== src/Citizen/Cache.antt =====
-- modules/citizen/citizen.service.ts: what the cache of `lookupCitizen` may answer, over every
-- sequence of lookups.
use gracon_user_auth_service.Common.{
  ℕ, ◌+◌, ◌≤◌, ◌≡◌, refl, sym, ap, subst, ◌∙◌, inl, inr, arith, some, [], String, Bool-cases,
  Option-cases,
}
use gracon_user_auth_service.Platform.{ok}
use gracon_user_auth_service.Citizen.{
  CitizenData, Registry, CitizenState, request_timeout_ms, cache_ttl_ms, is_document_number,
  fetched, call_duration, call_citizen_api, build_cache_key, lookup_missed, lookup_citizen,
}
use gracon_user_auth_service.Platform.Laws.{Result-cases}

module _ (registry : Registry) where
  open registry use {cache_manager}
  open cache_manager use {get, set}

  abbrev pub key : String → String
  key = build_cache_key registry

  -- Time passes, or a number is looked up.
  pub data Step (s s' : CitizenState registry) : Type 0 where
    wait : (n : ℕ) → s' ≡ record s { clock = s.clock + n } → Step s s'
    look_up : (number : String) → s' ≡ (lookup_citizen registry number s).1 → Step s s'

  pub data Reach (s : CitizenState registry) : CitizenState registry → Type 0 where
    here : Reach s s
    next : {t u : CitizenState registry} → Reach s t → Step t u → Reach s u

  -- The registry gave these data for a number with this key, in answer to a call that was sent at
  -- most five minutes and ten seconds before.
  pub record IsFresh (key_of : String) (now : ℕ) (citizen : CitizenData) : Type 0 where
    pub number : String
    pub sent : ℕ
    pub same : build_cache_key registry number ≡ key_of
    pub answered : fetched registry number sent ≡ ok citizen
    pub before : sent ≤ now
    pub recent : now ≤ sent + (cache_ttl_ms + request_timeout_ms)

  -- All that the cache holds from now on is fresh.
  pub IsFreshCache : CitizenState registry → Type 0
  IsFreshCache s =
      (key_of : String) (t : ℕ) (citizen : CitizenData)
      → s.clock ≤ t
      → get key_of t s.cache ≡ some citizen
      → IsFresh key_of t citizen

  call_duration-le :
      (number : String) (sent : ℕ) → call_duration registry number sent ≤ request_timeout_ms
  unfolding call_duration
  call_duration-le number sent = ground arith

  IsFresh-stored :
      (number : String) (sent took : ℕ) (citizen x : CitizenData) (k : String) (t : ℕ)
      → fetched registry number sent ≡ ok citizen
      → took ≤ request_timeout_ms
      → sent + took ≤ t
      → k ≡ build_cache_key registry number
      → x ≡ citizen
      → t ≤ sent + took + cache_ttl_ms
      → IsFresh k t x
  IsFresh-stored number sent took citizen x k t got short after same_key same_value kept = record {
    number = number;
    sent = sent;
    same = sym same_key;
    answered = got ∙ ap ok (sym same_value);
    before = omega arith;
    recent = omega arith;
  }

  lookup_missed-IsFreshCache :
      (number : String) (s : CitizenState registry)
      → IsFreshCache s
      → IsFreshCache (lookup_missed registry number s).1
  unfolding lookup_missed call_citizen_api IsFreshCache
  lookup_missed-IsFreshCache number s fresh k t x after found =
      let took = call_duration registry number s.clock in
      let short = call_duration-le number s.clock in
      elim (Result-cases (fetched registry number s.clock)) [
        | inr (e, got) ↦ fresh k t x (ground arith) (ground arith)
        | inl (citizen, got) ↦
            let later : s.clock + took ≤ t = ground arith in
            let stored : get k t (set (key number) citizen cache_ttl_ms (s.clock + took) s.cache)
                ≡ some x =
              ground arith in
            elim (cache_manager.get_set k (key number) x citizen cache_ttl_ms (s.clock + took) t
              s.cache stored) [
                | inl (same_key, (same_value, kept)) ↦
                    IsFresh-stored number s.clock took citizen x k t got short later same_key
                      same_value kept
                | inr old ↦ fresh k t x (omega arith) old
              ]
      ]

  lookup_citizen-IsFreshCache :
      (number : String) (s : CitizenState registry)
      → IsFreshCache s
      → IsFreshCache (lookup_citizen registry number s).1
  unfolding lookup_citizen
  lookup_citizen-IsFreshCache number s fresh = elim (Bool-cases (is_document_number number)) [
    | inr invalid ↦ rw invalid fresh
    | inl valid ↦ elim (Option-cases (get (key number) s.clock s.cache)) [
      | inr (citizen, hit) ↦ rw (valid, hit) fresh
      | inl missed ↦ rw (valid, missed) (lookup_missed-IsFreshCache number s fresh)
    ]
  ]

  Step-IsFreshCache : {s s' : CitizenState registry} → Step s s' → IsFreshCache s → IsFreshCache s'
  unfolding IsFreshCache
  Step-IsFreshCache {s} (wait n e) fresh =
      subst IsFreshCache (sym e) (λ k t x after found. fresh k t x (omega arith) found)
  Step-IsFreshCache {s} (look_up number e) fresh =
      subst IsFreshCache (sym e) (lookup_citizen-IsFreshCache number s fresh)

  Reach-IsFreshCache :
      {s s' : CitizenState registry} → Reach s s' → IsFreshCache s → IsFreshCache s'
  Reach-IsFreshCache here fresh = fresh
  Reach-IsFreshCache (next r step) fresh = Step-IsFreshCache step (Reach-IsFreshCache r fresh)

  -- The service when it starts.
  abbrev pub started : ℕ → CitizenState registry
  started clock = record { clock = clock; cache = cache_manager.empty; requests = [] }

  started-IsFreshCache : (clock : ℕ) → IsFreshCache (started clock)
  unfolding IsFreshCache
  started-IsFreshCache clock k t x after found =
      absurd (ground (arith, cache_manager.get_empty k t))

  pub lookup_missed-answer :
      (number : String) (s : CitizenState registry) (citizen : CitizenData)
      (s' : CitizenState registry)
      → lookup_missed registry number s ≡ (ok citizen, s')
      → (fetched registry number s.clock ≡ ok citizen)
        × (s'.clock ≡ s.clock + call_duration registry number s.clock)
        × (s'.cache ≡ set (key number) citizen cache_ttl_ms s'.clock s.cache)
  unfolding lookup_missed call_citizen_api
  lookup_missed-answer number s c s' h = elim (Result-cases (fetched registry number s.clock)) [
    | inr (e, got) ↦ ground arith
    | inl (citizen, got) ↦ (ground arith, ground arith, ground arith)
  ]

  -- What a lookup answers, at any point of a history that starts with an empty cache, the registry
  -- gave for a number with the same key, in answer to a call sent at most five minutes and ten seconds
  -- before.
  pub lookup_citizen-IsFresh :
      (began : ℕ) {s s' : CitizenState registry} (number : String) {citizen : CitizenData}
      → Reach (started began) s
      → lookup_citizen registry number s ≡ (ok citizen, s')
      → IsFresh (key number) s'.clock citizen
  unfolding lookup_citizen IsFreshCache
  lookup_citizen-IsFresh began {s} {s'} number {citizen} r h =
      let fresh = Reach-IsFreshCache r (started-IsFreshCache began) in
      elim (Bool-cases (is_document_number number)) [
        | inr invalid ↦ ground arith
        | inl valid ↦ elim (Option-cases (get (key number) s.clock s.cache)) [
          | inr (held, hit) ↦
              let same : s ≡ s' = ground arith in
              subst (λ (z : CitizenState registry). IsFresh (key number) z.clock citizen) same
                (fresh (key number) s.clock citizen (omega arith) (ground arith))
          | inl missed ↦
              let (got, clock_at, stored) =
                lookup_missed-answer number s citizen s' (ground arith) in
              let short = call_duration-le number s.clock in
              IsFresh-stored number s.clock (call_duration registry number s.clock) citizen citizen
                (key number) s'.clock got short (omega arith) refl refl (omega arith)
        ]
      ]
