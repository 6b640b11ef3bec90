-- ===== src/Citizen/Hits.antt =====
-- modules/citizen/citizen.service.ts: how long the cache of `lookupCitizen` spares a call.
use gracon_user_auth_service.Common.{
  ℕ, ◌+◌, ◌≤◌, ◌<◌, ◌≡◌, ◌≢◌, sym, ap, subst, ◌∙◌, inl, inr, arith, true, none, some, String, leb,
  Bool-cases, Option-cases,
}
use gracon_user_auth_service.Platform.{ok}
use gracon_user_auth_service.Citizen.{
  CitizenData, Registry, CitizenState, cache_ttl_ms, is_document_number, fetched, call_duration,
  call_citizen_api, lookup_missed, lookup_citizen,
}
use gracon_user_auth_service.Citizen.Cache.{
  key, Step, wait, look_up, Reach, here, next, lookup_missed-answer,
}
use gracon_user_auth_service.Platform.Laws.{Result-cases}

module _ (registry : Registry) where
  open registry use {cache_manager}
  open cache_manager use {get, set}

  -- The cache holds every entry for as long as it lives.
  pub record Keeps : Type 0 where
    pub set_hit :
        (k : String) (x : CitizenData) (ttl now t : ℕ) (store : cache_manager.Store)
        → t < now + ttl
        → get k t (set k x ttl now store) ≡ some x
    pub set_other :
        (k j : String) (x v : CitizenData) (ttl now t : ℕ) (store : cache_manager.Store)
        → k ≢ j
        → get k t store ≡ some x
        → get k t (set j v ttl now store) ≡ some x

  -- An entry is found at every time before a limit.
  Holds : String → CitizenData → ℕ → CitizenState registry → Type 0
  Holds k citizen limit s = (t : ℕ) → s.clock ≤ t → t < limit → get k t s.cache ≡ some citizen

  module _ (keeps : Keeps) where
    open keeps use {set_hit, set_other}

    lookup_missed-Holds :
        (k : String) (citizen : CitizenData) (limit : ℕ) (number : String)
        (s : CitizenState registry)
        → (k ≡ key registry number → limit ≤ s.clock)
        → Holds k citizen limit s
        → Holds k citizen limit (lookup_missed registry number s).1
    unfolding lookup_missed call_citizen_api Holds
    lookup_missed-Holds k citizen limit number s past held t after before =
        elim (Result-cases (fetched registry number s.clock)) [
          | inr (e, got) ↦ ground (arith, held t)
          | inl (x, got) ↦
              let later : s.clock ≤ t = ground arith in
              let other : k ≢ key registry number = λ e. absurd (omega (arith, past e)) in
              let took = call_duration registry number s.clock in
              let kept =
                set_other k (key registry number) citizen x cache_ttl_ms (s.clock + took) t s.cache
                  other (held t later before) in
              ground arith
        ]

    missed_later :
        (k : String) (citizen : CitizenData) (limit : ℕ) (number : String)
        (s : CitizenState registry)
        → Holds k citizen limit s
        → get (key registry number) s.clock s.cache ≡ none
        → k ≡ key registry number
        → limit ≤ s.clock
    unfolding Holds
    missed_later k citizen limit number s held missed e = elim (Bool-cases (leb limit s.clock)) [
      | inl le ↦ ground arith
      | inr gt ↦
          let hit =
            subst (λ z. get z s.clock s.cache ≡ some citizen) e
              (held s.clock (omega arith) (ground arith)) in
          absurd (ground arith)
    ]

    lookup_citizen-Holds :
        (k : String) (citizen : CitizenData) (limit : ℕ) (number : String)
        (s : CitizenState registry)
        → Holds k citizen limit s
        → Holds k citizen limit (lookup_citizen registry number s).1
    unfolding lookup_citizen Holds
    lookup_citizen-Holds k citizen limit number s held =
        elim (Bool-cases (is_document_number number)) [
          | inr invalid ↦ rw invalid held
          | inl valid ↦ elim (Option-cases (get (key registry number) s.clock s.cache)) [
            | inr (x, hit) ↦ rw (valid, hit) held
            | inl missed ↦
                rw (valid, missed)
                  (lookup_missed-Holds k citizen limit number s
                    (missed_later k citizen limit number s held missed) held)
          ]
        ]

    Step-Holds :
        {s s' : CitizenState registry} (k : String) (citizen : CitizenData) (limit : ℕ)
        → Step registry s s'
        → Holds k citizen limit s
        → Holds k citizen limit s'
    unfolding Holds
    Step-Holds {s} k citizen limit (wait n e) held =
        subst (Holds k citizen limit) (sym e) (λ t after before. held t (omega arith) before)
    Step-Holds {s} k citizen limit (look_up number e) held =
        subst (Holds k citizen limit) (sym e) (lookup_citizen-Holds k citizen limit number s held)

    Reach-Holds :
        {s s' : CitizenState registry} (k : String) (citizen : CitizenData) (limit : ℕ)
        → Reach registry s s'
        → Holds k citizen limit s
        → Holds k citizen limit s'
    Reach-Holds k citizen limit here held = held
    Reach-Holds k citizen limit (next r step) held =
        Step-Holds k citizen limit step (Reach-Holds k citizen limit r held)

    lookup_citizen-stored :
        (number : String) (s s' : CitizenState registry) (citizen : CitizenData)
        → get (key registry number) s.clock s.cache ≡ none
        → lookup_citizen registry number s ≡ (ok citizen, s')
        → (is_document_number number ≡ true)
          × Holds (key registry number) citizen (s'.clock + cache_ttl_ms) s'
    unfolding lookup_citizen Holds
    lookup_citizen-stored number s s' citizen missed h =
        elim (Bool-cases (is_document_number number)) [
          | inr invalid ↦ ground arith
          | inl valid ↦
              let (got, clock_at, stored) =
                lookup_missed-answer registry number s citizen s' (ground arith) in
              (
                valid,
                λ t after before.
                    ap (λ z. get (key registry number) t z) stored
                    ∙ set_hit (key registry number) citizen cache_ttl_ms s'.clock t s.cache before,
              )
        ]

    -- If the cache keeps its entries, then for five minutes after the registry has answered, however
    -- many lookups come in between, the same number gets the same answer, and no call is made.
    pub lookup_citizen_again :
        (number : String) (s s' later : CitizenState registry) (citizen : CitizenData)
        → get (key registry number) s.clock s.cache ≡ none
        → lookup_citizen registry number s ≡ (ok citizen, s')
        → Reach registry s' later
        → later.clock < s'.clock + cache_ttl_ms
        → lookup_citizen registry number later ≡ (ok citizen, later)
    unfolding lookup_citizen Holds
    lookup_citizen_again number s s' later citizen missed h r before =
        let (valid, held) = lookup_citizen-stored number s s' citizen missed h in
        let hit : get (key registry number) later.clock later.cache ≡ some citizen =
          Reach-Holds (key registry number) citizen (s'.clock + cache_ttl_ms) r held later.clock
            (omega arith) before in
        ground arith
