-- ===== src/Citizen/Errors.antt =====
-- modules/citizen/citizen.service.ts: the errors of `lookupCitizen`, and what a lookup costs.
use gracon_user_auth_service.Common.{
  Option, ◌<◌, ◌≢◌, ℕ, ◌+◌, ◌≤◌, ◌≡◌, ◌⊎◌, true, false, none, some, [], ◌∷◌, ◌++◌, String, str_eq,
  trim,
}
use gracon_user_auth_service.Platform.{Exception, Outcome, ok, throws}
use gracon_user_auth_service.Citizen.{
  CitizenData, CitizenApiRawData, ApiAnswer, CitizenApiRawResponse, response, axios_error,
  other_error, Registry, CitizenState, Extracted, extracted, failed, request_timeout_ms,
  api_timeout, api_unavailable, citizen_not_found, invalid_document, is_document_number,
  handle_api_error, parse_date_of_birth,
}

module _ (registry : Registry) where
  open registry use {post, latency}

  -- What the registry's answer in time means for a lookup that fails: the exception for each answer.
  pub data IsCause (document_number : String) (answer : ApiAnswer) (e : Exception) : Type 0 where
    not_known :
        (status : ℕ)
        → answer ≡ axios_error (some status)
        → (status ≡ 404) ⊎ (status ≡ 400)
        → e ≡ citizen_not_found document_number
        → IsCause document_number answer e
    http_failed :
        (status : ℕ)
        → answer ≡ axios_error (some status)
        → status ≢ 404
        → status ≢ 400
        → e ≡ api_unavailable
        → IsCause document_number answer e
    unreachable : answer ≡ axios_error none → e ≡ api_unavailable → IsCause document_number answer e
    other_failure :
        (code : Option String)
        → answer ≡ other_error code
        → e ≡ api_unavailable
        → IsCause document_number answer e
    empty :
        answer ≡ response none
        → e ≡ citizen_not_found document_number
        → IsCause document_number answer e
    not_ok :
        (r : CitizenApiRawResponse)
        → answer ≡ response (some r)
        → str_eq r.status "ok" ≡ false
        → e ≡ citizen_not_found document_number
        → IsCause document_number answer e
    no_data :
        (r : CitizenApiRawResponse)
        → answer ≡ response (some r)
        → r.data_of ≡ none
        → e ≡ citizen_not_found document_number
        → IsCause document_number answer e
    no_date :
        (r : CitizenApiRawResponse) (raw : CitizenApiRawData)
        → answer ≡ response (some r)
        → r.data_of ≡ some raw
        → raw.date_of_birth ≡ none
        → e ≡ api_unavailable
        → IsCause document_number answer e
    undated :
        (r : CitizenApiRawResponse) (raw : CitizenApiRawData) (s : String)
        → answer ≡ response (some r)
        → r.data_of ≡ some raw
        → raw.date_of_birth ≡ some s
        → parse_date_of_birth registry s ≡ none
        → e ≡ invalid_document
        → IsCause document_number answer e

  abbrev IsCaused : String → ApiAnswer → Extracted → Type 0
  IsCaused document_number answer (extracted _) = Unit
  IsCaused document_number answer (failed x) =
      IsCause document_number answer (handle_api_error x document_number)

  -- The failures of a call that is sent at a time: too slow an answer, or one that came in time.
  abbrev pub IsLookupError : String → ℕ → Exception → Type 0
  IsLookupError document_number sent e =
      let number = trim document_number in
      ((request_timeout_ms < latency number sent) × (e ≡ api_timeout))
      ⊎ ((latency number sent ≤ request_timeout_ms) × IsCause document_number (post number sent) e)

  settled : Extracted → String → Outcome CitizenData
  settled x document_number = elim x [
    | extracted citizen ↦ ok citizen
    | failed e ↦ throws (handle_api_error e document_number)
  ]

  -- What a lookup that fails rests on and leaves behind.
  pub record Fails (document_number : String) (s : CitizenState registry) (e : Exception)
      (s' : CitizenState registry) : Type 0 where
    pub cache_kept : s'.cache ≡ s.cache
    pub reason :
        ((is_document_number document_number ≡ false) × (e ≡ invalid_document) × (s' ≡ s))
        ⊎ ((is_document_number document_number ≡ true)
            × IsLookupError document_number s.clock e
            × (s'.requests ≡ s.requests ++ trim document_number ∷ [])
            × (s'.clock ≤ s.clock + request_timeout_ms))
