-- ===== src/Tests/CitizenCases.antt =====
-- A citizen registry with a cache that runs, and lookups of one number.
use gracon_user_auth_service.Common.{
  ℕ, ◌+◌, ◌≤◌, ◌≡◌, refl, ◌⊎◌, inl, inr, arith, ◌&&◌, Option, none, some, List, [], ◌∷◌, String,
  str_eq, str_eq_iff, ltb, if◌then◌else◌, trim, split, codes, Bool-cases, &&-eq-true,
}
use gracon_user_auth_service.Platform.{ok, throws}
use gracon_user_auth_service.Citizen.{
  CitizenData, CitizenApiRawData, response, axios_error, CacheManager, Registry, CitizenState, size,
  skip, last_four, citizen_not_found, is_nid, is_document_number, handle_api_error, build_cache_key,
  parse_date_of_birth, extract_citizen_data, received, fetched, call_duration, call_citizen_api,
  lookup_missed, lookup_citizen, invalid_document,
}
use gracon_user_auth_service.Citizen.Cache.{here, IsFresh, started, lookup_citizen-IsFresh}

pub record Entry : Type 0 where
  pub key : String
  pub value : CitizenData
  pub until : ℕ

pub memory_get : String → ℕ → List Entry → Option CitizenData
memory_get k t [] = none
memory_get k t (e ∷ es) =
    let rest = memory_get k t es in if str_eq k e.key && ltb t e.until then some e.value else rest

pub memory_set : String → CitizenData → ℕ → ℕ → List Entry → List Entry
memory_set k x ttl now es = record { key = k; value = x; until = now + ttl } ∷ es

pub memory_get_set :
    (k j : String) (x v : CitizenData) (ttl now t : ℕ) (es : List Entry)
    → memory_get k t (memory_set j v ttl now es) ≡ some x
    → ((k ≡ j) × ((x ≡ v) × (t ≤ now + ttl))) ⊎ (memory_get k t es ≡ some x)
unfolding memory_get memory_set
memory_get_set k j x v ttl now t es h = elim (Bool-cases (str_eq k j && ltb t (now + ttl))) [
  | inl hit ↦
      let (same, before) = &&-eq-true (str_eq k j) (ltb t (now + ttl)) hit in
      inl ((str_eq_iff k j).0 same, (ground arith, ground arith))
  | inr miss ↦ inr (ground arith)
]

pub memory_get_empty : (k : String) (t : ℕ) → memory_get k t [] ≡ none
unfolding memory_get
memory_get_empty k t = refl

abbrev pub memory_cache : CacheManager
memory_cache = record {
  Store = List Entry;
  empty = [];
  get = memory_get;
  set = memory_set;
  get_empty = memory_get_empty;
  get_set = memory_get_set;
}

abbrev pub keza_raw : CitizenApiRawData
keza_raw = record {
  document_type = "NID";
  nid = "1197080012345678";
  sur_name = "Keza";
  post_names = "Ineza";
  sex = "F";
  date_of_birth = some "14/06/1999";
  country_of_birth = "RW";
}

-- One number is known; the call takes two seconds.
abbrev pub registry : Registry
registry = record {
  cache_manager = memory_cache;
  sha256_hex = λ s. s;
  new_date = λ y m d. if str_eq y "1999" then some 929318400 else none;
  post = λ number t.
      if str_eq number "1197080012345678"
      then response (some (record { status = "ok"; data_of = some keza_raw }))
      else axios_error (some 404);
  latency = λ number t. 2000;
}

unfoldable pub citizens : Unit {0}
unfolding memory_get memory_set size skip last_four citizen_not_found is_nid is_document_number
    handle_api_error build_cache_key parse_date_of_birth extract_citizen_data received fetched
    call_duration call_citizen_api lookup_missed lookup_citizen trim codes split
citizens = tt

abbrev keza : CitizenData
keza = record {
  document_type = "NID";
  nid = "1197080012345678";
  sur_name = "Keza";
  post_names = "Ineza";
  sex = "F";
  date_of_birth = 929318400;
  country_of_birth = "RW";
}

abbrev pub first_state : CitizenState registry
first_state = started registry 1000

abbrev second_state : CitizenState registry
second_state = (lookup_citizen registry " 1197080012345678" first_state).1

first_lookup : lookup_citizen registry " 1197080012345678" first_state ≡ (ok keza, second_state)
unfolding citizens
first_lookup = refl

second_clock : second_state.clock ≡ 3000
unfolding citizens
second_clock = refl

lookup_citizen-IsFresh_example :
    IsFresh registry (build_cache_key registry " 1197080012345678") second_state.clock keza
lookup_citizen-IsFresh_example =
    lookup_citizen-IsFresh registry 1000 " 1197080012345678" here first_lookup

abbrev missing_state : CitizenState registry
missing_state = (lookup_citizen registry "0000000000000000" first_state).1

-- Spaces around a number are accepted, and give it a cache key of its own.
other_key :
    ((lookup_citizen registry "1197080012345678" second_state).1.requests
      ≡ "1197080012345678" ∷ "1197080012345678" ∷ [])
unfolding citizens
other_key = refl

malformed : lookup_citizen registry "11970800" first_state ≡ (throws invalid_document, first_state)
unfolding citizens
malformed = refl
