-- ===== src/Http/Cors.antt =====
-- common/security/cors.config.ts: the origins from which a browser may call the service.
use gracon_user_auth_service.Common.{
  ℕ, ◌≡◌, refl, sym, ap, ◌∙◌, ◌⊎◌, ◌↔◌, inl, inr, arith, Bool, true, ◌||◌, Option, none, some, List,
  [], ◌∷◌, ◌++◌, map, String, str_eq, str_eq_iff, if◌then◌else◌, truthy, or_else, trim, split,
  Bool-cases, select, contains,
}

-- `parseAllowedOrigins`
unfoldable pub parse_allowed_origins : List (Option String) → List String
unfolding split trim select
parse_allowed_origins [] = []
parse_allowed_origins (value ∷ values) =
    select truthy (map trim (split b',' (or_else value ""))) ++ parse_allowed_origins values

pub record CorsOptions : Type 0 where
  pub allowed_origins : List String
  pub methods : List String
  pub allowed_headers : List String
  pub exposed_headers : List String
  pub credentials : Bool
  pub max_age : ℕ

unfoldable pub build_cors_config : String → Option String → CorsOptions
unfolding parse_allowed_origins
build_cors_config frontend_url frontend_urls = record {
  allowed_origins = parse_allowed_origins (some frontend_url ∷ frontend_urls ∷ []);
  methods = "GET" ∷ "POST" ∷ "PATCH" ∷ "DELETE" ∷ "OPTIONS" ∷ [];
  allowed_headers = "Content-Type" ∷ "Authorization" ∷ [];
  exposed_headers = "Retry-After" ∷ [];
  credentials = true;
  max_age = 86_400;
}

-- The function `origin` of the options: whether a request with this header may go on.
unfoldable pub allows_origin : CorsOptions → Option String → Bool
allows_origin options none = true
allows_origin options (some s) = if truthy s then contains s options.allowed_origins else true

-- One of the parts, trimmed, is the text.
abbrev pub IsPart : String → List String → Type 0
IsPart s [] = ⊥
IsPart s (part ∷ parts) = (trim part ≡ s) ⊎ IsPart s parts

-- An origin that the operator has listed.
abbrev pub IsListed : String → List (Option String) → Type 0
IsListed s [] = ⊥
IsListed s (value ∷ values) = IsPart s (split b',' (or_else value "")) ⊎ IsListed s values

contains-append :
    (s : String) (xs ys : List String) → contains s (xs ++ ys) ≡ (contains s xs || contains s ys)
contains-append s [] ys = refl
contains-append s (x ∷ xs) ys = ground (arith, contains-append s xs ys)

listed-IsPart :
    (s : String) (parts : List String)
    → truthy s ≡ true
    → (contains s (select truthy (map trim parts)) ≡ true) ↔ IsPart s parts
unfolding select
listed-IsPart s [] full = (λ h. ground arith, λ h. absurd h)
listed-IsPart s (part ∷ parts) full =
    let rest = listed-IsPart s parts full in
    (
      λ h. elim (Bool-cases (str_eq s (trim part))) [
        | inl same ↦ inl (sym ((str_eq_iff s (trim part)).0 same))
        | inr other ↦ elim (Bool-cases (truthy (trim part))) [
          | inl kept ↦ inr (rest.0 (ground arith))
          | inr dropped ↦ inr (rest.0 (ground arith))
        ]
      ],
      λ h. elim h [
        | inl same ↦ listed_first s part parts full same
        | inr later ↦ listed_later s part parts (rest.1 later)
      ],
    )
  where
    listed_first :
        (s part : String) (parts : List String)
        → truthy s ≡ true
        → trim part ≡ s
        → contains s (select truthy (map trim (part ∷ parts))) ≡ true
    listed_first s part parts full same = ground (arith, str_eq_iff s (trim part), ap truthy same)

    listed_later :
        (s part : String) (parts : List String)
        → contains s (select truthy (map trim parts)) ≡ true
        → contains s (select truthy (map trim (part ∷ parts))) ≡ true
    listed_later s part parts h = ground arith

parse_allowed_origins-IsListed :
    (s : String) (values : List (Option String))
    → truthy s ≡ true
    → (contains s (parse_allowed_origins values) ≡ true) ↔ IsListed s values
unfolding parse_allowed_origins
parse_allowed_origins-IsListed s [] full = (λ h. ground arith, λ h. absurd h)
parse_allowed_origins-IsListed s (value ∷ values) full =
    let parts = split b',' (or_else value "") in
    let here = listed-IsPart s parts full in
    let later = parse_allowed_origins-IsListed s values full in
    let both = contains-append s (select truthy (map trim parts)) (parse_allowed_origins values) in
    (
      λ h. elim (Bool-cases (contains s (select truthy (map trim parts)))) [
        | inl t ↦ inl (here.0 t)
        | inr f ↦ inr (later.0 (ground arith))
      ],
      λ h. elim h [
        | inl t ↦ let k = here.1 t in ground arith
        | inr t ↦ let k = later.1 t in both ∙ (ground arith)
      ],
    )

-- A request that names its origin goes on exactly if the origin, to the letter, is one that the
-- operator listed, between commas and with white space around it or not.
pub allows_origin-IsListed :
    (frontend_url : String) (frontend_urls : Option String) (s : String)
    → truthy s ≡ true
    → (allows_origin (build_cors_config frontend_url frontend_urls) (some s) ≡ true)
      ↔ IsListed s (some frontend_url ∷ frontend_urls ∷ [])
unfolding allows_origin build_cors_config
allows_origin-IsListed frontend_url frontend_urls s full =
    let listed = parse_allowed_origins-IsListed s (some frontend_url ∷ frontend_urls ∷ []) full in
    (λ h. listed.0 (ground arith), λ h. let k = listed.1 h in ground arith)
