-- ===== src/Http/Docs.antt =====
-- common/security/docs-auth.middleware.ts and main.ts: the gate before the documentation.
use gracon_user_auth_service.Common.{
  ℕ, zero, suc, ◌≡◌, ap, ◌↔◌, ◌&&◌, ◌⊎◌, inl, inr, arith, Bool, true, false, not, ◌||◌, Option,
  none, some, List, [], ◌∷◌, String, str_eq, str_eq_iff, ◌==◌, if◌then◌else◌, truthy, or_else,
  split, first_part, codes, starts_with, Bool-cases, Option-cases, ==_refl,
}
use gracon_user_auth_service.Http.{Request}

-- What the middleware does with a request: an answer with its status, whether it asks for credentials
-- and its message, the next handler, or an error that is thrown.
pub data Verdict : Type 0 where
  answered : ℕ → Bool → String → Verdict
  passed : Verdict
  thrown : String → Verdict

-- The credentials that are configured, and the text of base64 data.
pub record DocsConfig : Type 0 where
  pub user : Option String
  pub pass : Option String
  pub decode : String → String
  -- The number of bytes of a text in UTF-8.
  pub byte_length : String → ℕ

unfoldable pub begins_with_basic : String → Bool
unfolding codes starts_with
begins_with_basic s = starts_with (codes s) (codes "Basic ")

-- `slice`
unfoldable pub slice_from : ℕ → String → String
slice_from zero s = s
slice_from (suc n) String.[] = String.[]
slice_from (suc n) (String.◌∷◌ _ s) = slice_from n s

abbrev second_part : List String → String
second_part [] = ""
second_part (_ ∷ []) = ""
second_part (_ ∷ part ∷ _) = part

-- `crypto.timingSafeEqual`, which throws when the lengths differ.
abbrev pub timing_safe_equal : (String → ℕ) → String → String → Option Bool
timing_safe_equal byte_length given_text text =
    if byte_length given_text == byte_length text then some (str_eq given_text text) else none

abbrev pub length_error : String
length_error = "Input buffers must have the same byte length"

unfoldable pub compare_credentials : (String → ℕ) → String → String → List String → Verdict
compare_credentials byte_length user pass parts =
    elim (timing_safe_equal byte_length (first_part parts) user) [
      | none ↦ thrown length_error
      | some user_match ↦ elim (timing_safe_equal byte_length (second_part parts) pass) [
        | none ↦ thrown length_error
        | some pass_match ↦
            if not user_match || not pass_match
            then answered 401 true "Invalid credentials."
            else passed
      ]
    ]

-- A variable that is not set, or empty, counts as missing.
abbrev pub set_text : Option String → Option String
set_text none = none
set_text (some s) = if truthy s then some s else none

-- `use`
unfoldable pub use_docs_auth : DocsConfig → Request → Verdict
unfolding begins_with_basic slice_from split compare_credentials
use_docs_auth config req = elim (set_text config.user) [
  | none ↦ answered 503 false "API documentation is not available."
  | some user ↦ elim (set_text config.pass) [
    | none ↦ answered 503 false "API documentation is not available."
    | some pass ↦
        let header = or_else req.authorization "" in
        if not (begins_with_basic header)
        then answered 401 true "Authentication required to access API documentation."
        else compare_credentials config.byte_length user pass
            (split b':' (config.decode (slice_from 6 header)))
  ]
]

-- What a request that passes has: both variables are set, and the header has their values.
pub record Presents (config : DocsConfig) (req : Request) : Type 0 where
  pub user : String
  pub pass : String
  pub user_set : set_text config.user ≡ some user
  pub pass_set : set_text config.pass ≡ some pass
  pub basic : begins_with_basic (or_else req.authorization "") ≡ true
  pub user_sent :
      first_part (split b':' (config.decode (slice_from 6 (or_else req.authorization "")))) ≡ user
  pub pass_sent :
      second_part (split b':' (config.decode (slice_from 6 (or_else req.authorization "")))) ≡ pass

compare-passed :
    (byte_length : String → ℕ) (user pass : String) (parts : List String)
    → compare_credentials byte_length user pass parts ≡ passed
    → (first_part parts ≡ user) × (second_part parts ≡ pass)
unfolding compare_credentials
compare-passed byte_length user pass parts h =
    ground (arith, str_eq_iff (first_part parts) user, str_eq_iff (second_part parts) pass)

compare_equal :
    (byte_length : String → ℕ) (user pass : String) (parts : List String)
    → first_part parts ≡ user
    → second_part parts ≡ pass
    → compare_credentials byte_length user pass parts ≡ passed
unfolding compare_credentials
compare_equal byte_length user pass parts e f = ground (
  arith,
  ap byte_length e,
  ap byte_length f,
  ==_refl (byte_length user),
  ==_refl (byte_length pass),
  str_eq_iff (first_part parts) user,
  str_eq_iff (second_part parts) pass,
)

passed-Presents :
    (config : DocsConfig) (req : Request) → use_docs_auth config req ≡ passed → Presents config req
unfolding use_docs_auth
passed-Presents config req h = elim (Option-cases (set_text config.user)) [
  | inl e ↦ ground arith
  | inr (user, e) ↦ elim (Option-cases (set_text config.pass)) [
    | inl k ↦ ground arith
    | inr (pass, k) ↦
        let header = or_else req.authorization "" in
        elim (Bool-cases (begins_with_basic header)) [
          | inr other ↦ ground arith
          | inl basic ↦
              let parts = split b':' (config.decode (slice_from 6 header)) in
              let (user_sent, pass_sent) =
                compare-passed config.byte_length user pass parts (ground arith) in
              record {
                user = user;
                pass = pass;
                user_set = e;
                pass_set = k;
                basic = basic;
                user_sent = user_sent;
                pass_sent = pass_sent;
              }
        ]
  ]
]

Presents-passed :
    (config : DocsConfig) (req : Request) → Presents config req → use_docs_auth config req ≡ passed
unfolding use_docs_auth
Presents-passed config req p =
    let header = or_else req.authorization "" in
    let parts = split b':' (config.decode (slice_from 6 header)) in
    let equal = compare_equal config.byte_length p.user p.pass parts p.user_sent p.pass_sent in
    ground (arith, p.user_set, p.pass_set, p.basic, equal)

-- The paths that main.ts puts the middleware on.
abbrev pub docs_paths : List String
docs_paths = "/docs" ∷ "/docs/json" ∷ "/redoc" ∷ []

abbrev any_path : (String → Bool) → List String → Bool
any_path p [] = false
any_path p (path ∷ paths) = p path || any_path p paths

-- A request on its way to the documentation: `mounted` is the test of the framework, whether what is
-- installed on a path is meant for the path of a request. Only in production is there a gate.
unfoldable pub docs_gate : DocsConfig → (String → String → Bool) → Bool → Request → Verdict
unfolding use_docs_auth
docs_gate config mounted is_prod req =
    if is_prod && any_path (λ path. mounted path req.path) docs_paths
    then use_docs_auth config req
    else passed

-- Outside production every request passes the gate, and in production every request whose path is
-- under none of `/docs`, `/docs/json` and `/redoc`; any other passes exactly if both variables are set
-- and not empty and its header has their values, after `Basic `, as the first two parts between colons.
pub docs_gate-Presents :
    (config : DocsConfig) (mounted : String → String → Bool) (is_prod : Bool) (req : Request)
    → (docs_gate config mounted is_prod req ≡ passed) ↔ (
        (is_prod ≡ false)
        ⊎ (((mounted "/docs" req.path
                || (mounted "/docs/json" req.path || mounted "/redoc" req.path))
              ≡ false)
            ⊎ Presents config req))
unfolding docs_gate
docs_gate-Presents config mounted is_prod req = (
  λ h. elim (Bool-cases is_prod) [
    | inr other ↦ inl other
    | inl prod ↦
        elim (Bool-cases (
          mounted "/docs" req.path
          || (mounted "/docs/json" req.path || mounted "/redoc" req.path))) [
            | inr outside ↦ inr (inl outside)
            | inl inside ↦ inr (inr (passed-Presents config req (ground arith)))
          ]
  ],
  λ r. elim r [
    | inl other ↦ ground arith
    | inr (inl outside) ↦ ground arith
    | inr (inr presents) ↦ let through = Presents-passed config req presents in ground arith
  ],
)
