-- ===== src/Auth/Sound.antt =====
-- auth.service.ts: what is sound of the tokens that are stored.
-- verified. Every operation of the service keeps it, on every branch.
use gracon_user_auth_service.Common.{
  ℕ, ◌≡◌, refl, ◌⊎◌, inl, inr, Bool, true, false, some, List, [], ◌∷◌, ◌==◌, if◌then◌else◌,
  Bool-cases, All, find, update_where,
}
use gracon_user_auth_service.Common.Tables.{All-find, All-append, All-update_where}
use gracon_user_auth_service.Platform.{TokenType, limited, User, RefreshToken, World, Env, Moment}
use gracon_user_auth_service.Auth.{Origin, login_token_type, issued}
use gracon_user_auth_service.Auth.Tokens.{MayIssue}
use gracon_user_auth_service.Auth.Rotation.{revoke}

-- An account that is found under its id, with a verified identity.
abbrev pub HasVerifiedOwner : List User → ℕ → Type 0
HasVerifiedOwner users id =
    (u : User) × (find (λ (a : User). a.id == id) users ≡ some u) × (u.is_id_verified ≡ true)

-- A token that may stand in the table: it is revoked, or limited, or its account is verified.
abbrev pub Covered : List User → RefreshToken → Type 0
Covered users t = (t.revoked ≡ true) ⊎ ((t.token_type ≡ limited) ⊎ HasVerifiedOwner users t.user_id)

-- Accounts are found under their ids, and every token may stand in the table.
pub record IsSound (w : World) : Type 0 where
  pub keyed : All (λ (u : User). find (λ (a : User). a.id == u.id) w.users ≡ some u) w.users
  pub covered : All (Covered w.users) w.refresh_tokens

-- A handler that leaves the accounts alone and the tokens covered keeps the invariant.
abbrev pub Keeps : World → World → Type 0
Keeps w w' = (w'.users ≡ w.users) × All (Covered w.users) w'.refresh_tokens

pub Keeps-IsSound : (w w' : World) → IsSound w → Keeps w w' → IsSound w'
Keeps-IsSound w w' s k = record { keyed = rw k.0 s.keyed; covered = rw k.0 k.1 }

pub revoke-Covered :
    (users : List User) (b : Bool) (t : RefreshToken)
    → Covered users t
    → Covered users (if b then revoke t else t)
revoke-Covered users true t c = inl refl
revoke-Covered users false t c = c

pub update-Covered :
    (users : List User) (p : RefreshToken → Bool) (rows : List RefreshToken)
    → All (Covered users) rows
    → All (Covered users) (update_where p revoke rows)
update-Covered users p rows a =
    All-update_where (Covered users) (Covered users) p revoke rows
      (λ t c. revoke-Covered users (p t) t c) a

pub MayIssue-Covered :
    (env : Env) (users : List User) (id : ℕ) (ty : TokenType) (from : Origin) (at : Moment)
    {rows rows' : List RefreshToken}
    → All (Covered users) rows
    → (ty ≡ limited) ⊎ HasVerifiedOwner users id
    → MayIssue env id ty from at rows rows'
    → All (Covered users) rows'
MayIssue-Covered env users id ty from at a c (inl same) = rw same a
MayIssue-Covered env users id ty from at {rows} a c (inr (n, added)) =
    rw added (All-append (Covered users) rows (issued env id ty from at n ∷ []) a (inr c, tt))

-- An account found by any search is found under its id.
pub owner_of_find :
    (users : List User) (p : User → Bool) (u : User)
    → All (λ (u : User). find (λ (a : User). a.id == u.id) users ≡ some u) users
    → find p users ≡ some u
    → find (λ (a : User). a.id == u.id) users ≡ some u
owner_of_find users p u keyed e =
    All-find (λ (x : User). find (λ (a : User). a.id == x.id) users ≡ some x) p users keyed e

pub login_type-Covered :
    (users : List User) (u : User)
    → find (λ (a : User). a.id == u.id) users ≡ some u
    → (login_token_type u ≡ limited) ⊎ HasVerifiedOwner users u.id
login_type-Covered users u e = elim (Bool-cases u.is_id_verified) [
  | inl verified ↦ inr (u, e, verified)
  | inr not_verified ↦ inl (rw not_verified)
]
