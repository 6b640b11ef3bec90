-- ===== src/Tests/Fixture.antt =====
-- A database client, a bucket and an environment that run, and a small state.
use gracon_user_auth_service.Common.{
  ℕ, ◌+◌, ◌*◌, ◌≡◌, refl, ◌⊎◌, inl, inr, arith, Bool, true, false, not, none, some, List, [], ◌∷◌,
  ◌++◌, String, str_eq, if◌then◌else◌, substring, trim, decimal, Option-cases, length, find, select,
  update_where, contains,
}
use gracon_user_auth_service.Platform.{
  limited, User, RefreshToken, Reply, accepted, rejected, Client, World, Bucket, Env, Moment,
}
use gracon_user_auth_service.Common.{codes}
use gracon_user_auth_service.Tests.Sorting.{
  memory_sort, memory_sort_desc, length-memory_sort, memory_sort_least, memory_sort_member,
  length-memory_sort_desc, All-memory_sort, All-memory_sort_desc,
}

pub memory_create : (Row : Type 0) → (ℕ → Row) → List Row → Reply (Row × List Row)
memory_create Row make rows = accepted (make (length rows), rows ++ make (length rows) ∷ [])

pub memory_create_lem :
    (Row : Type 0) (make : ℕ → Row) (rows : List Row) (row : Row) (rows' : List Row)
    → memory_create Row make rows ≡ accepted (row, rows')
    → (id : ℕ) × (row ≡ make id) × (rows' ≡ rows ++ row ∷ [])
unfolding memory_create
memory_create_lem Row make rows row rows' e = (length rows, ground arith, ground arith)

pub memory_upsert :
    (Row : Type 0) → (Row → Bool) → (ℕ → Row) → (Row → Row) → List Row → Reply (Row × List Row)
memory_upsert Row p make f rows = elim (find p rows) [
  | none ↦ accepted (make (length rows), rows ++ make (length rows) ∷ [])
  | some row ↦ accepted (f row, update_where p f rows)
]

pub memory_upsert_lem :
    (Row : Type 0) (p : Row → Bool) (make : ℕ → Row) (f : Row → Row) (rows : List Row) (row : Row)
    (rows' : List Row)
    → memory_upsert Row p make f rows ≡ accepted (row, rows')
    → ((old : Row) × (find p rows ≡ some old) × (row ≡ f old) × (rows' ≡ update_where p f rows))
      ⊎ ((find p rows ≡ none) × ((id : ℕ) × (row ≡ make id) × (rows' ≡ rows ++ make id ∷ [])))
unfolding memory_upsert
memory_upsert_lem Row p make f rows row rows' e = elim (Option-cases (find p rows)) [
  | inl h ↦ inr (h, (length rows, ground arith, ground arith))
  | inr (old, h) ↦ inl (old, h, ground arith, ground arith)
]

abbrev pub memory_client : Client
memory_client = record {
  find_first = λ Row p rows. find p rows;
  find_many = λ Row p rows. select p rows;
  count = λ Row p rows. length (select p rows);
  create = memory_create;
  update = λ Row p f rows. update_where p f rows;
  update_many = λ Row p f rows. update_where p f rows;
  upsert = memory_upsert;
  delete_many = λ Row p rows. select (λ r. not (p r)) rows;
  order_by = memory_sort;
  order_by_desc = memory_sort_desc;
  transaction = λ A r. r;
  find_first_lem = λ Row p rows. refl;
  find_many_lem = λ Row p rows. refl;
  count_lem = λ Row p rows. refl;
  create_lem = memory_create_lem;
  update_lem = λ Row p f rows row e. refl;
  update_many_lem = λ Row p f rows. refl;
  upsert_lem = memory_upsert_lem;
  delete_many_lem = λ Row p rows. refl;
  transaction_lem = λ A r a e. e;
  order_by_length = length-memory_sort;
  order_by_least = memory_sort_least;
  order_by_member = memory_sort_member;
  order_by_all = All-memory_sort;
  order_by_desc_all = All-memory_sort_desc;
  order_by_desc_length = length-memory_sort_desc;
}

pub memory_put : String → List String → Reply (List String)
memory_put key keys = accepted (keys ++ key ∷ [])

pub memory_put_lem :
    (key : String) (keys keys' : List String)
    → memory_put key keys ≡ accepted keys'
    → keys' ≡ keys ++ key ∷ []
unfolding memory_put
memory_put_lem key keys keys' e = cc

pub memory_delete : List String → List String → Reply (List String)
memory_delete gone keys = accepted (select (λ k. not (contains k gone)) keys)

pub memory_delete_lem :
    (gone keys keys' : List String)
    → memory_delete gone keys ≡ accepted keys'
    → keys' ≡ select (λ k. not (contains k gone)) keys
unfolding memory_delete
memory_delete_lem gone keys keys' e = cc

pub memory_delete_one : String → List String → Reply (List String)
memory_delete_one key keys = accepted (select (λ k. not (str_eq k key)) keys)

pub memory_delete_one_lem :
    (key : String) (keys keys' : List String)
    → memory_delete_one key keys ≡ accepted keys'
    → keys' ≡ select (λ k. not (str_eq k key)) keys
unfolding memory_delete_one
memory_delete_one_lem key keys keys' e = cc

abbrev pub memory_bucket : Bucket
memory_bucket = record {
  put_object = memory_put;
  delete_objects = memory_delete;
  delete_object = memory_delete_one;
  head_object = λ key keys. if contains key keys then accepted tt else rejected "NotFound";
  get_signed_url = λ key. accepted key;
  put_object_lem = memory_put_lem;
  delete_objects_lem = memory_delete_lem;
  delete_object_lem = memory_delete_one_lem;
}

digest : List ℕ → ℕ
digest [] = 7
digest (c ∷ cs) = c + 256 * digest cs

unfoldable pub test_hash : String → ℕ
unfolding codes digest
test_hash s = digest (codes s)

abbrev pub test_env : Env
test_env = record {
  client = memory_client;
  bucket = memory_bucket;
  id_text = decimal;
  hash = test_hash;
  encrypt = λ iv s. s;
  decrypt = λ s. s;
  bcrypt_hash = λ salt s. s;
  bcrypt_compare = str_eq;
  sign = λ payload expiry. expiry;
}

-- A verified, active account whose identity is not verified yet.
abbrev pub amani : User
amani = record {
  id = 1;
  email = "amani@example.rw";
  phone_number = none;
  password_hash = "Secret!7";
  image_url = none;
  is_verified = true;
  is_active = true;
  is_id_verified = false;
  id_verified_at = none;
  verification_attempts = 0;
  created_at = 1000;
}

abbrev pub amani_token : RefreshToken
amani_token = record {
  id = 0;
  user_id = 1;
  token_hash = test_hash "old";
  token_type = limited;
  expires_at = 9000000000;
  revoked = false;
  ip_address = none;
  user_agent = none;
}

abbrev pub world : World
world = record {
  users = amani ∷ [];
  citizen_identities = [];
  platform_ids = [];
  email_tokens = [];
  reset_tokens = [];
  refresh_tokens = amani_token ∷ [];
  id_verifications = [];
  security_events = [];
  user_preferences = [];
  mails = [];
  objects = [];
}

abbrev pub moment : Moment
moment = record { now = 5000; random = "fresh"; salt = 1 }

abbrev pub later : Moment
later = record { now = 6000; random = "again"; salt = 2 }

-- All that a run of the fixture computes with.
unfoldable pub fixture : Unit {0}
unfolding memory_sort memory_sort_desc trim decimal find select update_where memory_create
    memory_upsert memory_put memory_delete memory_delete_one test_hash substring
fixture = tt
