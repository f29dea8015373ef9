-- ===== src/Identity.antt =====
-- src/coreason_adlc_api/auth/identity.py and auth/schemas.py: who a request comes from, and what
-- the groups of a user open.
pub mod Token
pub mod Admission
pub mod Upsert
pub mod DeviceFlow
pub mod Polling
pub mod Users
mod Scenarios
use coreason_adlc_api.Prelude.{
  ℕ, String, Bool, false, Option, none, some, List, [], ◌∷◌, ◌++◌, ◌==◌, ◌||◌, filter,
  if◌then◌else◌,
}
use coreason_adlc_api.Prelude.Text.{contains}

pub record UserIdentity : Type 0 where
  pub oid : ℕ
  pub email : String
  pub groups : List ℕ
  pub full_name : Option String

-- The columns of identity.group_mappings that the code reads. `unnest` of a NULL array gives no
-- row, as that of an empty one.
pub record GroupMapping : Type 0 where
  pub sso_group_oid : ℕ
  pub role_name : String
  pub allowed_auc_ids : List String

abbrev pub in_group : List ℕ → ℕ → Bool
in_group [] g = false
in_group (x ∷ xs) g = x == g || in_group xs g

-- WHERE sso_group_oid = ANY($1::uuid[])
abbrev pub mappings_of : List ℕ → List GroupMapping → List GroupMapping
mappings_of groups ms = filter (λ m. in_group groups m.sso_group_oid) ms

-- the rows of SELECT unnest(allowed_auc_ids)
abbrev pub unnest : List GroupMapping → List String
unnest [] = []
unnest (m ∷ ms) = m.allowed_auc_ids ++ unnest ms

-- `list({…})`: each text once. Python leaves the order open; callers only test for membership.
abbrev pub dedup : List String → List String
dedup [] = []
dedup (x ∷ xs) = let rest = dedup xs in if contains x rest then rest else x ∷ rest

-- `map_groups_to_projects`; `none` for the table is a query that raises, which opens nothing.
unfoldable pub map_groups_to_projects : Option (List GroupMapping) → List ℕ → List String
map_groups_to_projects none groups = []
map_groups_to_projects (some ms) groups = dedup (unnest (mappings_of groups ms))
