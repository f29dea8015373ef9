-- ===== src/Identity/Upsert.antt =====
-- src/coreason_adlc_api/auth/identity.py: upsert_user, on the table identity.users of the baseline
-- migration.
use coreason_adlc_api.Prelude.{
  ℕ, String, Bool, false, not, Option, List, [], ◌∷◌, ◌||◌, ◌&&◌, ◌==◌, if◌then◌else◌,
}
use coreason_adlc_api.Prelude.Text.{str_eq}
use coreason_adlc_api.Identity.{UserIdentity}

-- A row of identity.users. The database sets `created_at` when it inserts.
pub record UserRow : Type 0 where
  pub user_uuid : ℕ
  pub email : String
  pub full_name : Option String
  pub created_at : ℕ
  pub last_login : ℕ

abbrev pub Users : Type 0
Users = List UserRow

-- The UNIQUE constraint on the email: a row of another user has it.
abbrev pub email_taken : ℕ → String → Users → Bool
email_taken id email [] = false
email_taken id email (r ∷ rs) =
    (not (r.user_uuid == id) && str_eq r.email email) || email_taken id email rs

-- INSERT … ON CONFLICT (user_uuid) DO UPDATE
abbrev pub upsert_row : UserIdentity → ℕ → Users → Users
upsert_row u now [] =
    record {
      user_uuid = u.oid;
      email = u.email;
      full_name = u.full_name;
      created_at = now;
      last_login = now;
    }
    ∷ []
upsert_row u now (r ∷ rs) =
    let rest = upsert_row u now rs in
    if r.user_uuid == u.oid
    then record r { email = u.email; full_name = u.full_name; last_login = now } ∷ rs
    else r ∷ rest

-- How the statement ends: it runs, or the connection fails, before or after the statement has run.
pub data Statement : Type 0 where
  runs : Statement
  breaks : Bool → Statement

abbrev pub executed : UserIdentity → ℕ → Users → Users
executed u now t = if email_taken u.oid u.email t then t else upsert_row u now t

-- `upsert_user`: no error leaves it.
unfoldable pub upsert_user : Statement → UserIdentity → ℕ → Users → Users
upsert_user runs u now t = executed u now t
upsert_user (breaks done) u now t = if done then executed u now t else t
