-- ===== src/Access.antt =====
-- core/alteriom_hil/api_keys.py: who may call the farm's API, and as what. A role is its text, and a
-- regular expression is its text too: what `fullmatch` of the `re` module answers is a parameter.
pub mod Routes
pub mod Keys
pub mod KeyStore
mod Tests
use esp32_rig.Base.{String, Bool, not, ◌||◌, ◌==◌}

pub record Identity : Type 0 where
  pub name : String
  pub role : String
  pub kind : String

abbrev pub is_admin : Identity → Bool
is_admin i = i.role == "admin"

abbrev pub is_account : Identity → Bool
is_account i = i.kind == "account"

abbrev pub sees_whole_farm : Identity → Bool
sees_whole_farm i = is_admin i || not (is_account i)
