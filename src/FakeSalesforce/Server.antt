-- ===== src/FakeSalesforce/Server.antt =====
-- fake_salesforce/server.py: the server's state, its faults, its tokens and its clock.
pub mod Http
pub mod Oauth
pub mod Data
pub mod Faults
pub mod Access
pub mod Digits
pub mod Locators
pub mod Pages
pub mod Admin
pub mod Controls
pub mod Dispatch
use salesforce_erp_sync.Common.{
  ℕ, zero, suc, ◌+◌, ◌-◌, String, Bool, true, false, ◌&&◌, not, Option, none, some, List, [], ◌∷◌,
  ◌++◌, map, length, drop, if◌then◌else◌, ℤ, pos, ◌-ℤ◌, leb_ℤ, ltb_ℤ, Dict, lookup, insert,
  or_default, split_on, str_eq,
}
use salesforce_erp_sync.Python.Json.{Json, Fields}
use salesforce_erp_sync.Outcome.{Outcome, ok, raised, ◌>>=◌}
use salesforce_erp_sync.Exec.{Exec, pure}
use salesforce_erp_sync.FakeSalesforce.Soql.{Builtins}
use salesforce_erp_sync.FakeSalesforce.Store.{Record, Store, reset, load}
use salesforce_erp_sync.FakeSalesforce.Rows.{microsecond}

pub record Fault : Type 0 where
  pub status : ℤ
  pub body : Json
  pub remaining : ℤ

-- `Config`; the time to live in microseconds
pub record Config : Type 0 where
  pub client_id : String
  pub client_secret : String
  pub token_ttl : ℤ
  pub page_size : ℕ
  pub api_versions : List String
  pub daily_api_limit : ℕ

abbrev pub default_config : Config
default_config = record {
  client_id = "fake-client-id";
  client_secret = "fake-client-secret";
  token_ttl = pos 7200000000;
  page_size = 2000;
  api_versions = "62.0" ∷ "63.0" ∷ "64.0" ∷ "65.0" ∷ "66.0" ∷ [];
  daily_api_limit = 15000;
}

-- An entry of the request log.
pub record Entry : Type 0 where
  pub method : String
  pub path : String
  pub status : ℤ
  pub extra : Fields

-- `App`; `seed` is what the seed file holds, where there is one, and `tokens` has the times of issue.
pub record App : Type 0 where
  pub config : Config
  pub store : Store
  pub seed : Option (List Record × List Record)
  pub tokens : Dict ℤ
  pub cursors : Dict (List Fields)
  pub faults : Dict (List Fault)
  pub requests : List Entry
  pub api_calls : ℕ
  pub locator_ids : ℕ
  pub frozen_now : Option ℤ

-- What a request reads from its machine: the clocks in microseconds, the texts of
-- `secrets.token_urlsafe`, and the time in milliseconds.
pub record Turn : Type 0 where
  pub utc_now : ℤ
  pub monotonic : ℤ
  pub secret : String
  pub signature : String
  pub milliseconds : String

-- `App.now`, and the store's clock, to the second
abbrev pub now : App → Turn → ℤ
now app turn = or_default app.frozen_now turn.utc_now

unfoldable pub clock : App → Turn → ℤ
unfolding ◌-ℤ◌
clock app turn = now app turn -ℤ pos (microsecond (now app turn))

-- an action on the store, as a step of the server
abbrev pub writes : {A : Type 0} → Exec Store A → Exec App A
writes m app = let (r, st) = m app.store in (r, record app { store = st })

abbrev seeded : Builtins → ℤ → Option (List Record × List Record) → Exec Store Unit
seeded py stamp none = pure tt
seeded py stamp (some (accounts, opportunities)) =
    load py accounts (map (λ opp. (stamp, opp)) opportunities)

-- `load_seed`: what was loaded before a bad record stays
unfoldable pub load_seed : Builtins → Turn → Exec App Unit
unfolding clock load
load_seed py turn app =
    let emptied : App = record app { store = reset app.store } in
    writes (seeded py (clock app turn) app.seed) emptied

-- the faults that are used up at the front of a queue are dropped
unfoldable pub live : List Fault → List Fault
live [] = []
live (f ∷ fs) = let rest = live fs in if leb_ℤ f.remaining (pos 0) then rest else f ∷ fs

abbrev pub use_fault : List Fault → Option Fault × List Fault
unfolding ◌-ℤ◌
use_fault [] = (none, [])
use_fault (f ∷ fs) =
    let used : Fault = record f { remaining = f.remaining -ℤ pos 1 } in (some used, used ∷ fs)

abbrev pub take_from : String → Option (List Fault) → App → Option Fault × App
take_from target none app = (none, app)
take_from target (some queue) app =
    let (taken, rest) = use_fault (live queue) in
    (taken, record app { faults = insert target rest app.faults })

-- `take_fault`
unfoldable pub take_fault : String → App → Option Fault × App
unfolding live
take_fault target app = take_from target (lookup target app.faults) app

abbrev pub valid_at : Option ℤ → Turn → ℤ → Bool
valid_at none turn ttl = false
valid_at (some issued) turn ttl = ltb_ℤ (turn.monotonic -ℤ issued) ttl

-- `token_valid`
unfoldable pub token_valid : String → Turn → App → Bool
token_valid token turn app = valid_at (lookup token app.tokens) turn app.config.token_ttl

abbrev read_or {ℓ} : {A : Type ℓ} → (String → Outcome A) → A → Option String → Outcome A
read_or read d none = ok d
read_or read d (some s) = read s

-- `Config.from_env`, for an environment and Python's `float` (in microseconds) and `int`
unfoldable pub config_from_env :
    Dict String → (String → Outcome ℤ) → (String → Outcome ℕ) → Outcome Config
unfolding split_on
config_from_env env float_of int_of =
    read_or float_of default_config.token_ttl (lookup "FAKE_SF_TOKEN_TTL_SECONDS" env)
    >>= λ seconds.
        read_or int_of default_config.page_size (lookup "FAKE_SF_PAGE_SIZE" env) >>= λ size.
        ok (record {
          client_id = or_default (lookup "FAKE_SF_CLIENT_ID" env) default_config.client_id;
          client_secret =
              or_default (lookup "FAKE_SF_CLIENT_SECRET" env) default_config.client_secret;
          token_ttl = seconds;
          page_size = size;
          api_versions = versions (lookup "FAKE_SF_API_VERSIONS" env);
          daily_api_limit = default_config.daily_api_limit;
        })
  where
    versions : Option String → List String
    versions none = default_config.api_versions
    versions (some s) = if str_eq s "" then default_config.api_versions else split_on b',' s
