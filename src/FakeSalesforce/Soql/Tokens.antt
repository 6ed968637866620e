-- ===== src/FakeSalesforce/Soql/Tokens.antt =====
-- fake_salesforce/soql.py: `tokenize`.
pub mod Spells
use Prim.Native.String
use Prim.Native.String.{String}
use salesforce_erp_sync.Common.{
  ℕ, zero, suc, ◌+◌, ◌≡◌, refl, Option, none, some, List, [], ◌∷◌, length, codes, str_eq, str_of_ℕ,
  ◌<>◌, if◌then◌else◌,
}
use salesforce_erp_sync.Outcome.{Exn, Outcome, ok, raised, ◌>>=◌}
use salesforce_erp_sync.FakeSalesforce.Soql.{Builtins, malformed, still_running}
use salesforce_erp_sync.FakeSalesforce.Soql.Scan.{Match, token_match}

pub record Token : Type 0 where
  pub kind : String
  pub text : String

-- a match of white space is no token
abbrev pub token_of : Match → List Token → List Token
token_of m tokens =
    if str_eq m.kind "ws" then tokens else record { kind = m.kind; text = m.group } ∷ tokens

-- `unexpected character at ...`
abbrev pub unexpected : Builtins → ℕ → String → String
unexpected py pos String.[] = ""
unexpected py pos (String.◌∷◌ c s) =
    "unexpected character at " <> str_of_ℕ pos <> ": " <> py.repr (String.◌∷◌ c String.[])

-- what follows a match, and the error without one
abbrev pub round : Option Match → Exn → (Match → Outcome (List Token)) → Outcome (List Token)
round none e f = raised e
round (some m) e f = f m

-- the loop of `tokenize` at `pos`, where `s` is `soql[pos:]`
unfoldable pub tokens_from : Builtins → ℕ → ℕ → String → Outcome (List Token)
unfolding token_match
tokens_from py fuel pos String.[] = ok []
tokens_from py zero pos (String.◌∷◌ c s) = raised still_running
tokens_from py (suc fuel) pos (String.◌∷◌ c s) =
    round (token_match (String.◌∷◌ c s)) (malformed (unexpected py pos (String.◌∷◌ c s))) λ m.
      tokens_from py fuel (pos + length (codes m.group)) m.rest >>= λ tokens. ok (token_of m tokens)

-- `tokenize`
unfoldable pub tokenize : Builtins → String → Outcome (List Token)
unfolding tokens_from codes
tokenize py soql = tokens_from py (length (codes soql)) 0 soql
