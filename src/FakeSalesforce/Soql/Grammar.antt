-- ===== src/FakeSalesforce/Soql/Grammar.antt =====
-- The queries that fake_salesforce/soql.py reads, as a grammar of their tokens: in `P toks a rest` the
-- tokens before `rest` say `a`.
pub mod Lengths
use salesforce_erp_sync.Common.{
  ℕ, String, ◌≡◌, Bool, true, false, ◌&&◌, not, Option, none, some, List, [], ◌∷◌, lookup, str_eq,
  lower, upper, codes, ℤ,
}
use salesforce_erp_sync.Outcome.{ok}
use salesforce_erp_sync.Python.Decimal.{Number, decimal_of_text}
use salesforce_erp_sync.FakeSalesforce.Soql.{
  Value, null, text, boolean, instant, date, number, texts, Condition, OrderBy, Query, Builtins,
  opportunity_fields, parse_datetime_literal,
}
use salesforce_erp_sync.FakeSalesforce.Soql.Tokens.{Token}
use salesforce_erp_sync.FakeSalesforce.Soql.Parser.{is_word, op_name, ascii_digits, unquoted}
use salesforce_erp_sync.FakeSalesforce.Soql.Parse.{is_digits, whole_number}

abbrev pub IsWord : String → Token → Type 0
IsWord word tok = is_word word tok ≡ true

-- The tokens do not go on with the word, or with a comma.
abbrev pub Lacks : String → List Token → Type 0
Lacks word [] = Unit
Lacks word (tok ∷ toks) = is_word word tok ≡ false

abbrev pub LacksComma : List Token → Type 0
LacksComma [] = Unit
LacksComma (tok ∷ toks) = str_eq tok.text "," ≡ false

abbrev pub LacksOr : List Token → Type 0
LacksOr [] = Unit
LacksOr (tok ∷ toks) = str_eq (upper tok.text) "OR" ≡ false

abbrev pub IsMark : String → Token → Type 0
IsMark mark tok = str_eq tok.text mark ≡ true

-- A name of a column, in any case of its letters.
pub record IsColumn (name ftype : String) (tok : Token) : Type 0 where
  pub is_ident : str_eq tok.kind "ident" ≡ true
  pub known : lookup (lower tok.text) opportunity_fields ≡ some (name, ftype)

-- The types whose literals are quoted.
pub record IsTextType (ftype : String) : Type 0 where
  pub no_time : str_eq ftype "datetime" ≡ false
  pub no_date : str_eq ftype "date" ≡ false
  pub no_truth : str_eq ftype "boolean" ≡ false
  pub no_amount : str_eq ftype "currency" ≡ false

abbrev pub token : String → String → Token
token kind s = record { kind = kind; text = s }

module _ (py : Builtins) where
  -- A literal of a column's type; null is one of each.
  pub data IsLiteral : String → Token → Value → Type 0 where
    nothing :
        {ftype s : String} → str_eq (upper s) "NULL" ≡ true → IsLiteral ftype (token "ident" s) null
    a_time :
        {s : String} {t : ℤ}
        → parse_datetime_literal py.fromisoformat s ≡ ok t
        → IsLiteral "datetime" (token "datetime" s) (instant t)
    a_date :
        {s : String} {d : ℤ}
        → py.date_fromisoformat s ≡ ok d
        → IsLiteral "date" (token "date" s) (date d)
    truth :
        {s : String}
        → str_eq (upper s) "NULL" ≡ false
        → str_eq (upper s) "TRUE" ≡ true
        → IsLiteral "boolean" (token "ident" s) (boolean true)
    falsehood :
        {s : String}
        → str_eq (upper s) "NULL" ≡ false
        → str_eq (upper s) "TRUE" ≡ false
        → str_eq (upper s) "FALSE" ≡ true
        → IsLiteral "boolean" (token "ident" s) (boolean false)
    an_amount :
        {s : String} {x : Number}
        → decimal_of_text (ascii_digits s) ≡ some x
        → IsLiteral "currency" (token "number" s) (number x)
    a_text :
        {ftype s : String}
        → IsTextType ftype
        → IsLiteral ftype (token "string" s) (text (unquoted s))

  -- The values of an IN list, to its closing parenthesis.
  pub data Values (ftype : String) : List Token → List String → List Token → Type 0 where
    last_value :
        {tok sep : Token} {v : String} {rest : List Token}
        → IsLiteral ftype tok (text v)
        → IsMark ")" sep
        → Values ftype (tok ∷ sep ∷ rest) (v ∷ []) rest
    next_value :
        {tok sep : Token} {v : String} {vs : List String} {toks rest : List Token}
        → IsLiteral ftype tok (text v)
        → IsMark "," sep
        → Values ftype toks vs rest
        → Values ftype (tok ∷ sep ∷ toks) (v ∷ vs) rest

  pub data IsCondition : List Token → Condition → List Token → Type 0 where
    compares :
        {name ftype op : String} {col lit : Token} {v : Value} {rest : List Token}
        → IsColumn name ftype col
        → IsLiteral ftype lit v
        → IsCondition
            (col ∷ token "op" op ∷ lit ∷ rest)
            (record { field = name; op = op_name op; value = v })
            rest
    among :
        {name ftype : String} {col word paren : Token} {vs : List String} {toks rest : List Token}
        → IsColumn name ftype col
        → IsWord "IN" word
        → IsMark "(" paren
        → Values ftype toks vs rest
        → IsCondition
            (col ∷ word ∷ paren ∷ toks)
            (record { field = name; op = "IN"; value = texts vs })
            rest

-- The columns of SELECT.
pub data Columns : List Token → List String → List Token → Type 0 where
  last_column :
      {name ftype : String} {col : Token} {rest : List Token}
      → IsColumn name ftype col
      → LacksComma rest
      → Columns (col ∷ rest) (name ∷ []) rest
  next_column :
      {name ftype : String} {col sep : Token} {names : List String} {toks rest : List Token}
      → IsColumn name ftype col
      → IsMark "," sep
      → Columns toks names rest
      → Columns (col ∷ sep ∷ toks) (name ∷ names) rest

-- DESC, ASC, or neither.
pub data Direction : List Token → Bool → List Token → Type 0 where
  descends :
      {word : Token} {rest : List Token} → IsWord "DESC" word → Direction (word ∷ rest) true rest
  ascends :
      {word : Token} {rest : List Token}
      → is_word "DESC" word ≡ false
      → IsWord "ASC" word
      → Direction (word ∷ rest) false rest
  unsaid : {rest : List Token} → Lacks "DESC" rest → Lacks "ASC" rest → Direction rest false rest

abbrev pub key : String → Bool → OrderBy
key name descending = record { field = name; descending = descending }

-- The keys of ORDER BY.
pub data Keys : List Token → List OrderBy → List Token → Type 0 where
  last_key :
      {name ftype : String} {col : Token} {b : Bool} {toks rest : List Token}
      → IsColumn name ftype col
      → Direction toks b rest
      → LacksComma rest
      → Keys (col ∷ toks) (key name b ∷ []) rest
  next_key :
      {name ftype : String} {col sep : Token} {b : Bool} {keys : List OrderBy}
      {toks more rest : List Token}
      → IsColumn name ftype col
      → Direction toks b (sep ∷ more)
      → IsMark "," sep
      → Keys more keys rest
      → Keys (col ∷ toks) (key name b ∷ keys) rest

pub data Order : List Token → List OrderBy → List Token → Type 0 where
  unordered : {rest : List Token} → Lacks "ORDER" rest → Order rest [] rest
  ordered_by :
      {order by_ : Token} {keys : List OrderBy} {toks rest : List Token}
      → IsWord "ORDER" order
      → IsWord "BY" by_
      → Keys toks keys rest
      → Order (order ∷ by_ ∷ toks) keys rest

-- LIMIT, at the end.
pub data Limit : List Token → Option ℕ → Type 0 where
  unlimited : Limit [] none
  at_most :
      {word : Token} {s : String}
      → IsWord "LIMIT" word
      → is_digits (codes s) ≡ true
      → Limit (word ∷ token "number" s ∷ []) (some (whole_number s))

module _ (py : Builtins) where
  -- The conditions after the first.
  pub data Ands : List Token → List Condition → List Token → Type 0 where
    no_and : {rest : List Token} → Lacks "AND" rest → Ands rest [] rest
    next_and :
        {word : Token} {c : Condition} {cs : List Condition} {toks mid rest : List Token}
        → IsWord "AND" word
        → IsCondition py toks c mid
        → Ands mid cs rest
        → Ands (word ∷ toks) (c ∷ cs) rest

  pub data Where : List Token → List Condition → List Token → Type 0 where
    all_records : {rest : List Token} → Lacks "WHERE" rest → Where rest [] rest
    those :
        {word : Token} {c : Condition} {cs : List Condition} {toks mid rest : List Token}
        → IsWord "WHERE" word
        → IsCondition py toks c mid
        → Ands mid cs rest
        → LacksOr rest
        → Where (word ∷ toks) (c ∷ cs) rest

  pub data IsQuery : List Token → Query → Type 0 where
    selects :
        {select from object : Token} {names : List String} {conditions : List Condition}
        {keys : List OrderBy} {limit : Option ℕ} {toks t1 t2 t3 : List Token}
        → IsWord "SELECT" select
        → Columns toks names (from ∷ object ∷ t1)
        → IsWord "FROM" from
        → str_eq (lower object.text) "opportunity" ≡ true
        → Where t1 conditions t2
        → Order t2 keys t3
        → Limit t3 limit
        → IsQuery (select ∷ toks) (record {
          fields = names;
          sobject = "Opportunity";
          conditions = conditions;
          order_by = keys;
          limit = limit;
        })
