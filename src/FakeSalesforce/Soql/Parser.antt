-- ===== src/FakeSalesforce/Soql/Parser.antt =====
-- fake_salesforce/soql.py: `_Parser` and `parse`. The state of the parser is its tokens from `i` on.
pub mod Takes
pub mod Ends
pub mod Sound
pub mod Conditions
use salesforce_erp_sync.Common.{
  ℕ, zero, suc, ◌+◌, ◌-◌, ◌*◌, String, Bool, true, false, ◌&&◌, ◌||◌, not, Option, none, some, List,
  [], ◌∷◌, length, if◌then◌else◌, Dict, lookup, or_default, str_eq, str_ne, codes, prefix, suffix,
  upper, lower, ◌<>◌, digit_char, ℤ, ◌==◌,
}
use salesforce_erp_sync.Python.Decimal.{Number, decimal_of_text}
use salesforce_erp_sync.Python.Regex.{is_decimal, decimal_value}
use salesforce_erp_sync.Outcome.{Exn, Outcome, ok, raised, soql_error, other}
use salesforce_erp_sync.Exec.{Exec, pure, raise, lift, ◌>>=◌, ◌>>◌}
use salesforce_erp_sync.FakeSalesforce.Soql.{
  Value, null, text, boolean, instant, date, number, texts, Condition, OrderBy, Query, Builtins,
  opportunity_fields, malformed, still_running, parse_datetime_literal,
}
use salesforce_erp_sync.FakeSalesforce.Soql.Tokens.{Token, tokenize}
use Prim.Native.Char.{Char, code}
use Prim.Native.String

abbrev pub Parser : Type 0 → Type 0
Parser = Exec (List Token)

-- `peek`
abbrev pub peek : Parser (Option Token)
peek [] = (ok none, [])
peek (tok ∷ toks) = (ok (some tok), tok ∷ toks)

-- `next`
abbrev pub next : Parser Token
next [] = (raised (malformed "unexpected end of query"), [])
next (tok ∷ toks) = (ok tok, toks)

-- The characters of words are ASCII (a name is, and a quoted text is no word), which is what `upper` and
-- `lower` change.
abbrev pub is_word : String → Token → Bool
is_word word tok = str_eq tok.kind "ident" && str_eq (upper tok.text) word

-- `keyword`
unfoldable pub keyword : String → Parser Bool
unfolding upper
keyword word [] = (ok false, [])
keyword word (tok ∷ toks) = if is_word word tok then (ok true, toks) else (ok false, tok ∷ toks)

abbrev got : Option Token → String
got none = "end"
got (some tok) = tok.text

-- `expect_keyword`
unfoldable pub expect_keyword : String → Parser Unit
unfolding keyword
expect_keyword word = do
  found ← keyword word
  if found
      then pure tt
      else (do tok ← peek; raise (malformed ("expected " <> word <> ", got " <> got tok)))

abbrev pub no_column : String → Exn
no_column name = soql_error "INVALID_FIELD" (
    "No such column '" <> name <> "' on entity 'Opportunity'. If you are attempting "
    <> "to use a custom field, be sure to append the '__c' after the custom field name.")

abbrev pub known_field : String → Option (String × String) → Outcome (String × String)
known_field name none = raised (no_column name)
known_field name (some known) = ok known

-- `field`: the API name and the type
unfoldable pub field : Builtins → Parser (String × String)
unfolding lower
field py = do
  tok ← next
  if str_eq tok.kind "ident"
      then lift (known_field tok.text (lookup (lower tok.text) opportunity_fields))
      else raise (malformed ("expected a field name, got " <> py.repr tok.text))

abbrev pub wrong_type : String → String → Exn
wrong_type name type_name = soql_error "INVALID_FIELD" (
    "value of filter criterion for field '" <> name <> "' must be of type " <> type_name
    <> " and should not be enclosed in quotes")

abbrev pub made : (ℤ → Value) → Outcome ℤ → Outcome Value
made f (ok t) = ok (f t)
made f (raised e) = raised e

-- the digits of a number, in ASCII
unfoldable pub ascii_digits : String → String
unfolding decimal_value
ascii_digits String.[] = String.[]
ascii_digits (String.◌∷◌ c s) =
    String.◌∷◌ (if is_decimal (code c) then digit_char (decimal_value (code c)) c else c)
      (ascii_digits s)

abbrev pub decimal_or_raise : Option Number → Outcome Value
decimal_or_raise none = raised (other "InvalidOperation" "conversion syntax")
decimal_or_raise (some x) = ok (number x)

-- `s.replace("\\'", "'")`, where `held` says that a backslash came just before
unfoldable pub unescaped : Bool → String → String
unescaped false String.[] = String.[]
unescaped true String.[] = "\\"
unescaped held (String.◌∷◌ c s) =
    let rest = unescaped (code c == 92) s in
    if code c == 92
    then if held then "\\" <> rest else rest
    else if held && not (code c == 39)
    then "\\" <> String.◌∷◌ c rest
    else String.◌∷◌ c rest

-- `tok.text[1:-1].replace("\\'", "'")`
unfoldable pub unquoted : String → String
unfolding unescaped codes prefix suffix
unquoted s = unescaped false (suffix 1 (prefix (length (codes s) - 1) s))

-- a branch of `literal`
unfoldable pub choose : Bool → Outcome Value → Outcome Value → Outcome Value
choose true r r' = r
choose false r r' = r'

-- `literal`, after `next`
unfoldable pub literal_of : Builtins → String → String → Token → Outcome Value
unfolding upper unquoted ascii_digits
literal_of py name ftype tok =
    let word = if str_eq tok.kind "ident" then upper tok.text else "" in
    choose (str_eq word "NULL") (ok null) (
      choose (str_eq ftype "datetime")
        (choose (str_eq tok.kind "datetime")
          (made instant (parse_datetime_literal py.fromisoformat tok.text))
          (raised (wrong_type name "dateTime")))
        (choose (str_eq ftype "date")
          (choose (str_eq tok.kind "date") (made date (py.date_fromisoformat tok.text))
            (raised (wrong_type name "date")))
          (choose (str_eq ftype "boolean")
            (choose (str_eq word "TRUE" || str_eq word "FALSE") (ok (boolean (str_eq word "TRUE")))
              (raised (wrong_type name "boolean")))
            (choose (str_eq ftype "currency")
              (choose (str_eq tok.kind "number")
                (decimal_or_raise (decimal_of_text (ascii_digits tok.text)))
                (raised (wrong_type name "double")))
              (choose (str_eq tok.kind "string") (ok (text (unquoted tok.text)))
                (raised (malformed ("expected a quoted string for '" <> name <> "'"))))))))

unfoldable pub literal : Builtins → String → String → Parser Value
unfolding literal_of
literal py name ftype = do tok ← next; lift (literal_of py name ftype tok)

abbrev pub text_only : Value → Outcome String
text_only (text s) = ok s
text_only v = raised (malformed "IN supports quoted strings only")

-- the loop of `condition` over the list of an IN; every round takes two tokens
unfoldable pub in_values : Builtins → ℕ → String → String → Parser (List String)
unfolding literal
in_values py zero name ftype = raise still_running
in_values py (suc fuel) name ftype = do
  v ← literal py name ftype
  value ← lift (text_only v)
  sep ← next
  if str_eq sep.text ")"
      then pure (value ∷ [])
      else if str_eq sep.text ","
      then (do values ← in_values py fuel name ftype; pure (value ∷ values))
      else raise (malformed "expected , or ) in IN list")

abbrev pub op_name : String → String
op_name op = if str_eq op "<>" then "!=" else op

-- `condition`
unfoldable pub condition : Builtins → ℕ → Parser Condition
unfolding field keyword in_values literal
condition py fuel = do
  known ← field py
  let (name, ftype) = known
  within ← keyword "IN"
  if within
      then (do
        paren ← next
        if str_eq paren.text "("
            then (do
              values ← in_values py fuel name ftype
              pure (record { field = name; op = "IN"; value = texts values }))
            else raise (malformed "expected ( after IN"))
      else (do
        op_tok ← next
        if str_eq op_tok.kind "op"
            then (do
              target ← literal py name ftype
              pure (record { field = name; op = op_name op_tok.text; value = target }))
            else raise (malformed ("expected an operator, got " <> py.repr op_tok.text)))
