-- ===== src/FakeSalesforce/Soql/Parser/Ends.antt =====
-- The methods of fake_salesforce/soql.py's `_Parser` end on every list of tokens.
use salesforce_erp_sync.Common.{
  ℕ, zero, suc, ◌≤◌, ◌<◌, String, ◌≡◌, refl, Bool, true, false, Option, none, some, List, [], ◌∷◌,
  length, if◌then◌else◌, arith, str_eq, lookup, lower, ℤ,
}
use salesforce_erp_sync.Python.Decimal.{Number, decimal_of_text}
use salesforce_erp_sync.Outcome.{Exn, Outcome, ok, raised}
use salesforce_erp_sync.FakeSalesforce.Soql.{
  Value, text, Builtins, opportunity_fields, parse_datetime_literal,
}
use salesforce_erp_sync.FakeSalesforce.Soql.Tokens.{Token}
use salesforce_erp_sync.FakeSalesforce.Soql.Parser.{
  peek, next, is_word, keyword, expect_keyword, known_field, field, made, decimal_or_raise,
  ascii_digits, choose, literal_of, literal, text_only, in_values, condition,
}
use salesforce_erp_sync.FakeSalesforce.Soql.Parser.Takes.{
  IsRefusal, by_parser, by_time, by_date, by_number, Ends, ended, refused, Takes, Reads, read,
  unread, weaker, pure-Takes, raise-Takes, lift-Takes, bind-Takes, if-Takes,
}

module _ (py : Builtins) where
  pub next-Takes : (b : ℕ) → Takes py 1 b next
  next-Takes b = record { takes = each }
    where
      each : (toks : List Token) → length toks < b → Ends py 1 (length toks) (next toks)
      each [] h = refused by_parser
      each (tok ∷ toks) h = ended (omega arith)

  pub peek-Takes : (b : ℕ) → Takes py 0 b peek
  peek-Takes b = record { takes = each }
    where
      each : (toks : List Token) → length toks < b → Ends py 0 (length toks) (peek toks)
      each [] h = ended (omega arith)
      each (tok ∷ toks) h = ended (omega arith)

  pub keyword-Takes : (b : ℕ) (word : String) → Takes py 0 b (keyword word)
  unfolding keyword
  keyword-Takes b word = record { takes = each }
    where
      met :
          (c : Bool) (tok : Token) (toks : List Token)
          → Ends py 0 (suc (length toks)) (if c then (ok true, toks) else (ok false, tok ∷ toks))
      met true tok toks = ended (omega arith)
      met false tok toks = ended (omega arith)

      each : (toks : List Token) → length toks < b → Ends py 0 (length toks) (keyword word toks)
      each [] h = ended (omega arith)
      each (tok ∷ toks) h = met (is_word word tok) tok toks

  pub expect_keyword-Takes : (b : ℕ) (word : String) → Takes py 0 b (expect_keyword word)
  unfolding expect_keyword
  expect_keyword-Takes b word = bind-Takes (keyword-Takes b word) λ found.
      if-Takes found (pure-Takes _ tt) (bind-Takes (peek-Takes _) λ tok. raise-Takes 0 _ by_parser)

  known_field-Reads : (name : String) (o : Option (String × String)) → Reads py (known_field name o)
  known_field-Reads name none = unread by_parser
  known_field-Reads name (some known) = read known

  pub field-Takes : (b : ℕ) → Takes py 1 b (field py)
  unfolding field
  field-Takes b = bind-Takes (next-Takes b) λ tok.
      if-Takes (str_eq tok.kind "ident")
        (lift-Takes _ (known_field-Reads tok.text (lookup (lower tok.text) opportunity_fields)))
        (raise-Takes 0 _ by_parser)

  choose-Reads :
      {r r' : Outcome Value} (c : Bool) → Reads py r → Reads py r' → Reads py (choose c r r')
  unfolding choose
  choose-Reads true h g = h
  choose-Reads false h g = g

  made-Reads :
      (f : ℤ → Value) (r : Outcome ℤ)
      → ((e : Exn) → r ≡ raised e → IsRefusal py e)
      → Reads py (made f r)
  made-Reads f (ok t) h = read (f t)
  made-Reads f (raised e) h = unread (h e refl)

  time_refused :
      {e : Exn} (s : String) → parse_datetime_literal py.fromisoformat s ≡ raised e → IsRefusal py e
  unfolding parse_datetime_literal
  time_refused s h = by_time h

  decimal-Reads : (o : Option Number) → Reads py (decimal_or_raise o)
  decimal-Reads none = unread by_number
  decimal-Reads (some x) = read (salesforce_erp_sync.FakeSalesforce.Soql.number x)

  literal_of-Reads : (name ftype : String) (tok : Token) → Reads py (literal_of py name ftype tok)
  unfolding literal_of
  literal_of-Reads name ftype tok = choose-Reads _ (read _) (
      choose-Reads _
        (choose-Reads _
          (made-Reads _ (parse_datetime_literal py.fromisoformat tok.text)
            (λ e. time_refused tok.text))
          (unread by_parser))
        (choose-Reads _
          (choose-Reads _ (made-Reads _ (py.date_fromisoformat tok.text) (λ e. by_date))
            (unread by_parser))
          (choose-Reads _ (choose-Reads _ (read _) (unread by_parser)) (
            choose-Reads _
              (choose-Reads _ (decimal-Reads (decimal_of_text (ascii_digits tok.text)))
                (unread by_parser))
              (choose-Reads _ (read _) (unread by_parser))))))

  pub literal-Takes : (b : ℕ) (name ftype : String) → Takes py 1 b (literal py name ftype)
  unfolding literal
  literal-Takes b name ftype =
      bind-Takes (next-Takes b) λ tok. lift-Takes _ (literal_of-Reads name ftype tok)

  text_only-Reads : (v : Value) → Reads py (text_only v)
  text_only-Reads (text s) = read s
  text_only-Reads v = unread by_parser

  in_values-Takes :
      (fuel b : ℕ) (name ftype : String) → b ≤ fuel → Takes py 2 b (in_values py fuel name ftype)
  unfolding in_values
  in_values-Takes zero b name ftype h = record { takes = λ toks le. absurd (omega (arith, h, le)) }
  in_values-Takes (suc fuel) b name ftype h = bind-Takes (literal-Takes b name ftype) λ v.
      bind-Takes (lift-Takes _ (text_only-Reads v)) λ value. bind-Takes (next-Takes _) λ sep.
        if-Takes _ (pure-Takes _ _) (
          if-Takes _
            (weaker (omega arith) (
              bind-Takes (in_values-Takes fuel _ name ftype (omega (arith, h)))
                λ values. pure-Takes _ _))
            (raise-Takes 0 _ by_parser))

  pub condition-Takes : (fuel b : ℕ) → b ≤ fuel → Takes py 2 b (condition py fuel)
  unfolding condition
  condition-Takes fuel b h = bind-Takes {k = 1} (field-Takes b) λ known.
      bind-Takes {k = 1} (keyword-Takes _ "IN") λ within.
        if-Takes within
          (bind-Takes {k = 0} (next-Takes _) λ paren.
            if-Takes _
              (weaker (omega arith) (
                bind-Takes (in_values-Takes fuel _ known.0 known.1 (omega (arith, h)))
                  λ values. pure-Takes _ _))
              (raise-Takes 0 _ by_parser))
          (bind-Takes {k = 0} (next-Takes _) λ op_tok.
            if-Takes _
              (weaker (omega arith)
                (bind-Takes (literal-Takes _ known.0 known.1) λ target. pure-Takes _ _))
              (raise-Takes 0 _ by_parser))
