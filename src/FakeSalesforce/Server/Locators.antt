-- ===== src/FakeSalesforce/Server/Locators.antt =====
-- The paths of fake_salesforce/server.py's `nextRecordsUrl`: what `_page` writes, `_LOCATOR_PATH` reads.
use Prim.Native.Char.{Char, code}
use package.text.Mathlib.TextLemmas.{cons-append, nil-append, append-nil, append_assoc}
use salesforce_erp_sync.Common.{
  ℕ, String, ◌≡◌, refl, sym, ap, ◌∙◌, Bool, true, false, Option, none, some, List, [], ◌∷◌, codes,
  ◌<>◌, str_of_ℕ, arith, Bool-cases, inl, inr, starts_with-append, suffix-append, not, ◌==◌,
}
use salesforce_erp_sync.Python.Regex.{is_decimal, at_end}
use salesforce_erp_sync.FakeSalesforce.Soql.Scan.{run, scan}
use salesforce_erp_sync.FakeSalesforce.Soql.Parse.{whole_number}
use salesforce_erp_sync.FakeSalesforce.Server.Data.{
  any_digits, version_pattern, rest_pattern, then_rest, ends_there, locator_path, version_path,
}
use salesforce_erp_sync.FakeSalesforce.Server.Digits.{
  all_codes, goes_on, IsDigits, all_codes-append, codes-append, run-append, scan-any_digits,
  whole_number-str_of_ℕ, str_of_ℕ-IsDigits,
}

dash : (s : String) → goes_on is_decimal ("-" <> s) ≡ false
unfolding is_decimal
dash s = rw (cons-append "-" "" s) refl

scan-last : (s : String) → IsDigits s → scan any_digits s ≡ some (s, "")
scan-last s h = ap (scan any_digits) (sym (append-nil s)) ∙ scan-any_digits s "" h refl

-- `_LOCATOR_PATH` reads a locator and an offset.
locator_path-reads :
    (d o : String)
    → IsDigits d
    → IsDigits o
    → locator_path ("/query/01gFAKE" <> (d <> ("-" <> o))) ≡ some ("01gFAKE" <> d, o)
unfolding locator_path codes at_end
locator_path-reads d o h g =
    rw
      (
        starts_with-append "/query/01gFAKE" (d <> ("-" <> o)),
        suffix-append "/query/01gFAKE" (d <> ("-" <> o)),
        scan-any_digits d ("-" <> o) h (dash o),
        starts_with-append "-" o,
        suffix-append "-" o,
        scan-last o g,
      )
      refl

-- A version is digits, a point and a digit.
pub record IsVersion (version : String) : Type 0 where
  pub major : String
  pub minor : Char
  pub whole : version ≡ major <> ("." <> String.◌∷◌ minor "")
  pub major_digits : IsDigits major
  pub minor_digit : is_decimal (code minor) ≡ true

abbrev pub is_inline : ℕ → Bool
is_inline c = not (c == 10)

newline_no_digit : is_decimal 10 ≡ false
unfolding is_decimal
newline_no_digit = refl

inline_digit : (c : ℕ) → is_decimal c ≡ true → is_inline c ≡ true
inline_digit c h = elim (Bool-cases (c == 10)) [
  | inl newline ↦
      let same : c ≡ 10 = ground (arith, newline) in cc (sym newline_no_digit ∙ rw same at h)
  | inr other_ ↦ rw other_ refl
]

all-inline : (cs : List ℕ) → all_codes is_decimal cs ≡ true → all_codes is_inline cs ≡ true
all-inline [] h = refl
all-inline (c ∷ cs) h =
    let here : is_decimal c ≡ true = ground arith in
    let rest : all_codes is_decimal cs ≡ true = ground arith in
    rw (inline_digit c here, all-inline cs rest) refl

point : (s : String) → goes_on is_decimal ("." <> s) ≡ false
unfolding is_decimal
point s = rw (cons-append "." "" s) refl

scan-version :
    (major : String) (minor : Char) (s : String)
    → IsDigits major
    → is_decimal (code minor) ≡ true
    → scan version_pattern (major <> ("." <> String.◌∷◌ minor s))
      ≡ some (major <> ("." <> String.◌∷◌ minor ""), s)
scan-version major minor s h g =
    rw
      (
        scan-any_digits major ("." <> String.◌∷◌ minor s) h (point (String.◌∷◌ minor s)),
        cons-append "." "" (String.◌∷◌ minor s),
        nil-append (String.◌∷◌ minor s),
        g,
      )
      refl

scan-rest :
    (s : String)
    → all_codes is_inline (codes s) ≡ true
    → scan rest_pattern ("/" <> s) ≡ some ("/" <> s, "")
scan-rest s h =
    rw
      (
        cons-append "/" "" s,
        nil-append s,
        ap (run is_inline) (sym (append-nil s)) ∙ run-append is_inline s "" h refl,
      )
      (ap (λ x. some (x, "")) (cons-append "/" "" s ∙ ap (String.◌∷◌ "/") (nil-append s)))

then_rest-reads :
    (version s : String)
    → all_codes is_inline (codes s) ≡ true
    → then_rest (some (version, "/" <> s)) ≡ some (version, "/" <> s)
unfolding at_end codes
then_rest-reads version s inline =
    ap {B = Option (String × String)}
      (λ o. elim (ends_there o) [ none ↦ none | some rest ↦ some (version, rest) ])
      (scan-rest s inline)

-- `_VERSION_PATH` reads a version and the line after it.
version_path-reads :
    (version s : String)
    → IsVersion version
    → all_codes is_inline (codes s) ≡ true
    → version_path ("/services/data/v" <> (version <> ("/" <> s))) ≡ some (version, "/" <> s)
unfolding version_path codes at_end
version_path-reads version s h inline =
    let split : version <> ("/" <> s) ≡ h.major <> ("." <> String.◌∷◌ h.minor ("/" <> s)) =
      ap (λ v. v <> ("/" <> s)) h.whole
      ∙ append_assoc h.major ("." <> String.◌∷◌ h.minor "") ("/" <> s)
      ∙ ap (λ x. h.major <> x)
          (append_assoc "." (String.◌∷◌ h.minor "") ("/" <> s)
            ∙ ap (λ x. "." <> x)
                (cons-append h.minor "" ("/" <> s)
                  ∙ ap (String.◌∷◌ h.minor) (nil-append ("/" <> s)))) in
    rw
      (
        starts_with-append "/services/data/v" (version <> ("/" <> s)),
        suffix-append "/services/data/v" (version <> ("/" <> s)),
        ap (scan version_pattern) split
            ∙ scan-version h.major h.minor ("/" <> s) h.major_digits h.minor_digit,
        then_rest-reads (h.major <> ("." <> String.◌∷◌ h.minor "")) s inline,
      )
      (ap (λ v. some (v, "/" <> s)) (sym h.whole))

-- A locator of the stub: its prefix, and digits.
pub record IsLocator (locator : String) : Type 0 where
  pub number : String
  pub named : locator ≡ "01gFAKE" <> number
  pub number_digits : IsDigits number

-- `nextRecordsUrl`
abbrev pub next_url : String → String → ℕ → String
next_url version locator offset =
    "/services/data/" <> version <> "/query/" <> locator <> "-" <> str_of_ℕ offset

-- the rest of the path, behind its slash
abbrev line : String → String → String
line d o = "query/01gFAKE" <> (d <> ("-" <> o))

line-inline :
    (d o : String) → IsDigits d → IsDigits o → all_codes is_inline (codes (line d o)) ≡ true
unfolding codes
line-inline d o h g =
    rw
      (
        codes-append "query/01gFAKE" (d <> ("-" <> o)),
        codes-append d ("-" <> o),
        codes-append "-" o,
      )
      (all_codes-append is_inline (codes d) (45 ∷ codes o) (all-inline (codes d) h.digits)
        (all-inline (codes o) g.digits))

rest-line :
    (d o : String)
    → "/query/" <> (("01gFAKE" <> d) <> ("-" <> o)) ≡ "/query/01gFAKE" <> (d <> ("-" <> o))
rest-line d o =
    ap (λ x. "/query/" <> x) (append_assoc "01gFAKE" d ("-" <> o))
    ∙ sym (append_assoc "/query/" "01gFAKE" (d <> ("-" <> o)))

next_url-line :
    (version d o : String)
    → "/services/data/" <> (("v" <> version) <> ("/query/" <> (("01gFAKE" <> d) <> ("-" <> o))))
      ≡ "/services/data/v" <> (version <> ("/" <> line d o))
next_url-line version d o =
    ap (λ x. "/services/data/" <> (("v" <> version) <> x))
      (rest-line d o ∙ append_assoc "/" "query/01gFAKE" (d <> ("-" <> o)))
    ∙ ap (λ x. "/services/data/" <> x) (append_assoc "v" version ("/" <> line d o))
    ∙ sym (append_assoc "/services/data/" "v" (version <> ("/" <> line d o)))

-- What the URL of a page asks for.
pub record Target : Type 0 where
  pub version : String
  pub locator : String
  pub offset : ℕ

abbrev pub target : String → Option (String × String) → Option Target
target version none = none
target version (some (locator, offset)) =
    some (record { version = "v" <> version; locator = locator; offset = whole_number offset })

abbrev pub target_in : Option (String × String) → Option Target
target_in none = none
target_in (some (version, rest)) = target version (locator_path rest)

-- the expressions of `_data`, one after the other
abbrev pub target_of : String → Option Target
target_of url = target_in (version_path url)

-- `_data` reads of a `nextRecordsUrl` what `_page` wrote it for: the version, the locator and the offset.
pub target_of-next_url :
    (version locator : String) (offset : ℕ)
    → IsVersion version
    → IsLocator locator
    → target_of (next_url ("v" <> version) locator offset)
      ≡ some (record { version = "v" <> version; locator = locator; offset = offset })
target_of-next_url version locator offset h g =
    let o = str_of_ℕ offset in
    let digits = str_of_ℕ-IsDigits offset in
    let url : next_url ("v" <> version) locator offset
        ≡ "/services/data/v" <> (version <> ("/" <> line g.number o)) =
      ap (λ l. next_url ("v" <> version) l offset) g.named ∙ next_url-line version g.number o in
    let rest : "/" <> line g.number o ≡ "/query/01gFAKE" <> (g.number <> ("-" <> o)) =
      sym (append_assoc "/" "query/01gFAKE" (g.number <> ("-" <> o))) in
    let read : locator_path ("/" <> line g.number o) ≡ some ("01gFAKE" <> g.number, o) =
      ap locator_path rest ∙ locator_path-reads g.number o g.number_digits digits in
    ap target_of url
    ∙ ap target_in (
        version_path-reads version (line g.number o) h
          (line-inline g.number o g.number_digits digits))
    ∙ ap (target version) read
    ∙ ap some (
        ap {B = Target}
          (λ l. record { version = "v" <> version; locator = l; offset = whole_number o })
          (sym g.named)
        ∙ ap {B = Target} (λ k. record { version = "v" <> version; locator = locator; offset = k })
            (whole_number-str_of_ℕ offset))
