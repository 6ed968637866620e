-- ===== src/Common/Prefixes.antt =====
-- A text with another in front: `startswith`, and the slice behind it.
use Prim.Native.Nat.{ℕ}
use Prim.Native.Char.{code}
use Prim.Native.String.{String}
use mathlib.Core.Path.{◌≡◌, refl}
use mathlib.Core.Bool.{true}
use native.Mathlib.Omega.{arith}
use package.text.Mathlib.TextLemmas.{cons-append, nil-append}
use salesforce_erp_sync.Common.Tests.{◌==◌}
use salesforce_erp_sync.Common.Lists.{length}
use salesforce_erp_sync.Common.Texts.{codes, ◌<>◌, starts_with, suffix}

same_code : (n : ℕ) → (n == n) ≡ true
same_code n = ground arith

pub starts_with-append : (p t : String) → starts_with p (p <> t) ≡ true
unfolding starts_with
starts_with-append String.[] t = refl
starts_with-append (String.◌∷◌ c p) t =
    rw (cons-append c p t, same_code (code c)) (starts_with-append p t)

pub suffix-append : (p t : String) → suffix (length (codes p)) (p <> t) ≡ t
unfolding suffix codes
suffix-append String.[] t = nil-append t
suffix-append (String.◌∷◌ c p) t = rw (cons-append c p t) (suffix-append p t)
