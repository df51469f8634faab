-- ===== src/Prelude/Tables.antt =====
-- A test that holds on all small numbers, checked by running it.
use Prim.Native.Nat.{ℕ, zero, suc, ◌<◌}
use mathlib.Core.Path.{◌≡◌, sym, subst}
use mathlib.Core.Bool.{Bool, true, false}
use mathlib.Core.Logic.{inl, inr}
use native.Mathlib.Omega.{arith}
use gitflare.Prelude.Tests.{if◌then◌else◌, ◌==◌, Bool-cases, ==_iff}

-- The first `n` values all pass the test.
unfoldable pub table : (ℕ → Bool) → ℕ → Bool
table test zero = true
table test (suc n) = if test n then table test n else false

pub entry : (test : ℕ → Bool) (n : ℕ) → table test n ≡ true → (i : ℕ) → i < n → test i ≡ true
unfolding table
entry test zero full i b = absurd (omega arith)
entry test (suc n) full i b = elim (Bool-cases (test n)) [
  | inr f ↦ absurd (ground arith)
  | inl t ↦ elim (Bool-cases (i == n)) [
    | inl e ↦ subst (λ j. test j ≡ true) (sym ((==_iff i n).0 e)) t
    | inr ne ↦ entry test n (ground arith) i (ground arith)
  ]
]
