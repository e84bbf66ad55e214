-- ===== src/Prelude/Int.antt =====
-- A Python int that a client sends: signed and unbounded. It is only compared.
use Prim.Native.Nat.{ℕ}
use mathlib.Core.Bool.{Bool, true, false}
use mathlib.Core.Logic.{◌≢◌}
use mathlib.Core.Path.{◌≡◌, ap, sym, refl}
use native.Mathlib.Omega.{arith}
use ride_flow.Prelude.Tests.{nat_eqb}

-- `negsuc n` is -(n + 1).
pub data ℤ : Type 0 where
  pos : ℕ → ℤ
  negsuc : ℕ → ℤ

abbrev pub int_eqb : ℕ → ℤ → Bool
int_eqb v (pos n) = nat_eqb v n
int_eqb v (negsuc n) = false

pub int_eqb-eq : (v : ℕ) (e : ℤ) → int_eqb v e ≡ true → e ≡ pos v
int_eqb-eq v (pos n) h = ground arith
int_eqb-eq v (negsuc n) h = cc

pub int_eqb_refl : (v : ℕ) → int_eqb v (pos v) ≡ true
int_eqb_refl v = ground arith

pub int_eqb-ne : (v w : ℕ) → v ≢ w → int_eqb v (pos w) ≡ false
int_eqb-ne v w h = ground arith

pub int_eqb-other : (v : ℕ) (e : ℤ) → e ≢ pos v → int_eqb v e ≡ false
int_eqb-other v (pos n) h = int_eqb-ne v n (λ same. h (ap pos (sym same)))
int_eqb-other v (negsuc n) h = refl
