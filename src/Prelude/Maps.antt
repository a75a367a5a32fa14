-- ===== src/Prelude/Maps.antt =====
-- Functions from addresses, changed at one of them.
use Prim.Native.Nat.{ℕ}
use mathlib.Core.Path.{◌≡◌}
use mathlib.Core.Logic.{◌≢◌}
use mathlib.Core.Bool.{true, false}
use native.Mathlib.Omega.{arith}
use lizarx.Prelude.Tests.{◌==◌, if◌then◌else◌}

abbrev pub set : {A : Type 0} → (ℕ → A) → ℕ → A → ℕ → A
set f k v j = if j == k then v else f j

pub set-same : {A : Type 0} (f : ℕ → A) (k : ℕ) (v : A) → set f k v k ≡ v
set-same f k v = let e : (k == k) ≡ true = ground arith in rw e

pub set-other : {A : Type 0} (f : ℕ → A) (k : ℕ) (v : A) (j : ℕ) → j ≢ k → set f k v j ≡ f j
set-other f k v j ne = let e : (j == k) ≡ false = ground arith in rw e

-- The value at one address goes through a function.
abbrev pub modify : {A : Type 0} → (ℕ → A) → ℕ → (A → A) → ℕ → A
modify f k g j = if j == k then g (f j) else f j

pub modify-same : {A : Type 0} (f : ℕ → A) (k : ℕ) (g : A → A) → modify f k g k ≡ g (f k)
modify-same f k g = let e : (k == k) ≡ true = ground arith in rw e

pub modify-other :
    {A : Type 0} (f : ℕ → A) (k : ℕ) (g : A → A) (j : ℕ) → j ≢ k → modify f k g j ≡ f j
modify-other f k g j ne = let e : (j == k) ≡ false = ground arith in rw e
