-- ===== src/Base/Equality.antt =====
-- Equality tests as an interface: for numbers, for Go strings as lists of bytes, and for pairs.
use Prim.Native.Nat.{ℕ}
use Prim.Native.Char.{code}
use Prim.Native.String.{String}
use mathlib.Core.Path.{◌≡◌, refl}
use mathlib.Core.Logic.{◌↔◌}
use mathlib.Core.Bool.{Bool, true, false, ◌&&◌}
use mathlib.Core.List.{List, [], ◌∷◌}
use native.Mathlib.Omega.{arith}
use mysmpp.Base.Tests.{nat_eqb, nat_eqb_iff}

pub record Eq {ℓ} (A : Type ℓ) : Type ℓ where
  pub test : A → A → Bool
  pub tests_equal : (x y : A) → (test x y ≡ true) ↔ (x ≡ y)

infix 50 ◌==◌
abbrev pub ◌==◌ {ℓ} : {A : Type ℓ} ⦃e : Eq A⦄ (x y : A) → Bool
◌==◌ ⦃e⦄ x y = e.test x y

-- A Go string or byte slice.
abbrev pub Text : Type 0
Text = List ℕ

-- The bytes of an ASCII literal.
abbrev pub codes : String → Text
codes String.[] = []
codes (String.◌∷◌ c s) = code c ∷ codes s

abbrev pub text_eqb : Text → Text → Bool
text_eqb [] [] = true
text_eqb [] (b ∷ s) = false
text_eqb (a ∷ r) [] = false
text_eqb (a ∷ r) (b ∷ s) = nat_eqb a b && text_eqb r s

text_eqb_sound : (r s : Text) → text_eqb r s ≡ true → r ≡ s
text_eqb_sound [] [] h = refl
text_eqb_sound [] (b ∷ s) h = cc
text_eqb_sound (a ∷ r) [] h = cc
text_eqb_sound (a ∷ r) (b ∷ s) h = ground (arith, text_eqb_sound r s)

text_eqb_refl : (r : Text) → text_eqb r r ≡ true
text_eqb_refl [] = refl
text_eqb_refl (a ∷ r) = ground (arith, text_eqb_refl r)

text_eqb_complete : (r s : Text) → r ≡ s → text_eqb r s ≡ true
text_eqb_complete r s e = rw e (text_eqb_refl s)

pub text_eqb_iff : (r s : Text) → (text_eqb r s ≡ true) ↔ (r ≡ s)
text_eqb_iff r s = (text_eqb_sound r s, text_eqb_complete r s)

instance abbrev pub nat_eq : Eq ℕ
nat_eq = record { test = nat_eqb; tests_equal = nat_eqb_iff }

instance abbrev pub text_eq : Eq Text
text_eq = record { test = text_eqb; tests_equal = text_eqb_iff }

abbrev pub text2_eqb : Text × Text → Text × Text → Bool
text2_eqb (a, b) (c, d) = text_eqb a c && text_eqb b d

pub text2_eqb_iff : (p q : Text × Text) → (text2_eqb p q ≡ true) ↔ (p ≡ q)
text2_eqb_iff (a, b) (c, d) = (sound, complete)
  where
    sound : text2_eqb (a, b) (c, d) ≡ true → ◌≡◌ {A = Text × Text} (a, b) (c, d)
    sound h = ground (arith, text_eqb_iff a c, text_eqb_iff b d)

    complete : ◌≡◌ {A = Text × Text} (a, b) (c, d) → text2_eqb (a, b) (c, d) ≡ true
    complete h = ground (arith, text_eqb_iff a c, text_eqb_iff b d)

instance abbrev pub text2_eq : Eq (Text × Text)
text2_eq = record { test = text2_eqb; tests_equal = text2_eqb_iff }

pub eq_refl {ℓ} : {A : Type ℓ} ⦃e : Eq A⦄ (a : A) → (a == a) ≡ true
eq_refl ⦃e⦄ a = (e.tests_equal a a).1 refl
