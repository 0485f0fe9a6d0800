-- ===== src/Amgen/Texts.antt =====
-- cmd/amgen/src/main.rs: texts as lists of characters, and the generator's results.
use Prim.Native.Char.{code}
use adaptivemsg_rust.Base.{
  ℕ, ◌≡◌, refl, String, List, [], ◌∷◌, Bool, true, false, ◌&&◌, ◌==◌, arith, any,
}

abbrev pub Text : Type 0
Text = List ℕ

abbrev pub codes : String → Text
codes String.[] = []
codes (String.◌∷◌ c s) = code c ∷ codes s

-- Whether two texts are the same.
abbrev pub same : Text → Text → Bool
same [] [] = true
same [] (y ∷ b) = false
same (x ∷ a) [] = false
same (x ∷ a) (y ∷ b) = x == y && same a b

pub same→eq : (a b : Text) → same a b ≡ true → a ≡ b
same→eq [] [] e = refl
same→eq [] (y ∷ b) e = cc e
same→eq (x ∷ a) [] e = cc e
same→eq (x ∷ a) (y ∷ b) e = ground (arith, same→eq a b)

abbrev pub one_of : Text → List String → Bool
one_of t names = any (λ name. same t (codes name)) names

-- anyhow's `Result`, and `bail!` with its message.
pub data Outcome {ℓ} (A : Type ℓ) : Type ℓ where
  ok : A → Outcome A
  bail : String → Outcome A

infixl 5 ◌>>=◌
abbrev pub ◌>>=◌ {ℓ κ} : {A : Type ℓ} {B : Type κ} → Outcome A → (A → Outcome B) → Outcome B
ok a >>= f = f a
bail message >>= f = bail message
