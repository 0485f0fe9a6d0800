-- ===== src/Server/Tokens.antt =====
-- src/server.rs: `tokens_equal` tells whether two tokens of the same length are equal.
use adaptivemsg_rust.Base.{ℕ, ◌≡◌, refl, [], ◌∷◌, true, ==_iff, length, arith}
use Prim.Native.Nat.{bit_or, bit_xor}
use adaptivemsg_rust.Base.Bits.{bit_xor-zero, bit_xor_self, bit_or-zero}
use adaptivemsg_rust.Recovery.{RecoveryToken}
use adaptivemsg_rust.Server.{diff_of, tokens_equal}

-- The fold gives zero only if it starts with zero and the tokens are equal.
diff_of-zero :
    (acc : ℕ) (a b : RecoveryToken)
    → length a ≡ length b
    → diff_of acc a b ≡ 0
    → (acc ≡ 0) × (a ≡ b)
diff_of-zero acc [] [] l h = (h, refl)
diff_of-zero acc [] (y ∷ b) l h = absurd (omega arith)
diff_of-zero acc (x ∷ a) [] l h = absurd (omega arith)
diff_of-zero acc (x ∷ a) (y ∷ b) l h =
    let (d, e) = diff_of-zero (bit_or acc (bit_xor x y)) a b (omega arith) h in
    let (z, w) = bit_or-zero acc (bit_xor x y) d in let same : x ≡ y = bit_xor-zero x y w in (z, cc)

diff_of_self : (a : RecoveryToken) → diff_of 0 a a ≡ 0
diff_of_self [] = refl
diff_of_self (x ∷ a) = rw (bit_xor_self x) (diff_of_self a)

pub tokens_equal_sound :
    (a b : RecoveryToken) → length a ≡ length b → tokens_equal a b ≡ true → a ≡ b
unfolding tokens_equal
tokens_equal_sound a b l h = (diff_of-zero 0 a b l ((==_iff (diff_of 0 a b) 0).0 h)).1

pub tokens_equal_self : (a : RecoveryToken) → tokens_equal a a ≡ true
unfolding tokens_equal
tokens_equal_self a = (==_iff (diff_of 0 a a) 0).1 (diff_of_self a)
