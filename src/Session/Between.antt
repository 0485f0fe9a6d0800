-- ===== src/Session/Between.antt =====
-- The frames of a history with sequence numbers in a range.
use adaptivemsg_rust.Base.{
  ℕ, suc, ◌+◌, ◌≡◌, ◌≤◌, refl, List, [], ◌∷◌, ◌++◌, ltb, leb, ◌&&◌, if◌then◌else◌, length, arith,
}
use adaptivemsg_rust.Replay.{FrameRecord, frames_after}

-- The sequence numbers of the history count up from `n + 1`.
abbrev pub Numbered : ℕ → List FrameRecord → Type 0
Numbered n [] = Unit {0}
Numbered n (f ∷ fs) = (f.seq ≡ suc n) × Numbered (suc n) fs

-- The frames after number `a`, up to number `b`.
abbrev pub between : ℕ → ℕ → List FrameRecord → List FrameRecord
between a b [] = []
between a b (f ∷ fs) = if ltb a f.seq && leb f.seq b then f ∷ between a b fs else between a b fs

pub between-append :
    (a b : ℕ) (xs ys : List FrameRecord) → between a b (xs ++ ys) ≡ between a b xs ++ between a b ys
between-append a b [] ys = refl
between-append a b (x ∷ xs) ys = ground (arith, between-append a b xs ys)

pub between-empty : (a b : ℕ) (h : List FrameRecord) → b ≤ a → between a b h ≡ []
between-empty a b [] le = refl
between-empty a b (x ∷ xs) le = ground (arith, between-empty a b xs le)

pub between-below : (n a b : ℕ) (h : List FrameRecord) → Numbered n h → b ≤ n → between a b h ≡ []
between-below n a b [] v le = refl
between-below n a b (x ∷ xs) v le = ground (arith, between-below (suc n) a b xs v.1 (omega arith))

-- The whole history is covered by any range that ends behind it.
pub between-end :
    (n a b c : ℕ) (h : List FrameRecord)
    → Numbered n h
    → n + length h ≤ b
    → n + length h ≤ c
    → between a b h ≡ between a c h
between-end n a b c [] v hb hc = refl
between-end n a b c (x ∷ xs) v hb hc =
    ground (arith, between-end (suc n) a b c xs v.1 (omega arith) (omega arith))

pub between-split :
    (n a b c : ℕ) (h : List FrameRecord)
    → Numbered n h
    → a ≤ b
    → b ≤ c
    → between a c h ≡ between a b h ++ between b c h
between-split n a b c [] v hab hbc = refl
between-split n a b c (x ∷ xs) v hab hbc =
    ground (arith, between-split (suc n) a b c xs v.1 hab hbc, between-below (suc n) a b xs v.1)

-- Two ranges that begin before the history agree.
pub between-start :
    (n a b c : ℕ) (h : List FrameRecord)
    → Numbered n h
    → a ≤ n
    → b ≤ n
    → between a c h ≡ between b c h
between-start n a b c [] v ha hb = refl
between-start n a b c (x ∷ xs) v ha hb =
    ground (arith, between-start (suc n) a b c xs v.1 (omega arith) (omega arith))

-- The first frame of a range carries the first number, and the others follow.
pub between-head :
    (n b c : ℕ) (h : List FrameRecord) {x : FrameRecord} {xs : List FrameRecord}
    → Numbered n h
    → n ≤ b
    → between b c h ≡ x ∷ xs
    → (x.seq ≡ suc b) × (suc b ≤ c) × (xs ≡ between (suc b) c h) × (between b (suc b) h ≡ x ∷ [])
between-head n b c [] v le e = cc
between-head n b c (f ∷ fs) {x} {xs} v le e = ground (
  arith,
  between-head (suc n) b c fs {x = x} {xs = xs} v.1,
  between-start (suc n) b (suc b) c fs v.1,
  between-below (suc n) b (suc b) fs v.1,
  between-empty b c fs,
)

pub frames_after-between :
    (n k a c : ℕ) (h : List FrameRecord)
    → Numbered n h
    → a ≤ k
    → frames_after k (between a c h) ≡ between k c h
unfolding frames_after
frames_after-between n k a c [] v le = refl
frames_after-between n k a c (x ∷ xs) v le =
    ground (arith, frames_after-between (suc n) k a c xs v.1 le, between-start (suc n) a k c xs v.1)

pub Numbered-append :
    (n : ℕ) (h : List FrameRecord) (f : FrameRecord)
    → Numbered n h
    → f.seq ≡ suc (n + length h)
    → Numbered n (h ++ f ∷ [])
Numbered-append n [] f v e = (omega arith, tt)
Numbered-append n (x ∷ xs) f v e = (v.0, Numbered-append (suc n) xs f v.1 (omega arith))
