-- ===== src/Packet/Buffer.antt =====
-- Writing into an array, as concatenation of its parts.
use native.Mathlib.Nat.{zero-add, suc-add}
use rc_monitor.Base.{ℕ, zero, suc, ◌+◌, ◌/◌, ◌%◌, ◌≤◌, bit_and, ◌≡◌, refl, sym, ap, ap₂, ◌∙◌, arith}
use rc_monitor.Base.{
  List, [], ◌∷◌, ◌++◌, set, drop, length, replicate, length-append, length-replicate,
}
use rc_monitor.Base.Word.{u8}
use rc_monitor.Base.Bits.{and_mask}
use rc_monitor.Packet.{write_u16_le, copy_to, clear}

pub set-append :
    (xs : List ℕ) (y v : ℕ) (ys : List ℕ) → set (xs ++ (y ∷ ys)) (length xs) v ≡ xs ++ (v ∷ ys)
set-append [] y v ys = refl
set-append (x ∷ xs) y v ys = ap (λ t. x ∷ t) (set-append xs y v ys)

snoc : (xs : List ℕ) (b : ℕ) (ys : List ℕ) → xs ++ (b ∷ ys) ≡ (xs ++ (b ∷ [])) ++ ys
snoc [] b ys = refl
snoc (x ∷ xs) b ys = ap (λ t. x ∷ t) (snoc xs b ys)

-- The two bytes of a 16-bit value.
abbrev pub word_bytes : ℕ → List ℕ
word_bytes v = (v % 256) ∷ (v / 256 % 256) ∷ []

pub low_byte : (v : ℕ) → u8 (bit_and v 0xff) ≡ v % 256
low_byte v = omega (arith, and_mask 8 v)

pub high_byte : (v : ℕ) → u8 (bit_and (v / 256) 0xff) ≡ v / 256 % 256
high_byte v = omega (arith, and_mask 8 (v / 256))

pub write_u16_le_lem :
    (xs : List ℕ) (a b v i : ℕ) (ys : List ℕ)
    → i ≡ length xs
    → write_u16_le (xs ++ (a ∷ b ∷ ys)) i v ≡ xs ++ (word_bytes v ++ ys)
unfolding write_u16_le
write_u16_le_lem xs a b v i ys e =
    ap₂ (λ x y. set (set (xs ++ (a ∷ b ∷ ys)) i x) (i + 1) y) (low_byte v) (high_byte v)
    ∙ ap (λ l. set l (i + 1) (v / 256 % 256))
        (ap (λ k. set (xs ++ (a ∷ b ∷ ys)) k (v % 256)) e
          ∙ set-append xs a (v % 256) (b ∷ ys)
          ∙ snoc xs (v % 256) (b ∷ ys))
    ∙ ap (λ k. set ((xs ++ ((v % 256) ∷ [])) ++ (b ∷ ys)) k (v / 256 % 256))
        {y = length (xs ++ ((v % 256) ∷ []))} (omega (arith, length-append xs ((v % 256) ∷ [])))
    ∙ set-append (xs ++ ((v % 256) ∷ [])) b (v / 256 % 256) ys
    ∙ sym (snoc xs (v % 256) ((v / 256 % 256) ∷ ys))

-- `memcpy` over an array that is long enough.
pub copy_to_lem :
    (xs bs ys : List ℕ) (i : ℕ)
    → i ≡ length xs
    → length bs ≤ length ys
    → copy_to (xs ++ ys) i bs ≡ xs ++ (bs ++ drop (length bs) ys)
unfolding copy_to
copy_to_lem xs [] ys i e h = refl
copy_to_lem xs (b ∷ bs) [] i e h = absurd (omega arith)
copy_to_lem xs (b ∷ bs) (y ∷ ys) i e h =
    ap (λ l. copy_to l (i + 1) bs)
      (ap (λ k. set (xs ++ (y ∷ ys)) k b) e ∙ set-append xs y b ys ∙ snoc xs b ys)
    ∙ copy_to_lem (xs ++ (b ∷ [])) bs ys (i + 1) (omega (arith, length-append xs (b ∷ [])))
        (omega arith)
    ∙ sym (snoc xs b (bs ++ drop (length bs) ys))

pub clear_lem : (out : List ℕ) (n : ℕ) → n ≤ length out → clear out n ≡ replicate n 0 ++ drop n out
unfolding clear
clear_lem out n h =
    copy_to_lem [] (replicate n 0) out 0 refl (omega (arith, length-replicate n (◌+◌ 0 0)))
    ∙ ap (λ k. replicate n 0 ++ drop k out) (length-replicate n 0)

-- The zeros behind the payload.
pub drop-replicate :
    (n k : ℕ) (ys : List ℕ) → drop n (replicate (n + k) 0 ++ ys) ≡ replicate k 0 ++ ys
drop-replicate zero k ys = rw zero-add
drop-replicate (suc n) k ys = rw suc-add (drop-replicate n k ys)
