-- ===== src/Naming/Encoding.antt =====
-- How the spelling of a hash, `safe_encode_u32` of
-- src/controllers/restatedeployment/reconcilers/replicaset.rs, is read back.
use Prim.Native.Char.{code}
use native.Mathlib.Nat.{pow-suc}
use restate_operator.Base.{
  ℕ, zero, suc, ◌+◌, ◌*◌, ◌/◌, ◌%◌, ◌^◌, ◌<◌, ◌≤◌, ◌==◌, ◌≡◌, refl, String, arith, if◌then◌else◌,
  length, Bool-cases, inl, inr, ==_iff,
}
use restate_operator.Cloud.{codes}
use restate_operator.Naming.{letter, encode_on, safe_encode_u32}

-- The digit that a letter stands for, and the number that a text of letters stands for.
abbrev pub digit_of : ℕ → ℕ
digit_of c =
    if c == b'4'
    then 0
    else if c == b'5'
    then 1
    else if c == b'6'
    then 2
    else if c == b'7'
    then 3
    else if c == b'8'
    then 4
    else if c == b'9'
    then 5
    else if c == b'b'
    then 6
    else if c == b'c'
    then 7
    else if c == b'd'
    then 8
    else 9

pub decode : String → ℕ
decode String.[] = 0
decode (String.◌∷◌ c s) = digit_of (code c) + 10 * decode s

digit_of-letter : (d : ℕ) → d < 10 → digit_of (code (letter d)) ≡ d
digit_of-letter zero h = refl
digit_of-letter (suc zero) h = refl
digit_of-letter (suc (suc zero)) h = refl
digit_of-letter (suc (suc (suc zero))) h = refl
digit_of-letter (suc (suc (suc (suc zero)))) h = refl
digit_of-letter (suc (suc (suc (suc (suc zero))))) h = refl
digit_of-letter (suc (suc (suc (suc (suc (suc zero)))))) h = refl
digit_of-letter (suc (suc (suc (suc (suc (suc (suc zero))))))) h = refl
digit_of-letter (suc (suc (suc (suc (suc (suc (suc (suc zero)))))))) h = refl
digit_of-letter (suc (suc (suc (suc (suc (suc (suc (suc (suc zero))))))))) h = refl
digit_of-letter (suc (suc (suc (suc (suc (suc (suc (suc (suc (suc d)))))))))) h =
    absurd (omega arith)

decode-encode_on : (fuel val : ℕ) → val ≤ fuel → decode (encode_on fuel val) ≡ val
unfolding decode encode_on
decode-encode_on zero val h = omega arith
decode-encode_on (suc fuel) val h = elim (Bool-cases (val == 0)) [
  | inl e ↦ rw e (let z = (==_iff val 0).0 e in omega arith)
  | inr e ↦
      rw (e, decode)
        (omega (
          arith,
          digit_of-letter (val % 10) (omega arith),
          decode-encode_on fuel (val / 10) (ground arith),
        ))
]

length-encode_on :
    (digits fuel val : ℕ) → val < 10 ^ digits → length (codes (encode_on fuel val)) ≤ digits
unfolding encode_on codes
length-encode_on digits zero val h = omega arith
length-encode_on zero (suc fuel) val h = elim (Bool-cases (val == 0)) [
  | inl e ↦ rw e (omega arith)
  | inr e ↦ absurd (ground arith)
]
length-encode_on (suc digits) (suc fuel) val h = elim (Bool-cases (val == 0)) [
  | inl e ↦ rw e (omega arith)
  | inr e ↦
      rw (e, codes)
        (let smaller = length-encode_on digits fuel (val / 10) (omega (arith, rw pow-suc at h)) in
          omega arith)
]

-- A u32 can be read back from its spelling, which has at most ten letters.
pub safe_encode_u32-decodes :
    (val : ℕ)
    → val < 2 ^ 32
    → (decode (safe_encode_u32 val) ≡ val) × (length (codes (safe_encode_u32 val)) ≤ 10)
unfolding safe_encode_u32
safe_encode_u32-decodes val h =
    (decode-encode_on val val (omega arith), length-encode_on 10 val val (omega arith))
