-- ===== src/Approval/Digest.antt =====
-- The hexadecimal text of a digest determines its bytes.
use Prim.Native.Nat.{◌/◌}
use Prim.Native.Char.{code}
use Prim.Native.String.{count}
use text.Mathlib.TextLemmas.{append_inj, length-append}
use bastet_workstation.Common.{
  ℕ, zero, suc, ◌+◌, ◌-◌, ◌<◌, ◌%◌, ◌≡◌, refl, sym, ap, ◌∙◌, String, List, [], ◌∷◌, All, length,
  Bool, true, ◌&&◌, ◌==◌, arith, ltb, if◌then◌else◌,
}
use bastet_workstation.Approval.Hash.{hex_digits, digit_at, hex_byte, hex}

-- The number that a digit stands for.
abbrev digit_value : String → ℕ
digit_value String.[] = 0
digit_value (String.◌∷◌ c s) = if ltb (code c) 58 then code c - 48 else code c - 87

-- One character each, which stand for the numbers from `k` on.
abbrev counts_from : ℕ → List String → Bool
counts_from k [] = true
counts_from k (d ∷ ds) = digit_value d == k && count d == 1 && counts_from (suc k) ds

digit_at-counts_from :
    (k : ℕ) (ds : List String) (n : ℕ)
    → counts_from k ds ≡ true
    → n < length ds
    → (digit_value (digit_at ds n) ≡ k + n) × (count (digit_at ds n) ≡ 1)
digit_at-counts_from k [] n c h = absurd (omega arith)
digit_at-counts_from k (d ∷ ds) zero c h = (ground arith, ground arith)
digit_at-counts_from k (d ∷ ds) (suc n) c h =
    let (later, single) = digit_at-counts_from (suc k) ds n (ground arith) (omega arith) in
    (omega (arith, later), single)

hex_digit :
    (n : ℕ)
    → n < 16
    → (digit_value (digit_at hex_digits n) ≡ n) × (count (digit_at hex_digits n) ≡ 1)
hex_digit n h =
    let (value, single) = digit_at-counts_from 0 hex_digits n refl h in
    (omega (arith, value), single)

-- Two digits for a byte.
hex_byte-count : (b : ℕ) → b < 256 → count (hex_byte b) ≡ 2
unfolding hex_byte
hex_byte-count b h =
    let (v, one) = hex_digit (b / 16) (omega arith) in
    let (w, another) = hex_digit (b % 16) (omega arith) in
    length-append (digit_at hex_digits (b / 16)) (digit_at hex_digits (b % 16))
    ∙ omega (arith, one, another)

hex_byte-eq : (b c : ℕ) → b < 256 → c < 256 → hex_byte b ≡ hex_byte c → b ≡ c
unfolding hex_byte
hex_byte-eq b c hb hc e =
    let (vb, one_b) = hex_digit (b / 16) (omega arith) in
    let (vc, one_c) = hex_digit (c / 16) (omega arith) in
    let (wb, two_b) = hex_digit (b % 16) (omega arith) in
    let (wc, two_c) = hex_digit (c % 16) (omega arith) in
    let (high, low) = append_inj e (one_b ∙ sym one_c) in
    let same_high : b / 16 ≡ c / 16 = sym vb ∙ ap digit_value high ∙ vc in
    let same_low : b % 16 ≡ c % 16 = sym wb ∙ ap digit_value low ∙ wc in omega arith

abbrev pub AreBytes : List ℕ → Type 0
AreBytes = All (λ b. b < 256)

pub hex-eq : (bs cs : List ℕ) → AreBytes bs → AreBytes cs → hex bs ≡ hex cs → bs ≡ cs
unfolding hex
hex-eq [] [] hb hc e = refl
hex-eq [] (c ∷ cs) hb (here, hc) e =
    absurd (omega (arith, ap count e, length-append (hex_byte c) (hex cs), hex_byte-count c here))
hex-eq (b ∷ bs) [] (here, hb) hc e =
    absurd (omega (arith, ap count e, length-append (hex_byte b) (hex bs), hex_byte-count b here))
hex-eq (b ∷ bs) (c ∷ cs) (here, hb) (there, hc) e =
    let (first, rest) = append_inj e (hex_byte-count b here ∙ sym (hex_byte-count c there)) in
    ap (λ x. x ∷ bs) (hex_byte-eq b c here there first)
    ∙ ap (λ xs. c ∷ xs) (hex-eq bs cs hb hc rest)
