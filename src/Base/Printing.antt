-- ===== src/Base/Printing.antt =====
-- Decimal printing as folly's `toAppend` does it: an instance of `Decimal` for the concrete inputs.
use api_pack.Base.{
  ℕ, zero, suc, ◌+◌, ◌*◌, ◌-◌, ◌/◌, ◌%◌, ◌<◌, ◌≡◌, ◌≢◌, refl, sym, ap, ◌∙◌, arith, true, false, [],
  ◌∷◌, ◌++◌, All, ltb,
}
use api_pack.Base.Text.{Text, IsDigit, Decimal}

unfoldable pub print_on : ℕ → ℕ → Text
print_on zero n = []
print_on (suc fuel) n = elim (ltb n 10) [
  | true ↦ (48 + n) ∷ []
  | false ↦ print_on fuel (n / 10) ++ ((48 + n % 10) ∷ [])
]

-- The number that digits stand for, after those of `acc`.
pub value_on : ℕ → Text → ℕ
value_on acc [] = acc
value_on acc (c ∷ t) = value_on (acc * 10 + (c - 48)) t

value-append :
    (acc : ℕ) (t : Text) (c : ℕ) → value_on acc (t ++ (c ∷ [])) ≡ value_on acc t * 10 + (c - 48)
unfolding value_on
value-append acc [] c = refl
value-append acc (d ∷ t) c = value-append (acc * 10 + (d - 48)) t c

pub value-print : (fuel n : ℕ) → n < fuel → value_on 0 (print_on fuel n) ≡ n
unfolding print_on value_on
value-print zero n h = absurd (omega arith)
value-print (suc fuel) n h =
    ground (arith, value-print fuel (n / 10), value-append 0 (print_on fuel (n / 10)) (48 + n % 10))

append-IsDigit : (t : Text) (c : ℕ) → All IsDigit t → IsDigit c → All IsDigit (t ++ (c ∷ []))
append-IsDigit [] c h d = (d, tt)
append-IsDigit (x ∷ t) c h d = (h.0, append-IsDigit t c h.1 d)

pub print_on-IsDigit : (fuel n : ℕ) → All IsDigit (print_on fuel n)
unfolding print_on
print_on-IsDigit zero n = tt
print_on-IsDigit (suc fuel) n =
    ground (
      arith,
      append-IsDigit (print_on fuel (n / 10)) (48 + n % 10) (print_on-IsDigit fuel (n / 10)),
    )

append-ne-nil : (t : Text) (c : ℕ) → t ++ (c ∷ []) ≢ []
append-ne-nil [] c e = cc
append-ne-nil (x ∷ t) c e = cc

abbrev pub print : ℕ → Text
print n = print_on (suc n) n

pub print-ne-nil : (n : ℕ) → print n ≢ []
unfolding print_on
print-ne-nil n e = ground (arith, append-ne-nil (print_on n (n / 10)) (48 + n % 10))

abbrev pub decimal : Decimal
decimal = record {
  print = print;
  print-IsDigit = λ n. print_on-IsDigit (suc n) n;
  print-ne-nil = print-ne-nil;
  print_inj = λ m n e.
      sym (value-print (suc m) m (omega arith))
      ∙ (ap (value_on 0) e ∙ value-print (suc n) n (omega arith));
}
