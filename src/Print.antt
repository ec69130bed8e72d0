-- ===== src/Print.antt =====
-- kernel/printf.c: numbers on the console, as the bytes that are written.
pub mod Laws
pub mod Format
use jokerix.Base.{
  ℕ, zero, suc, ◌+◌, ◌-◌, ◌*◌, ◌/◌, ◌%◌, ◌^◌, Bool, true, false, ◌&&◌, List, [], ◌∷◌, leb, ltb,
  ◌==◌, if◌then◌else◌,
}
use jokerix.Base.Run.{Run, ok, out_of_fuel, ◌>>=◌}

-- `digits[d]`
unfoldable pub digit : ℕ → ℕ
digit d = if ltb d 10 then b'0' + d else b'a' + (d - 10)

-- The digits of `x` in front of those that the loop has found, in the order in which they are
-- written: the last one found comes first.
unfoldable pub print_digits : ℕ → ℕ → ℕ → List ℕ → Run (List ℕ)
print_digits zero base x found = out_of_fuel
print_digits (suc fuel) base x found =
    let more = print_digits fuel base (x / base) (digit (x % base) ∷ found) in
    if x / base == 0 then ok (digit (x % base) ∷ found) else more

-- printint; `xx` is the word of 32 bits of the int.
unfoldable pub print_int : ℕ → ℕ → Bool → Run (List ℕ)
print_int xx base sign =
    if sign && leb (2 ^ 31) xx
    then (print_digits 32 base (2 ^ 32 - xx) [] >>= λ found. ok (b'-' ∷ found))
    else print_digits 32 base xx []

-- The loop of printptr, with `n` rounds left.
unfoldable pub print_hex : ℕ → ℕ → List ℕ
print_hex zero x = []
print_hex (suc n) x = digit (x / 2 ^ 60) ∷ print_hex n ((x * 2 ^ 4) % 2 ^ 64)

unfoldable pub print_ptr : ℕ → List ℕ
print_ptr x = b'0' ∷ b'x' ∷ print_hex 16 x
