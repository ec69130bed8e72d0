-- ===== src/Elf/Laws.antt =====
-- kernel/elf.c: the loop over the program headers comes to its end.
use jokerix.Base.{ℕ, zero, suc, ◌+◌, ◌≤◌, ◌<◌, ◌^◌, ◌≡◌, refl, inl, inr, arith, leb, Bool-cases}
use jokerix.Base.Run.{Run, ok, panic, fault, out_of_fuel, ◌>>=◌}
use jokerix.Base.Words.{add64}
use jokerix.Frame.Memory.{Memory}
use jokerix.Mapping.{Mapping}
use jokerix.Elf.{header_at, prog_header_size, map_prog, map_progs}

bind_same {u v} :
    {X : Type u} {Y : Type v} (call : Run X) {f g : X → Run Y}
    → ((x : X) → f x ≡ g x)
    → (call >>= f) ≡ (call >>= g)
bind_same panic same = refl
bind_same fault same = refl
bind_same out_of_fuel same = refl
bind_same (ok x) same = same x

-- There are less than 2 ^ 16 program headers.
phnum_bound : (m : Memory) (elf : ℕ) → (header_at m elf).phnum < 2 ^ 16
unfolding header_at
phnum_bound m elf = omega arith

-- With fuel for the headers that are left, more fuel changes nothing: the loop is never cut short.
map_progs-fuel :
    (a b i offset : ℕ) (self : Mapping) (elf : ℕ) (m : Memory)
    → 0 < a
    → 0 < b
    → 2 ^ 16 ≤ i + a
    → 2 ^ 16 ≤ i + b
    → map_progs a i offset self elf m ≡ map_progs b i offset self elf m
unfolding map_progs
map_progs-fuel zero b i offset self elf m p q r t = elim p [ ]
map_progs-fuel (suc a) zero i offset self elf m p q r t = elim q [ ]
map_progs-fuel (suc a) (suc b) i offset self elf m p q r t =
    elim (Bool-cases (leb (header_at m elf).phnum i)) [
      | inl done ↦ rw done
      | inr more ↦ rw more (
          bind_same (map_prog self elf offset m) λ m'.
            map_progs-fuel a b (i + 1) (add64 offset prog_header_size) self elf m'
              (ground (arith, phnum_bound m elf)) (ground (arith, phnum_bound m elf)) (omega arith)
              (omega arith))
    ]
