-- ===== src/Common/Memory.antt =====
-- Copies into a vector, at an index.
use Prim.Native.Nat.{ℕ, zero, suc, ◌≤◌}
use mathlib.Core.Path.{◌≡◌, refl}
use mathlib.Core.List.{List, [], ◌∷◌, ◌++◌}
use mathlib.Core.Option.{Option, none, some}
use native.Mathlib.Omega.{arith}
use rpcmple.Common.Lists.{length, drop}

-- `std::memcpy` or `std::copy` of bytes into the vector at an index;
-- `none` is a write past the end.
abbrev pub overlay : List ℕ → List ℕ → Option (List ℕ)
overlay xs [] = some xs
overlay [] (b ∷ bs) = none
overlay (x ∷ xs) (b ∷ bs) = elim (overlay xs bs) [ none ↦ none | some ys ↦ some (b ∷ ys) ]

abbrev pub overwrite : List ℕ → ℕ → List ℕ → Option (List ℕ)
overwrite xs zero bs = overlay xs bs
overwrite [] (suc i) bs = none
overwrite (x ∷ xs) (suc i) bs = elim (overwrite xs i bs) [ none ↦ none | some ys ↦ some (x ∷ ys) ]

overlay-append :
    (spare bs : List ℕ)
    → length bs ≤ length spare
    → overlay spare bs ≡ some (bs ++ drop (length bs) spare)
overlay-append spare [] h = refl
overlay-append [] (b ∷ bs) h = absurd (omega arith)
overlay-append (x ∷ spare) (b ∷ bs) h = rw (overlay-append spare bs (omega arith)) refl

pub overwrite-append :
    (ws spare bs : List ℕ)
    → length bs ≤ length spare
    → overwrite (ws ++ spare) (length ws) bs ≡ some (ws ++ (bs ++ drop (length bs) spare))
overwrite-append [] spare bs h = overlay-append spare bs h
overwrite-append (w ∷ ws) spare bs h = rw (overwrite-append ws spare bs h) refl
