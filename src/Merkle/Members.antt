-- ===== src/Merkle/Members.antt =====
-- The members of the padded row: padding repeats a leaf.
use mathlib.Core.List.{Memᴰ as MemD}
use noethrion.Base.{ℕ, zero, suc, refl, sym, subst, List, [], ◌∷◌, ◌++◌, replicate}
use noethrion.Python.Bytes.{Bytes}
use noethrion.Merkle.{last_or}
use noethrion.Merkle.Padding.{Padded}

pub MemD-last : (x : Bytes) (xs : List Bytes) → MemD (last_or [] (x ∷ xs)) (x ∷ xs)
unfolding last_or
MemD-last x [] = MemD.head refl
MemD-last x (y ∷ xs) = MemD.tail (MemD-last y xs)

MemD-replicate :
    (n : ℕ) {z x : Bytes} (xs : List Bytes) → MemD x xs → MemD z (replicate n x) → MemD z xs
MemD-replicate zero xs last m = elim m [ ]
MemD-replicate (suc n) xs last (MemD.head e) = subst (λ z. MemD z xs) (sym e) last
MemD-replicate (suc n) xs last (MemD.tail m) = MemD-replicate n xs last m

MemD-filling :
    (front : List Bytes) {z x : Bytes} (xs : List Bytes) (n : ℕ)
    → MemD x xs
    → ((y : Bytes) → MemD y front → MemD y xs)
    → MemD z (front ++ replicate n x)
    → MemD z xs
MemD-filling [] xs n last inside m = MemD-replicate n xs last m
MemD-filling (y ∷ front) xs n last inside (MemD.head e) = inside _ (MemD.head e)
MemD-filling (y ∷ front) xs n last inside (MemD.tail m) =
    MemD-filling front xs n last (λ z h. inside z (MemD.tail h)) m

-- Padding repeats a leaf and adds no other.
pub MemD-padded :
    {leaves padded : List Bytes} {z : Bytes}
    → Padded leaves padded
    → MemD (last_or [] leaves) leaves
    → MemD z padded
    → MemD z leaves
MemD-padded {leaves} {z = z} p last m =
    MemD-filling leaves leaves p.extra last (λ y h. h) (subst (λ l. MemD z l) p.shape m)

pub MemD-end : (xs : List Bytes) (y : Bytes) → MemD y (xs ++ y ∷ [])
MemD-end [] y = MemD.head refl
MemD-end (x ∷ xs) y = MemD.tail (MemD-end xs y)

pub MemD-front : (xs ys : List Bytes) {z : Bytes} → MemD z xs → MemD z (xs ++ ys)
MemD-front [] ys m = elim m [ ]
MemD-front (x ∷ xs) ys (MemD.head e) = MemD.head e
MemD-front (x ∷ xs) ys (MemD.tail m) = MemD.tail (MemD-front xs ys m)
